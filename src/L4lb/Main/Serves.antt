-- ===== src/L4lb/Main/Serves.antt =====
-- The command over a whole run: its lookup table follows the health checks.
use Prim.Native.String.{String}
use ncdn.Base.{
  ℕ, ◌^◌, ◌≤◌, ◌≡◌, ◌⊎◌, refl, ap, ◌∙◌, Bool, true, false, Option, some, List, [], ◌∷◌, ◌++◌, inl,
  inr, get_or, length, length-replicate, replicate, Sum-cases,
}
use ncdn.Netip.{Addr}
use ncdn.L4lb.Cmd.{dests}
use ncdn.L4lb.Driver.{Ebpf, L4lb, Config, DestinationEntry}
use ncdn.L4lb.Driver.Health.{
  IsRound, answer, verdict, health_check_all-verdict, length-health_check_all,
}
use ncdn.L4lb.Driver.Lookup.{IsStore}
use ncdn.L4lb.Driver.Kept.{NeverFails, tick-NeverFails, new-flags}
use ncdn.L4lb.Driver.Tick.{InStep, tick-InStep, new-InStep}
use ncdn.L4lb.Main.{
  Event, on_tick, on_signal, run, dump_line, dump_counters, populate_lines, l4lb_main, Ended,
  panicked, not_started, ran,
}

-- In every tick each destination but the balancer answers at most once.
abbrev pub AreRounds : ℕ → List Event → Type 0
AreRounds n [] = Unit {0}
AreRounds n (on_tick _ answers ∷ events) = IsRound n answers × AreRounds n events
AreRounds n (on_signal ∷ events) = AreRounds n events

-- What is known of destination `j` after the events up to the first signal: the opposite of its last
-- answer, and what was known before if there is none.
abbrev pub last_verdict : ℕ → List Event → Bool → Bool
last_verdict j [] before = before
last_verdict j (on_signal ∷ events) before = before
last_verdict j (on_tick _ answers ∷ events) before =
    last_verdict j events (verdict (answer answers j) before)

module _ (e : Ebpf) where
  -- The table is in step with flags that are the last verdicts.
  pub record IsServing (before : ℕ → Bool) (events : List Event) (lb : L4lb e) : Type 0 where
    pub in_step : InStep e lb
    pub flags : (j : ℕ) → get_or lb.dead_dests j true ≡ last_verdict j events (before j)

  -- The command has ended with a panic or an error, or is serving.
  abbrev pub EndsServing : List DestinationEntry → List Event → Ended e → Type 0
  EndsServing es events panicked = Unit {0}
  EndsServing es events (not_started _) = Unit {0}
  EndsServing es events (ran lb lines) =
      IsServing (λ j. get_or (replicate (length es) false) j true) events lb

module _ (e : Ebpf) (laws : IsStore e) (never : NeverFails e) (hash : Addr → ℕ)
    (decimal : ℕ → String) where
  run-IsServing :
      (events : List Event) (lb : L4lb e)
      → InStep e lb
      → AreRounds (length lb.dead_dests) events
      → (lb' : L4lb e) × (lines : List String) × (run e hash decimal lb events ≡ some (lb', lines))
        × IsServing e (λ j. get_or lb.dead_dests j true) events lb'
  unfolding run
  run-IsServing [] lb s rounds = (lb, [], refl, record { in_step = s; flags = λ j. refl })
  run-IsServing (on_signal ∷ events) lb s rounds =
      (lb, [], refl, record { in_step = s; flags = λ j. refl })
  run-IsServing (on_tick read answers ∷ events) lb s (round, rounds) =
      let (lb1, err, ends, dead, step) = tick-InStep e laws hash lb answers s round in
      let s1 = step (tick-NeverFails e laws never hash lb lb1 answers err ends) in
      let same = ap length dead ∙ length-health_check_all e lb answers in
      let (lb2, lines, went, served) = run-IsServing events lb1 s1 (rw same rounds) in
      (
        lb2,
        dump_line (dump_counters decimal read) ∷ populate_lines err ++ lines,
        rw (ends, went, run) refl,
        record {
          in_step = served.in_step;
          flags = λ j.
              served.flags j
              ∙ ap (last_verdict j events)
                  (ap (λ d. get_or d j true) dead ∙ health_check_all-verdict e lb answers round j);
        },
      )

  -- Over maps that keep what is put and never fail, with at most 2^32 destinations and one answer at most
  -- of each in a tick, the command ends every tick; and when the driver has started, then after any
  -- ticks, in whatever order their answers came, a destination is taken to be dead exactly if its last
  -- answer was not a success, and, as long as one is alive, the slots of the lookup table are spread
  -- over those that are.
  pub l4lb_main-IsServing :
      (es : List DestinationEntry) (vip : Addr) (bound : e.Maps ⊎ String) (attached : Option String)
      (events : List Event)
      → length es ≤ 2 ^ 32
      → AreRounds (length es) events
      → (ended : Ended e) × (l4lb_main e hash decimal (dests es) (some vip) bound attached events
          ≡ some ended)
        × EndsServing e es events ended
  unfolding l4lb_main
  l4lb_main-IsServing es vip bound attached events few rounds =
      let cfg : Config = record { vip = vip; dests = es } in
      let (r, made, step) = new-InStep e laws hash cfg bound attached few in
      elim (Sum-cases r) [
        | inr (err, failed) ↦ (not_started err, rw (made, failed, l4lb_main) refl, tt)
        | inl (lb, started) ↦
            let flags =
              new-flags e laws never hash cfg bound attached lb few (made ∙ ap some started) in
            let wide = ap length flags ∙ length-replicate (length es) false in
            let (lb', lines, went, served) =
              run-IsServing events lb (step lb started) (rw wide rounds) in
            (
              ran lb' lines,
              rw (made, started, went, l4lb_main) refl,
              record {
                in_step = served.in_step;
                flags =
                    λ j. served.flags j ∙ ap (λ d. last_verdict j events (get_or d j true)) flags;
              },
            )
      ]
