-- ===== src/L4lb/Driver/Tick.antt =====
-- The loop of l4lb/cmd/main.go and `New`: the lookup table keeps up with the health checks.
use Prim.Native.String.{String}
use ncdn.Base.{
  u32, ℕ, suc, ◌-◌, ◌^◌, ◌≤◌, ◌<◌, ◌≡◌, ◌≢◌, ◌⊎◌, refl, sym, ◌∙◌, subst, Bool, true, false, Option,
  none, some, List, [], ◌∷◌, arith, ltb, ◌==◌, get_or, length, Bool-cases, Option-cases, inl, inr,
  length-replicate,
}
use ncdn.L4lb.Table.{count_alive, alive_dests}
use ncdn.L4lb.Table.Balance.{alive}
use ncdn.L4lb.Driver.{
  Ebpf, L4lb, Error, Config, health_check_all, populate_lookup_table, tick, sync, new, finish,
  too_few_dests, ip_to_uint32, initial, LbConfig, ebpf,
}
use ncdn.L4lb.Driver.Health.{IsRound, health_check_all-changed_iff, length-health_check_all}
use ncdn.L4lb.Driver.Lookup.{
  IsStore, Spreads, Spreads-same, alive_dests-pos, populate_lookup_table-Spreads,
}
use ncdn.Netip.{Addr}

count_alive-ne-zero :
    (ds : List Bool) → count_alive ds ≢ 0 → (i : ℕ) × (i < length ds) × (get_or ds i true ≡ false)
unfolding count_alive
count_alive-ne-zero [] h = absurd (h refl)
count_alive-ne-zero (false ∷ ds) h = (0, omega arith, refl)
count_alive-ne-zero (true ∷ ds) h =
    let (i, lt, e) = count_alive-ne-zero ds h in (suc i, omega arith, e)

-- The count is positive only if some destination is alive.
alive_dests-ne-zero :
    (dead : List Bool) → alive_dests dead ≢ 0 → (a : ℕ) × (alive (length dead) dead a ≡ true)
unfolding alive_dests
alive_dests-ne-zero [] h = absurd (h refl)
alive_dests-ne-zero (d ∷ ds) h = let (i, lt, e) = count_alive-ne-zero ds h in (suc i, ground arith)

-- The table is in step with the flags: if a destination is alive, the slots are spread over those
-- that are. (With all of them dead the driver keeps the table that it has.)
pub record InStep (e : Ebpf) (lb : L4lb e) : Type 0 where
  pub flags : length lb.dead_dests ≡ length lb.cfg.dests
  pub few : length lb.cfg.dests ≤ 2 ^ 32
  pub spread : (a : ℕ) → alive (length lb.cfg.dests) lb.dead_dests a ≡ true → Spreads e lb

module _ (e : Ebpf) (laws : IsStore e) (hash : Addr → ℕ) where
  populate-all_dead :
      (lb : L4lb e)
      → (alive_dests lb.dead_dests == 0) ≡ true
      → populate_lookup_table e hash lb ≡ some (lb, none)
  unfolding populate_lookup_table
  populate-all_dead lb gone = rw gone

  -- From any flags, `PopulateLookupTable` without an error brings the table in step.
  pub populate-InStep :
      (lb : L4lb e)
      → length lb.dead_dests ≡ length lb.cfg.dests
      → length lb.cfg.dests ≤ 2 ^ 32
      → (lb' : L4lb e) × (err : Option Error) × (populate_lookup_table e hash lb ≡ some (lb', err))
        × (lb'.cfg ≡ lb.cfg)
        × (lb'.dead_dests ≡ lb.dead_dests)
        × (err ≡ none → InStep e lb')
  populate-InStep lb flags few = elim (Bool-cases (alive_dests lb.dead_dests == 0)) [
    | inl gone ↦ (
      lb,
      none,
      populate-all_dead lb gone,
      refl,
      refl,
      λ _. record { flags = flags; few = few; spread = λ a h. absurd (none_left a h gone) },
    )
    | inr left ↦
        let (a, h) = alive_dests-ne-zero lb.dead_dests (ground arith) in
        let (lb', err, ends, cfg, dead, spreads) =
          populate_lookup_table-Spreads e laws hash lb a few (rw flags at h) in
        (
          lb',
          err,
          ends,
          cfg,
          dead,
          λ ok. record {
            flags = rw (dead, cfg) flags;
            few = rw cfg few;
            spread = λ _ _. spreads ok;
          },
        )
  ]
    where
      none_left :
          (a : ℕ)
          → alive (length lb.cfg.dests) lb.dead_dests a ≡ true
          → (alive_dests lb.dead_dests == 0) ≡ true
          → ⊥
      none_left a h gone = ground (arith, alive_dests-pos (length lb.cfg.dests) lb.dead_dests a h)

  -- Over maps that keep what is put, a tick of a driver in step, with one answer at most for each
  -- destination, ends with the flags of its health checks, and if no put fails the driver is in step
  -- after it: as long as a destination is alive, the slots are spread over those that are.
  pub tick-InStep :
      (lb : L4lb e) (answers : List (ℕ × Bool))
      → InStep e lb
      → IsRound (length lb.dead_dests) answers
      → (lb' : L4lb e) × (err : Option Error) × (tick e hash lb answers ≡ some (lb', err))
        × (lb'.dead_dests ≡ (health_check_all e lb answers).0.dead_dests)
        × (err ≡ none → InStep e lb')
  unfolding tick health_check_all
  tick-InStep lb answers s round = elim (Bool-cases (health_check_all e lb answers).1) [
    | inl changed ↦
        let (lb', err, ends, cfg, dead, step) =
          populate-InStep (health_check_all e lb answers).0
            (length-health_check_all e lb answers ∙ s.flags) s.few in
        (lb', err, rw changed ends, dead, step)
    | inr same ↦ (
      (health_check_all e lb answers).0,
      none,
      rw same refl,
      refl,
      λ _.
          subst (λ d. InStep e (record lb { dead_dests = d }))
            (sym ((health_check_all-changed_iff e lb answers round).0 same)) s,
    )
  ]

  -- `Sync` writes the two other maps.
  pub sync-slots :
      (lb : L4lb e)
      → ((sync e lb).0 ≡ record lb { maps = (sync e lb).0.maps })
        × ((k : ℕ) → e.slot (sync e lb).0.maps k ≡ e.slot lb.maps k)
  unfolding sync
  sync-slots lb = elim (Option-cases (ip_to_uint32 lb.cfg.vip)) [
    | inl bad ↦ rw (bad, sync) (refl, λ k. refl)
    | inr (v, ok) ↦
        let c : LbConfig = record { vip_address = v; num_dests = u32 (length lb.cfg.dests - 1) } in
        elim (Option-cases (e.put_config lb.maps c).1) [
          | inl fine ↦
              rw (ok, fine, sync)
                (refl, λ k. laws.slot_dests _ _ _ k ∙ laws.slot_config lb.maps c k)
          | inr (t, failed) ↦ rw (ok, failed, sync) (refl, λ k. laws.slot_config lb.maps c k)
        ]
  ]

  sync-InStep : (lb : L4lb e) → InStep e lb → InStep e (sync e lb).0
  sync-InStep lb s =
      let (frame, slots) = sync-slots lb in
      rw frame (record {
        flags = s.flags;
        few = s.few;
        spread = λ a h. Spreads-same e lb (sync e lb).0.maps slots (s.spread a h);
      })

  finish-InStep :
      (attached : Option String) (lb lb' : L4lb e) (err : Option Error)
      → (err ≡ none → InStep e lb)
      → finish e attached (lb, err) ≡ inl lb'
      → InStep e lb'
  unfolding finish
  finish-InStep attached lb lb' (some err) s h = absurd (cc)
  finish-InStep (some t) lb lb' none s h = absurd (cc)
  finish-InStep none lb lb' none s h = elim (Option-cases (sync e lb).1) [
    | inl fine ↦
        let same : (sync e lb).0 ≡ lb' = ground arith in
        subst (InStep e) same (sync-InStep lb (s refl))
    | inr (t, failed) ↦ absurd (ground arith)
  ]

  -- Over maps that keep what is put, `New` with at most 2^32 destinations ends, and a driver that it
  -- returns is in step.
  pub new-InStep :
      (cfg : Config) (bound : e.Maps ⊎ String) (attached : Option String)
      → length cfg.dests ≤ 2 ^ 32
      → (r : L4lb e ⊎ Error) × (new e hash cfg bound attached ≡ some r)
        × ((lb : L4lb e) → r ≡ inl lb → InStep e lb)
  unfolding new
  new-InStep cfg bound attached few = elim (Bool-cases (ltb (length cfg.dests) 2)) [
    | inl short ↦ (inr (too_few_dests (length cfg.dests)), rw short refl, λ lb h. absurd (cc))
    | inr enough ↦ bind bound enough
  ]
    where
      bind :
          (b : e.Maps ⊎ String)
          → ltb (length cfg.dests) 2 ≡ false
          → (r : L4lb e ⊎ Error) × (new e hash cfg b attached ≡ some r)
            × ((lb : L4lb e) → r ≡ inl lb → InStep e lb)
      bind (inr t) enough = (inr (ebpf t), rw enough refl, λ lb h. absurd (cc))
      bind (inl ms) enough =
          let (lb, err, ends, _, _, step) =
            populate-InStep (initial e cfg ms) (length-replicate (length cfg.dests) false) few in
          (
            finish e attached (lb, err),
            rw (enough, ends) refl,
            λ lb' h. finish-InStep attached lb lb' err step h,
          )
