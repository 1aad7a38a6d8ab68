-- ===== src/L4lb/Bind/Layout.antt =====
-- What a loaded balancer is known to have, and what a round of health checks finds.
use Prim.Native.String.{String}
use ncdn.Base.{
  ℕ, zero, suc, ◌+◌, ◌<◌, ◌≤◌, ◌≡◌, refl, some-injective, sym, ap, ◌∙◌, arith, Bool, true, false,
  not, Sum-cases, Option-cases, none, some, List, [], ◌∷◌, ◌⊎◌, inl, inr, length, get_or, get_elem?,
  ◌==◌,
}
use ncdn.Base.Maps.{find_entry}
use ncdn.L4lb.Driver.{DestinationEntry, Ebpf, L4lb, health_check_all}
use ncdn.L4lb.Driver.Health.{IsRound, answer, verdict, health_check_all-verdict}
use ncdn.L4lb.Dwarf.{
  Dwarf, Elf, Structs, read_dwarf_structs, lb_assert_layout, stat_counters_offsets,
  lb_config_offsets,
}
use ncdn.L4lb.Dwarf.Assert.{HasLayout, lb_assert_layout_iff}
use ncdn.L4lb.Bind.{Loader, bind_balancer, health_answers}

-- When a balancer is bound, the DWARF data of its file was read, and it has both structs with the sizes
-- and the offsets of the Go structs.
pub bind_balancer-HasLayout :
    {B : Type 0} (d : Dwarf) (bin : Elf ⊎ String) (l : Loader B) (hook_path : String) (b : B)
    → bind_balancer d bin l hook_path ≡ inl b
    → (m : Structs) × (read_dwarf_structs d bin ≡ inl m)
      × HasLayout (find_entry "stat_counters" m) 72 stat_counters_offsets
      × HasLayout (find_entry "lb_config" m) 8 lb_config_offsets
unfolding bind_balancer
bind_balancer-HasLayout d bin l hook_path b e = elim (Sum-cases (read_dwarf_structs d bin)) [
  | inr (error, bad) ↦ absurd (cc (rw (bad, bind_balancer) at e))
  | inl (m, read) ↦ elim (Option-cases (lb_assert_layout m)) [
    | inr (error, bad) ↦ absurd (cc (rw (read, bad, bind_balancer) at e))
    | inl good ↦
        let (counters, config) = (lb_assert_layout_iff m).0 good in (m, read, counters, config)
  ]
]

module _ (check : DestinationEntry → Bool) where
  answer-before :
      (dests : List DestinationEntry) (i j : ℕ)
      → j < i
      → answer (health_answers check i dests) j ≡ none
  unfolding health_answers
  answer-before [] i j h = refl
  answer-before (dest ∷ dests) i j h =
      let rest = answer-before dests (suc i) j (omega arith) in ground (arith, rest)

  answer-at :
      (dests : List DestinationEntry) (i k : ℕ) (dest : DestinationEntry)
      → get_elem? dests k ≡ some dest
      → answer (health_answers check i dests) (i + k) ≡ some (check dest)
  unfolding health_answers
  answer-at [] i k dest e = absurd (cc e)
  answer-at (d ∷ dests) i zero dest e =
      let same = some-injective e in ground (arith, ap (λ x. some (check x)) same)
  answer-at (d ∷ dests) i (suc k) dest e =
      let rest = answer-at dests (suc i) k dest e in
      let shift : suc i + k ≡ i + suc k = omega arith in
      let later : i == i + suc k ≡ false = ground arith in
      rw (later) (ap (answer (health_answers check (suc i) dests)) (sym shift) ∙ rest)

  health_answers-IsRound :
      (dests : List DestinationEntry) (i n : ℕ)
      → 0 < i
      → i + length dests ≤ n
      → IsRound n (health_answers check i dests)
  unfolding health_answers
  health_answers-IsRound [] i n h fits = tt
  health_answers-IsRound (dest ∷ dests) i n h fits = (
    h,
    omega arith,
    answer-before dests (suc i) i (omega arith),
    health_answers-IsRound dests (suc i) n (omega arith) (omega arith),
  )

  -- After a round in which every destination but the balancer was checked, each of them is dead exactly
  -- if its check failed, and the flag of the balancer is as before.
  pub health_check_all-checked :
      (e : Ebpf) (lb : L4lb e) (dests : List DestinationEntry)
      → length lb.dead_dests ≡ suc (length dests)
      → ((k : ℕ) (dest : DestinationEntry)
          → get_elem? dests k ≡ some dest
          → get_or (health_check_all e lb (health_answers check 1 dests)).0.dead_dests (suc k) true
            ≡ not (check dest))
        × (get_or (health_check_all e lb (health_answers check 1 dests)).0.dead_dests 0 true
            ≡ get_or lb.dead_dests 0 true)
  health_check_all-checked e lb dests sized =
      let answers = health_answers check 1 dests in
      let round =
        health_answers-IsRound dests 1 (length lb.dead_dests) (omega arith) (omega arith) in
      (
        (λ k dest there.
            health_check_all-verdict e lb answers round (suc k)
            ∙ ap (λ a. verdict a (get_or lb.dead_dests (suc k) true))
                (ap (answer answers) {x = suc k} {y = 1 + k} (omega arith)
                  ∙ answer-at dests 1 k dest there)),
        health_check_all-verdict e lb answers round 0
            ∙ ap (λ a. verdict a (get_or lb.dead_dests 0 true))
                (answer-before dests 1 0 (omega arith)),
      )
