-- ===== src/L4lb/Driver/Health.antt =====
-- `HealthCheckAll`: what the goroutines leave behind, in whatever order their answers come.
use ncdn.Base.{
  ℕ, zero, suc, ◌≤◌, ◌<◌, ◌≡◌, ◌↔◌, refl, sym, ap, ◌∙◌, Bool, true, false, Option, none, some, List,
  [], ◌∷◌, ◌++◌, arith, ◌==◌, not, if◌then◌else◌, get_or, set, length, length-set, length-append,
  get_or-set_self, get_or-set_ne, ◌⊎◌, inl, inr, ℕ_discrete,
}
use ncdn.L4lb.Driver.{Ebpf, L4lb, check_one, check_all, health_check_all}

-- The answer of a destination, if it was asked.
abbrev pub answer : List (ℕ × Bool) → ℕ → Option Bool
answer [] j = none
answer ((i, ok) ∷ rest) j = if i == j then some ok else answer rest j

-- Each destination but the balancer answers at most once.
abbrev pub IsRound : ℕ → List (ℕ × Bool) → Type 0
IsRound n [] = Unit {0}
IsRound n ((i, ok) ∷ rest) = (0 < i) × (i < n) × (answer rest i ≡ none) × IsRound n rest

-- What is known of `j` after a round.
abbrev pub verdict : Option Bool → Bool → Bool
verdict none before = before
verdict (some ok) before = not ok

set_same : (xs : List Bool) (i : ℕ) (d : Bool) → set xs i (get_or xs i d) ≡ xs
set_same [] i d = refl
set_same (x ∷ xs) zero d = refl
set_same (x ∷ xs) (suc i) d = ap (◌∷◌ x) (set_same xs i d)

-- An answer sets the flag of its destination.
check_one-dead :
    (dead : List Bool) (changed : List ℕ) (i : ℕ) (ok : Bool)
    → (check_one (dead, changed) (i, ok)).0 ≡ set dead i (not ok)
unfolding check_one
check_one-dead dead changed i ok = ground (arith, set_same dead i true)

check_one-changed :
    (dead : List Bool) (changed : List ℕ) (i : ℕ) (ok : Bool)
    → ((check_one (dead, changed) (i, ok)).1 ≡ changed) × (get_or dead i true ≡ not ok)
      ⊎ ((check_one (dead, changed) (i, ok)).1 ≡ changed ++ i ∷ []) × (get_or dead i true ≡ ok)
unfolding check_one
check_one-changed dead changed i ok = ground arith

-- The flags do not depend on what was noted as changed before.
check_all-dead :
    (dead : List Bool) (changed : List ℕ) (answers : List (ℕ × Bool)) (j : ℕ)
    → IsRound (length dead) answers
    → get_or (check_all (dead, changed) answers).0 j true
      ≡ verdict (answer answers j) (get_or dead j true)
unfolding check_all
check_all-dead dead changed [] j round = refl
check_all-dead dead changed ((i, ok) ∷ rest) j (pos, lt, once, round) =
    let (dead', changed') = check_one (dead, changed) (i, ok) in
    let same : dead' ≡ set dead i (not ok) = check_one-dead dead changed i ok in
    let len : length dead' ≡ length dead = ap length same ∙ length-set dead i (not ok) in
    check_all-dead dead' changed' rest j (rw len round)
    ∙ ap (λ d. verdict (answer rest j) (get_or d j true)) same
    ∙ elim (ℕ_discrete i j) [
      | yes e ↦ ground (arith, get_or-set_self dead i (not ok) true lt)
      | no ne ↦ ground (arith, get_or-set_ne dead i j (not ok) true ne)
    ]

length-check_all :
    (dead : List Bool) (changed : List ℕ) (answers : List (ℕ × Bool))
    → length (check_all (dead, changed) answers).0 ≡ length dead
unfolding check_all
length-check_all dead changed [] = refl
length-check_all dead changed ((i, ok) ∷ rest) =
    let (dead', changed') = check_one (dead, changed) (i, ok) in
    length-check_all dead' changed' rest
    ∙ ap length (check_one-dead dead changed i ok)
    ∙ length-set dead i (not ok)

length-check_all-le :
    (dead : List Bool) (changed : List ℕ) (answers : List (ℕ × Bool))
    → length changed ≤ length (check_all (dead, changed) answers).1
unfolding check_all
length-check_all-le dead changed [] = omega arith
length-check_all-le dead changed ((i, ok) ∷ rest) =
    let (dead', changed') = check_one (dead, changed) (i, ok) in
    let rest_le = length-check_all-le dead' changed' rest in
    elim (check_one-changed dead changed i ok) [
      | inl (kept, _) ↦ omega (arith, rest_le, ap length kept)
      | inr (more, _) ↦ omega (arith, rest_le, ap length more, length-append changed (i ∷ []))
    ]

-- Nothing is noted exactly when no answer differs from what was known.
check_all-unchanged :
    (dead : List Bool) (changed : List ℕ) (answers : List (ℕ × Bool))
    → length (check_all (dead, changed) answers).1 ≡ length changed
    → (check_all (dead, changed) answers).0 ≡ dead
unfolding check_all
check_all-unchanged dead changed [] h = refl
check_all-unchanged dead changed ((i, ok) ∷ rest) h =
    let (dead', changed') = check_one (dead, changed) (i, ok) in
    let grows = length-check_all-le dead' changed' rest in
    elim (check_one-changed dead changed i ok) [
      | inl (kept, e) ↦
          check_all-unchanged dead' changed' rest (h ∙ ap length (sym kept))
          ∙ check_one-dead dead changed i ok
          ∙ ap (set dead i) (sym e)
          ∙ set_same dead i true
      | inr (more, e) ↦
          absurd (omega (arith, h, grows, ap length more, length-append changed (i ∷ [])))
    ]

check_all-kept :
    (dead : List Bool) (changed : List ℕ) (answers : List (ℕ × Bool))
    → IsRound (length dead) answers
    → (check_all (dead, changed) answers).0 ≡ dead
    → (check_all (dead, changed) answers).1 ≡ changed
unfolding check_all
check_all-kept dead changed [] round h = refl
check_all-kept dead changed ((i, ok) ∷ rest) round h =
    let (dead', changed') = check_one (dead, changed) (i, ok) in
    let same : dead' ≡ set dead i (not ok) = check_one-dead dead changed i ok in
    let flag : get_or dead i true ≡ not ok =
      ap (λ d. get_or d i true) (sym h)
      ∙ check_all-dead dead changed ((i, ok) ∷ rest) i round
      ∙ (ground arith) in
    let whole : dead' ≡ dead = same ∙ ap (set dead i) (sym flag) ∙ set_same dead i true in
    elim (check_one-changed dead changed i ok) [
      | inl (kept, _) ↦ check_all-kept dead' changed' rest (rw whole round.3) (h ∙ sym whole) ∙ kept
      | inr (_, e) ↦ absurd (ground arith)
    ]

module _ (e : Ebpf) (lb : L4lb e) (answers : List (ℕ × Bool)) where
  -- After a round with one answer at most for each destination, a destination that answered is dead exactly if its answer was not
  -- a success, and every other destination, the balancer among them, is as before: the order of the
  -- answers does not matter.
  pub health_check_all-verdict :
      IsRound (length lb.dead_dests) answers
      → (j : ℕ)
      → get_or (health_check_all e lb answers).0.dead_dests j true
        ≡ verdict (answer answers j) (get_or lb.dead_dests j true)
  unfolding health_check_all
  health_check_all-verdict round j = check_all-dead lb.dead_dests [] answers j round

  pub length-health_check_all :
      length (health_check_all e lb answers).0.dead_dests ≡ length lb.dead_dests
  unfolding health_check_all
  length-health_check_all = length-check_all lb.dead_dests [] answers

  -- With one answer at most for each destination, `HealthCheckAll` reports no change exactly when no destination died or came back.
  pub health_check_all-changed_iff :
      IsRound (length lb.dead_dests) answers
      → ((health_check_all e lb answers).1 ≡ false)
        ↔ ((health_check_all e lb answers).0.dead_dests ≡ lb.dead_dests)
  unfolding health_check_all
  health_check_all-changed_iff round = (
    λ none. check_all-unchanged lb.dead_dests [] answers (ground arith),
    λ same. rw (check_all-kept lb.dead_dests [] answers round same) refl,
  )
