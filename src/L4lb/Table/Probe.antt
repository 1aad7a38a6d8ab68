-- ===== src/L4lb/Table/Probe.antt =====
-- The probe sequence of a destination visits every slot, so the inner loop of
-- `PopulateLookupTable` ends whenever a slot is free.
use native.Mathlib.Nat.{mod-lt, mod-eq_of_lt, mod-eq-sub-mod, mod-add-mod}
use ncdn.Base.{
  u32, ℕ, zero, suc, ◌+◌, ◌-◌, ◌*◌, ◌%◌, ◌^◌, ◌≤◌, ◌<◌, ◌≡◌, refl, ap, ◌∙◌, true, false, some, List,
  [], ◌∷◌, arith, leb, if◌then◌else◌, get_or, set, length, length-set, inl, inr, get_or-set_self,
  Bool-cases, dec_lt,
}
use ncdn.Base.Int.{ℤ, negsuc}
use ncdn.L4lb.Prime.{IsPrime, reaches}
use ncdn.L4lb.Table.{taken, next_offset, find_slot}
use ncdn.L4lb.Table.Count.{used, free_slot}

set-set {ℓ} : {A : Type ℓ} (xs : List A) (i : ℕ) (u v : A) → set (set xs i u) i v ≡ set xs i v
set-set [] i u v = refl
set-set (x ∷ xs) zero u v = refl
set-set (x ∷ xs) (suc i) u v = ap (◌∷◌ x) (set-set xs i u v)

module _ (m : ℕ) (small : 2 * m ≤ 2 ^ 32) where
  -- Without a wrap, and with one subtraction for the remainder.
  advance :
      (o s : ℕ)
      → o < m
      → s < m
      → (if leb m (u32 (o + s)) then u32 (o + s) - m else u32 (o + s)) ≡ (o + s) % m
  advance o s ho hs = elim (dec_lt (o + s) m) [
    | yes p ↦ ground (arith, mod-eq_of_lt {n = o + s} {m = m} p)
    | no p ↦ ground (
      arith,
      mod-eq-sub-mod {n = o + s} {m = m} (omega arith),
      mod-eq_of_lt {n = o + s - m} {m = m} (omega arith),
    )
  ]

  pub next_offset_lem :
      (skips offsets : List ℕ) (i : ℕ)
      → get_or offsets i 0 < m
      → get_or skips i 0 < m
      → next_offset m skips offsets i
        ≡ (get_or offsets i 0, set offsets i ((get_or offsets i 0 + get_or skips i 0) % m))
  unfolding next_offset
  next_offset_lem skips offsets i ho hs = rw (advance _ _ ho hs)

  -- A free slot `k` steps ahead ends the loop: at a free slot of the table, with only the offset of
  -- `i` changed, and still below the size.
  pub find_slot_ends :
      (skips : List ℕ) (table : List ℤ) (i : ℕ)
      → get_or skips i 0 < m
      → (fuel k : ℕ) (offsets : List ℕ) → k < fuel
      → i < length offsets
      → get_or offsets i 0 < m
      → taken (get_or table ((get_or offsets i 0 + k * get_or skips i 0) % m) (negsuc 0)) ≡ false
      → (c o : ℕ) × (find_slot m fuel skips table offsets i ≡ some (c, set offsets i o))
        × (c < m)
        × (o < m)
        × (taken (get_or table c (negsuc 0)) ≡ false)
  unfolding find_slot
  find_slot_ends skips table i hs zero k offsets lt hi ho free = absurd (omega arith)
  find_slot_ends skips table i hs (suc fuel) k offsets lt hi ho free =
      elim (Bool-cases (taken (get_or table o (negsuc 0)))) [
        | inr here ↦ (o, (o + s) % m, rw (step, here), ho, mod-lt (o + s) (omega arith), here)
        | inl busy ↦
            let j = k - 1 in
            let k_suc : k ≡ suc j = positive k busy free in
            let (c, o', e, hc, ho', end) =
              find_slot_ends skips table i hs fuel j offsets' (omega arith) (rw length-set hi)
                (rw moved (mod-lt (o + s) (omega arith))) (rw (moved, shift j, ← k_suc) free) in
            (
              c,
              o',
              rw (step, busy) (e ∙ ap (λ t. some (c, t)) (set-set offsets i _ o')),
              hc,
              ho',
              end,
            )
      ]
    where
      o : ℕ
      o = get_or offsets i 0

      s : ℕ
      s = get_or skips i 0

      offsets' : List ℕ
      offsets' = set offsets i ((o + s) % m)

      step : next_offset m skips offsets i ≡ (o, offsets')
      step = next_offset_lem skips offsets i ho hs

      moved : get_or offsets' i 0 ≡ (o + s) % m
      moved = get_or-set_self offsets i _ 0 hi

      shift : (j : ℕ) → ((o + s) % m + j * s) % m ≡ (o + suc j * s) % m
      shift j = mod-add-mod (o + s) m (j * s) ∙ ap (λ (t : ℕ). t % m) (omega arith)

      positive :
          (k : ℕ)
          → taken (get_or table o (negsuc 0)) ≡ true
          → taken (get_or table ((o + k * s) % m) (negsuc 0)) ≡ false
          → k ≡ suc (k - 1)
      positive zero busy free =
          let e : (o + 0 * s) % m ≡ o = ap (λ (t : ℕ). t % m) (omega arith) ∙ mod-eq_of_lt ho in
          absurd (cc e)
      positive (suc k) busy free = omega arith

  -- With a prime size and a table that is not full, `m` probes are enough.
  pub find_slot_total :
      IsPrime m
      → (skips : List ℕ) (table : List ℤ) (offsets : List ℕ) (i : ℕ) → 0 < get_or skips i 0
      → get_or skips i 0 < m
      → i < length offsets
      → get_or offsets i 0 < m
      → length table ≡ m
      → used table < m
      → (c o : ℕ) × (find_slot m m skips table offsets i ≡ some (c, set offsets i o))
        × (c < m)
        × (o < m)
        × (taken (get_or table c (negsuc 0)) ≡ false)
  find_slot_total prime skips table offsets i pos hs hi ho size room =
      let (f, hf, free) = free_slot table (rw size room) in
      let (k, hk, e) =
        reaches m prime (get_or offsets i 0) (get_or skips i 0) f ho pos hs (rw (← size) hf) in
      find_slot_ends skips table i hs m k offsets hk hi ho (rw e free)
