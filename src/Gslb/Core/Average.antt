-- ===== src/Gslb/Core/Average.antt =====
-- `getMostAveragePop`: the sums over the regions, and the PoP with the least.
use ncdn.Base.{
  ℕ, zero, suc, ◌+◌, ◌<◌, ◌≡◌, refl, sym, ap, ◌∙◌, true, false, some, List, [], ◌∷◌, ◌⊎◌, inl, inr,
  arith, get_elem?, get_or, length, replicate, length-replicate, length-append, ◌++◌,
  get_or-replicate, get_elem?-get_or, get_elem?-lt, get_elem?-eq-some,
}
use mathlib.Core.List.{append_assoc}
use ncdn.Float.{Float, IsOrdered}
use ncdn.Types.{PopInfo, RegionInfo}
use ncdn.Gslb.Core.{GslbCore, RegionState, add_at, add_region, add_regions, least, most_average_pop}
use ncdn.Gslb.Core.State.{Fits, IsValid}
use ncdn.Gslb.Core.Least.{NoneBelow, IsLeast, least_lem}

module _ (fl : Float) where
  open fl use {F, ltf, addf, zerof, max_float}

  -- The sum of the latencies of PoP `i`, region after region, from `acc` on.
  unfoldable pub total : ℕ → F → List (RegionState fl) → F
  total i acc [] = acc
  total i acc (r ∷ rs) = total i (addf acc (get_or r.pop_latency i zerof)) rs

  -- A region's latencies, added entry by entry.
  add_lists : List F → List F → List F
  add_lists [] ls = []
  add_lists (x ∷ xs) [] = x ∷ xs
  add_lists (x ∷ xs) (l ∷ ls) = addf x l ∷ add_lists xs ls

  length-add_lists : (xs ls : List F) → length (add_lists xs ls) ≡ length xs
  unfolding add_lists
  length-add_lists [] ls = refl
  length-add_lists (x ∷ xs) [] = refl
  length-add_lists (x ∷ xs) (l ∷ ls) = ap suc (length-add_lists xs ls)

  get_or-add_lists :
      (xs ls : List F) (k : ℕ)
      → length ls ≡ length xs
      → k < length xs
      → get_or (add_lists xs ls) k zerof ≡ addf (get_or xs k zerof) (get_or ls k zerof)
  unfolding add_lists
  get_or-add_lists [] ls k e h = absurd (omega arith)
  get_or-add_lists (x ∷ xs) [] k e h = absurd (omega arith)
  get_or-add_lists (x ∷ xs) (l ∷ ls) zero e h = refl
  get_or-add_lists (x ∷ xs) (l ∷ ls) (suc k) e h =
      get_or-add_lists xs ls k (omega arith) (omega arith)

  add_at-append :
      (pre : List F) (x : F) (xs : List F) (l : F)
      → add_at fl (pre ++ (x ∷ xs)) (length pre) l ≡ some (pre ++ (addf x l ∷ xs))
  unfolding add_at
  add_at-append [] x xs l = refl
  add_at-append (p ∷ pre) x xs l = rw (add_at-append pre x xs l)

  add_region-append :
      (pre sums ls : List F)
      → length ls ≡ length sums
      → add_region fl (pre ++ sums) (length pre) ls ≡ some (pre ++ add_lists sums ls)
  unfolding add_region add_lists
  add_region-append pre [] [] e = refl
  add_region-append pre [] (l ∷ ls) e = absurd (omega arith)
  add_region-append pre (x ∷ xs) [] e = refl
  add_region-append pre (x ∷ xs) (l ∷ ls) e =
      let pre' = pre ++ addf x l ∷ [] in
      let len : length pre + 1 ≡ length pre' = omega (arith, length-append pre (addf x l ∷ [])) in
      let shift : pre ++ (addf x l ∷ xs) ≡ pre' ++ xs = sym (append_assoc pre (addf x l ∷ []) xs) in
      rw (add_at-append pre x xs l, shift, len, add_region-append pre' xs ls (omega arith))
        (ap some (append_assoc pre (addf x l ∷ []) (add_lists xs ls)))

  -- With a latency for each PoP in every region no index is out of range, and the sums are those of
  -- the columns.
  add_regions_lem :
      (is : List RegionInfo) (rs : List (RegionState fl)) (sums : List F)
      → Fits fl (length sums) is rs
      → (out : List F) × (add_regions fl sums rs ≡ some out)
        × (length out ≡ length sums)
        × ((k : ℕ) → k < length sums → get_or out k zerof ≡ total k (get_or sums k zerof) rs)
  unfolding add_regions total
  add_regions_lem [] [] sums f = (sums, refl, refl, λ k h. refl)
  add_regions_lem [] (r ∷ rs) sums f = absurd f
  add_regions_lem (i ∷ is) [] sums f = absurd f
  add_regions_lem (i ∷ is) (r ∷ rs) sums f =
      let sums' = add_lists sums r.pop_latency in
      let len = length-add_lists sums r.pop_latency in
      let (out, e, len', cols) = add_regions_lem is rs sums' (rw len f.2) in
      (
        out,
        rw (add_region-append [] sums r.pop_latency f.1) e,
        len' ∙ len,
        λ k h.
            cols k (rw len h)
            ∙ ap (λ t. total k t rs) (get_or-add_lists sums r.pop_latency k f.1 h),
      )

  -- In a valid state with a PoP, and an ordered type of latencies, `getMostAveragePop` returns a
  -- configured PoP. Where some PoP's sum is below
  -- `math.MaxFloat64`, no sum is below that of the PoP which it returns.
  pub most_average_pop_lem :
      IsOrdered fl
      → (c : GslbCore fl) → IsValid fl c
      → 0 < length c.cfg.pops
      → (i : ℕ) × (pop : PopInfo) × (get_elem? c.cfg.pops i ≡ some pop)
        × (most_average_pop fl c ≡ some pop)
        × ((j k : ℕ)
            → j < length c.cfg.pops
            → k < length c.cfg.pops
            → ltf (total j zerof c.regions) max_float ≡ true
            → ltf (total k zerof c.regions) (total i zerof c.regions) ≡ false)
  unfolding most_average_pop
  most_average_pop_lem o c v some_pop =
      let n = length c.cfg.pops in
      let (out, e, len, cols) =
        add_regions_lem c.cfg.regions c.regions (replicate n zerof) (rw length-replicate v.fits) in
      choose out e (len ∙ length-replicate n zerof)
        (λ k h.
          cols k (rw length-replicate h)
          ∙ ap (λ t. total k t c.regions) (get_or-replicate n k zerof))
        (least_lem fl o (λ i. i) 0 max_float 0 out)
    where
      choose :
          (out : List F)
          → add_regions fl (replicate (length c.cfg.pops) zerof) c.regions ≡ some out
          → length out ≡ length c.cfg.pops
          → ((k : ℕ) → k < length c.cfg.pops → get_or out k zerof ≡ total k zerof c.regions)
          → NoneBelow fl out max_float × (least fl (λ i. i) 0 max_float 0 out ≡ 0)
            ⊎ ((j : ℕ) × IsLeast fl out max_float j × (least fl (λ i. i) 0 max_float 0 out ≡ 0 + j))
          → (i : ℕ) × (pop : PopInfo) × (get_elem? c.cfg.pops i ≡ some pop)
            × (most_average_pop fl c ≡ some pop)
            × ((j k : ℕ)
                → j < length c.cfg.pops
                → k < length c.cfg.pops
                → ltf (total j zerof c.regions) max_float ≡ true
                → ltf (total k zerof c.regions) (total i zerof c.regions) ≡ false)
      choose out e len cols (inl (none_below, at)) =
          let (pop, here) = get_elem?-lt c.cfg.pops 0 some_pop in
          (
            0,
            pop,
            here,
            rw (e, at) here,
            λ j k hj hk below.
                absurd (
                  cc (none_below j _ (get_elem?-get_or out j zerof (rw len hj)), cols j hj, below)),
          )
      choose out e len cols (inr (i, (x, got, below, rest), at)) =
          let (lt, val) = get_elem?-eq-some out i x zerof got in
          let z : 0 + i ≡ i = omega arith in
          let (pop, here) = get_elem?-lt c.cfg.pops i (rw (← len) lt) in
          (
            i,
            pop,
            here,
            rw (e, at, z) here,
            λ j k hj hk _.
                rw (← cols k hk, ← cols i (rw (← len) lt), val)
                  (rest k _ (get_elem?-get_or out k zerof (rw len hk))),
          )
