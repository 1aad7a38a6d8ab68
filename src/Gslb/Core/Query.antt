-- ===== src/Gslb/Core/Query.antt =====
-- What `Query` answers.
use ncdn.Base.{
  ℕ, zero, suc, ◌+◌, ◌≤◌, ◌<◌, ◌≡◌, refl, sym, ap, ◌∙◌, subst, true, false, Option, none, some,
  List, [], ◌∷◌, ◌⊎◌, inl, inr, arith, get_elem?, length, Bool-cases, get_elem?-lt,
  get_elem?-eq-some,
}
use mathlib.Core.Option
use ncdn.Float.{Float, IsOrdered}
use ncdn.Netip.{Addr, Prefix, same_addr, same_addr_refl, eq_of_same_addr}
use ncdn.Types.{PopInfo, RegionInfo}
use ncdn.Gslb.Core.{
  GslbCore, RegionState, longer, match_regions, nearest, most_average_pop, query, pop_id,
}
use ncdn.Gslb.Core.State.{Fits, IsValid}
use ncdn.Gslb.Core.Least.{NoneBelow, IsLeast, least_lem}
use ncdn.Gslb.Core.Average.{total, most_average_pop_lem}
use ncdn.Gslb.Core.Match.{Holds, match_regions-covers, match_regions-from}

module _ (fl : Float) (o : IsOrdered fl) (c : GslbCore fl) (ip : Addr) where
  open fl use {F, ltf, default_latency, max_float, zerof}

  -- The region of the longest prefix that holds the address.
  abbrev pub IsRegion : RegionState fl → Type 0
  IsRegion r =
      (p : Prefix) × Holds fl ip r p
      × ((k : ℕ) × (get_elem? c.regions k ≡ some r))
      × ((k : ℕ) (q : RegionState fl) (p' : Prefix)
          → get_elem? c.regions k ≡ some q
          → Holds fl ip q p'
          → p'.bits ≤ p.bits)

  -- No prefix holds the address.
  abbrev pub Unmatched : Type 0
  Unmatched =
      (k : ℕ) (q : RegionState fl) (p : Prefix) → get_elem? c.regions k ≡ some q → ¬ Holds fl ip q p

  not_longer :
      (b : ℕ) (r : RegionState fl) (p : Prefix)
      → longer fl p.bits (some (b, r)) ≡ false
      → p.bits ≤ b
  not_longer b r p h = ground arith

  match_cases :
      ((match_regions fl ip c.regions none ≡ none) × Unmatched)
      ⊎ ((b : ℕ) × (r : RegionState fl) × (match_regions fl ip c.regions none ≡ some (b, r))
          × IsRegion r)
  match_cases = elim (match_regions-from fl ip c.regions none) [
    | inl same ↦ inl (
      same,
      λ k q p e h.
          cc (ap (longer fl p.bits) same, match_regions-covers fl ip c.regions none k q p e h),
    )
    | inr (k, r, p, e, h, eq) ↦ inr (
      p.bits,
      r,
      eq,
      (
        p,
        h,
        (k, e),
        λ k' q p' e' h'. not_longer p.bits r p' (
            ap (longer fl p'.bits) (sym eq)
            ∙ match_regions-covers fl ip c.regions none k' q p' e' h'),
      ),
    )
  ]

  Fits-length :
      (n : ℕ) (is : List RegionInfo) (rs : List (RegionState fl)) (k : ℕ) (r : RegionState fl)
      → Fits fl n is rs
      → get_elem? rs k ≡ some r
      → length r.pop_latency ≡ n
  Fits-length n [] [] k r f e = cc
  Fits-length n [] (q ∷ rs) k r f e = absurd f
  Fits-length n (i ∷ is) [] k r f e = absurd f
  Fits-length n (i ∷ is) (q ∷ rs) zero r f e =
      let same : q ≡ r = cc in ap (λ t. length t.pop_latency) (sym same) ∙ f.1
  Fits-length n (i ∷ is) (q ∷ rs) (suc k) r f e = Fits-length n is rs k r f.2 e

  -- PoP `i` has the least sum over the regions, if some sum is below `math.MaxFloat64`.
  abbrev pub IsAverage : ℕ → Type 0
  IsAverage i =
      (j k : ℕ)
      → j < length c.cfg.pops
      → k < length c.cfg.pops
      → ltf (total fl j zerof c.regions) max_float ≡ true
      → ltf (total fl k zerof c.regions) (total fl i zerof c.regions) ≡ false

  -- Why PoP `i` is the answer: it is the nearest to the region of the address, or no region has the
  -- address or a measured latency, and it is the best on average.
  abbrev pub IsAnswer : ℕ → Type 0
  IsAnswer i =
      ((r : RegionState fl) × IsRegion r × IsLeast fl r.pop_latency default_latency i)
      ⊎ ((Unmatched
            ⊎ ((r : RegionState fl) × IsRegion r × NoneBelow fl r.pop_latency default_latency))
          × IsAverage i)

  abbrev pub Answered : Type 0
  Answered =
      (i : ℕ) × (pop : PopInfo) × (get_elem? c.cfg.pops i ≡ some pop)
      × (query fl c ip ≡ some (pop.ip4 ∷ []))
      × IsAnswer i

  fall_back :
      IsValid fl c
      → 0 < length c.cfg.pops
      → (query fl c ip ≡ Option.map (λ pop. pop.ip4 ∷ []) (most_average_pop fl c))
      → Unmatched ⊎ ((r : RegionState fl) × IsRegion r × NoneBelow fl r.pop_latency default_latency)
      → Answered
  fall_back v some_pop e why =
      let (i, pop, at, avg, least_sum) = most_average_pop_lem fl o c v some_pop in
      (i, pop, at, e ∙ ap (Option.map (λ pop. pop.ip4 ∷ [])) avg, inr (why, least_sum))

  query-average :
      match_regions fl ip c.regions none ≡ none
      → query fl c ip ≡ Option.map (λ pop. pop.ip4 ∷ []) (most_average_pop fl c)
  unfolding query
  query-average e = rw (e, query)

  query-region :
      (b : ℕ) (r : RegionState fl) (n : Option ℕ)
      → match_regions fl ip c.regions none ≡ some (b, r)
      → nearest fl r.pop_latency ≡ n
      → query fl c ip ≡ elim n [
        | none ↦ Option.map (λ pop. pop.ip4 ∷ []) (most_average_pop fl c)
        | some i ↦ Option.map (λ pop. pop.ip4 ∷ []) (get_elem? c.cfg.pops i)
      ]
  unfolding query
  query-region b r n e h = rw (e, h, query)

  -- In a valid state with a PoP, and an ordered type of latencies, a query answers with the address of one PoP, and `IsAnswer` says
  -- which.
  pub query_lem : IsValid fl c → 0 < length c.cfg.pops → Answered
  unfolding nearest
  query_lem v some_pop = elim match_cases [
    | inl (unmatched, none_found) ↦ fall_back v some_pop (query-average unmatched) (inl none_found)
    | inr (b, r, matched, region) ↦
        elim (least_lem fl o some 0 default_latency none r.pop_latency) [
          | inl (none_below, at) ↦
              fall_back v some_pop (query-region b r none matched at) (inr (r, region, none_below))
          | inr (i, best, at) ↦
              let z : 0 + i ≡ i = omega arith in
              let lt = (get_elem?-eq-some r.pop_latency i best.0 zerof best.1).0 in
              let n =
                Fits-length (length c.cfg.pops) c.cfg.regions c.regions region.2.0 r v.fits
                  region.2.1 in
              let (pop, here) = get_elem?-lt c.cfg.pops i (rw (← n) lt) in
              (
                i,
                pop,
                here,
                query-region b r (some i) matched (at ∙ ap some z) ∙ ap (Option.map _) here,
                inl (r, region, best),
              )
        ]
  ]

-- For the address of the PoP at an index, `PopIdFromIP` gives the id of a PoP with that address, at this
-- index or before it.
pub pop_id_lem :
    (ps : List PopInfo) (i : ℕ) (pop : PopInfo)
    → get_elem? ps i ≡ some pop
    → (j : ℕ) × (p : PopInfo) × (j ≤ i)
      × (get_elem? ps j ≡ some p)
      × (p.ip4 ≡ pop.ip4)
      × (pop_id ps pop.ip4 ≡ p.id)
unfolding pop_id
pop_id_lem [] i pop e = absurd (cc)
pop_id_lem (p ∷ ps) zero pop e =
    let same : p ≡ pop = cc in
    let found : same_addr p.ip4 pop.ip4 ≡ true =
      subst (λ t. same_addr p.ip4 t.ip4 ≡ true) same (same_addr_refl p.ip4) in
    (0, p, omega arith, refl, ap (λ t. t.ip4) same, rw found refl)
pop_id_lem (p ∷ ps) (suc i) pop e = elim (Bool-cases (same_addr p.ip4 pop.ip4)) [
  | inl here ↦ (0, p, omega arith, refl, eq_of_same_addr p.ip4 pop.ip4 here, rw here refl)
  | inr later ↦
      let (j, q, le, at, ip, id) = pop_id_lem ps i pop e in
      (suc j, q, omega arith, at, ip, rw later id)
]
