-- ===== src/Gslb/Core/Match.antt =====
-- The longest-prefix match of `Query`.
use ncdn.Base.{
  ℕ, zero, suc, ◌≡◌, refl, ◌∙◌, subst, true, false, ◌&&◌, none, some, List, [], ◌∷◌, ◌⊎◌, inl, inr,
  arith, get_elem?, if◌then◌else◌, Bool-cases,
}
use ncdn.Float.{Float}
use ncdn.Netip.{Addr, Prefix, contains}
use ncdn.Gslb.Core.{RegionState, Best, longer, match_prefixes, match_regions}

module _ (fl : Float) (ip : Addr) where
  -- `p` is a prefix of region `r`, and holds the address.
  abbrev pub Holds : RegionState fl → Prefix → Type 0
  Holds r p = ((j : ℕ) × (get_elem? r.info.prefixes j ≡ some p)) × (contains p ip ≡ true)

  -- The choice between a match and the best so far.
  abbrev better : RegionState fl → Prefix → Best fl → Best fl
  better r p best = if contains p ip && longer fl p.bits best then some (p.bits, r) else best

  better-keeps :
      (r : RegionState fl) (p : Prefix) (best : Best fl) (n : ℕ)
      → longer fl n best ≡ false
      → longer fl n (better r p best) ≡ false
  better-keeps r p none n h = cc
  better-keeps r p (some (b, q)) n h = ground arith

  better-covers :
      (r : RegionState fl) (p : Prefix) (best : Best fl)
      → contains p ip ≡ true
      → longer fl p.bits (better r p best) ≡ false
  better-covers r p none h = ground arith
  better-covers r p (some (b, q)) h = ground arith

  match_prefixes-keeps :
      (r : RegionState fl) (ps : List Prefix) (best : Best fl) (n : ℕ)
      → longer fl n best ≡ false
      → longer fl n (match_prefixes fl ip r ps best) ≡ false
  unfolding match_prefixes
  match_prefixes-keeps r [] best n h = h
  match_prefixes-keeps r (p ∷ ps) best n h =
      match_prefixes-keeps r ps (better r p best) n (better-keeps r p best n h)

  match_prefixes-covers :
      (r : RegionState fl) (ps : List Prefix) (best : Best fl) (j : ℕ) (p : Prefix)
      → get_elem? ps j ≡ some p
      → contains p ip ≡ true
      → longer fl p.bits (match_prefixes fl ip r ps best) ≡ false
  unfolding match_prefixes
  match_prefixes-covers r [] best j p e h = cc
  match_prefixes-covers r (q ∷ ps) best zero p e h =
      let same : p ≡ q = cc in
      match_prefixes-keeps r ps (better r q best) p.bits
        (subst (λ t. longer fl p.bits (better r t best) ≡ false) same (better-covers r p best h))
  match_prefixes-covers r (q ∷ ps) best (suc j) p e h =
      match_prefixes-covers r ps (better r q best) j p e h

  match_prefixes-from :
      (r : RegionState fl) (ps : List Prefix) (best : Best fl)
      → (match_prefixes fl ip r ps best ≡ best)
        ⊎ ((j : ℕ) × (p : Prefix) × (get_elem? ps j ≡ some p)
            × (contains p ip ≡ true)
            × (match_prefixes fl ip r ps best ≡ some (p.bits, r)))
  unfolding match_prefixes
  match_prefixes-from r [] best = inl refl
  match_prefixes-from r (q ∷ ps) best = elim (match_prefixes-from r ps (better r q best)) [
    | inr (j, p, e, h, eq) ↦ inr (suc j, p, e, h, eq)
    | inl same ↦ elim (Bool-cases (contains q ip && longer fl q.bits best)) [
      | inl taken ↦ inr (0, q, refl, ground arith, same ∙ (rw taken))
      | inr left ↦ inl (same ∙ (rw left))
    ]
  ]

  -- The same over the regions.
  match_regions-keeps :
      (rs : List (RegionState fl)) (best : Best fl) (n : ℕ)
      → longer fl n best ≡ false
      → longer fl n (match_regions fl ip rs best) ≡ false
  unfolding match_regions
  match_regions-keeps [] best n h = h
  match_regions-keeps (r ∷ rs) best n h =
      match_regions-keeps rs _ n (match_prefixes-keeps r r.info.prefixes best n h)

  -- No prefix of any region that holds the address is longer than the one found.
  pub match_regions-covers :
      (rs : List (RegionState fl)) (best : Best fl) (k : ℕ) (r : RegionState fl) (p : Prefix)
      → get_elem? rs k ≡ some r
      → Holds r p
      → longer fl p.bits (match_regions fl ip rs best) ≡ false
  unfolding match_regions
  match_regions-covers [] best k r p e h = cc
  match_regions-covers (q ∷ rs) best zero r p e h =
      let same : r ≡ q = cc in
      match_regions-keeps rs _ p.bits (
        subst (λ t. longer fl p.bits (match_prefixes fl ip t t.info.prefixes best) ≡ false) same
          (match_prefixes-covers r r.info.prefixes best h.0.0 p h.0.1 h.1))
  match_regions-covers (q ∷ rs) best (suc k) r p e h = match_regions-covers rs _ k r p e h

  -- What is found is a region of the list with a prefix of that length.
  pub match_regions-from :
      (rs : List (RegionState fl)) (best : Best fl)
      → (match_regions fl ip rs best ≡ best)
        ⊎ ((k : ℕ) × (r : RegionState fl) × (p : Prefix) × (get_elem? rs k ≡ some r)
            × Holds r p
            × (match_regions fl ip rs best ≡ some (p.bits, r)))
  unfolding match_regions
  match_regions-from [] best = inl refl
  match_regions-from (q ∷ rs) best =
      elim (match_regions-from rs (match_prefixes fl ip q q.info.prefixes best)) [
        | inr (k, r, p, e, h, eq) ↦ inr (suc k, r, p, e, h, eq)
        | inl same ↦ elim (match_prefixes-from q q.info.prefixes best) [
          | inl kept ↦ inl (same ∙ kept)
          | inr (j, p, e, h, eq) ↦ inr (0, q, p, refl, ((j, e), h), same ∙ eq)
        ]
      ]
