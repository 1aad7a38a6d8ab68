-- ===== src/Gslb/Http/Latency.antt =====
-- The latency maps of the HTTP handlers of gslb: which requests panic, and what the others answer.
use Prim.Native.String.{String}
use text.Mathlib.TextEquality.{eq_iff}
use ncdn.Base.{
  ℕ, zero, suc, ◌+◌, ◌<◌, ◌≡◌, ◌≢◌, refl, sym, ap, ◌∙◌, subst, some, List, [], ◌∷◌, ◌⊎◌, inl, inr,
  arith, get_elem?, length, get_elem?-lt, none, Option, Option-cases,
}
use ncdn.Float.{Float}
use ncdn.Types.{PopInfo, RegionInfo}
use ncdn.Gslb.Core.{GslbCore, RegionState}
use ncdn.Gslb.Core.State.{Fits, IsValid}
use ncdn.Base.Maps.{put, find_entry, find_entry-put}
use ncdn.Gslb.Http.{
  json, server_error, panic, latencies_of, pop_latencies, latency_to_region, answer_of,
}

-- No PoP of the list has the id.
abbrev pub Absent : String → List PopInfo → Type 0
Absent id [] = Unit {0}
Absent id (p ∷ ps) = (p.id ≢ id) × Absent id ps

-- `p` is at index `k`, and is the last PoP with its id.
abbrev pub LastAt : ℕ → PopInfo → List PopInfo → Type 0
LastAt k p [] = ⊥
LastAt zero p (q ∷ ps) = (q ≡ p) × Absent p.id ps
LastAt (suc k) p (q ∷ ps) = LastAt k p ps

module _ (fl : Float) where
  open fl use {F}

  abbrev pub Regionless : String → List (RegionState fl) → Type 0
  Regionless id [] = Unit {0}
  Regionless id (r ∷ rs) = (r.info.id ≢ id) × Regionless id rs

  latencies_of-nil :
      (id : String) (rs : List (RegionState fl)) → Regionless id rs → latencies_of fl id rs ≡ []
  unfolding latencies_of
  latencies_of-nil id [] h = refl
  latencies_of-nil id (r ∷ rs) h = ground (arith, eq_iff r.info.id id, latencies_of-nil id rs h.1)

  -- An id of no region makes `/latency_to_region` index a nil slice, and panic, if a PoP is
  -- configured.
  pub latency_to_region-panic :
      (marshal : List (String × F) → Option String) (c : GslbCore fl) (id : String)
      → 0 < length c.cfg.pops
      → Regionless id c.regions
      → latency_to_region fl marshal c id ≡ panic
  unfolding latency_to_region pop_latencies
  latency_to_region-panic marshal c id some_pop h =
      rw (latencies_of-nil id c.regions h) (nil c.cfg.pops some_pop)
    where
      nil :
          (ps : List PopInfo)
          → 0 < length ps
          → answer_of marshal (pop_latencies fl ps 0 [] []) ≡ panic
      nil [] lt = absurd (omega arith)
      nil (p ∷ ps) lt = refl

  -- The entries that are not written again stay.
  pop_latencies-keeps :
      (ps : List PopInfo) (i : ℕ) (lats : List F) (m : List (String × F)) (id : String)
      → length lats ≡ i + length ps
      → Absent id ps
      → (out : List (String × F)) × (pop_latencies fl ps i lats m ≡ some out)
        × (find_entry id out ≡ find_entry id m)
  unfolding pop_latencies
  pop_latencies-keeps [] i lats m id len h = (m, refl, refl)
  pop_latencies-keeps (p ∷ ps) i lats m id len h =
      let (l, at) = get_elem?-lt lats i (omega arith) in
      let (out, e, found) =
        pop_latencies-keeps ps (i + 1) lats (put p.id l m) id (omega arith) h.1 in
      (out, rw at e, found ∙ find_entry-put id p.id l m ∙ (ground (arith, eq_iff p.id id)))

  pop_latencies-total :
      (ps : List PopInfo) (i : ℕ) (lats : List F) (m : List (String × F))
      → length lats ≡ i + length ps
      → (out : List (String × F)) × (pop_latencies fl ps i lats m ≡ some out)
  unfolding pop_latencies
  pop_latencies-total [] i lats m len = (m, refl)
  pop_latencies-total (p ∷ ps) i lats m len =
      let (l, at) = get_elem?-lt lats i (omega arith) in
      let (out, e) = pop_latencies-total ps (i + 1) lats (put p.id l m) (omega arith) in
      (out, rw at e)

  pop_latencies-entry :
      (ps : List PopInfo) (i : ℕ) (lats : List F) (m out : List (String × F)) (k : ℕ) (p : PopInfo)
      → length lats ≡ i + length ps
      → LastAt k p ps
      → pop_latencies fl ps i lats m ≡ some out
      → find_entry p.id out ≡ get_elem? lats (i + k)
  unfolding pop_latencies
  pop_latencies-entry [] i lats m out k p len h e = absurd h
  pop_latencies-entry (q ∷ ps) i lats m out zero p len h e =
      let (l, at) = get_elem?-lt lats i (omega arith) in
      let (out', e', found) =
        pop_latencies-keeps ps (i + 1) lats (put q.id l m) p.id (omega arith) h.1 in
      let z : i + 0 ≡ i = omega arith in
      let same : out ≡ out' = let e2 : some out ≡ some out' = sym (rw at at e) ∙ e' in cc in
      rw (z, same, at)
        (found
          ∙ find_entry-put p.id q.id l m
          ∙ (ground (arith, eq_iff q.id p.id, ap (λ (t : PopInfo). t.id) h.0)))
  pop_latencies-entry (q ∷ ps) i lats m out (suc k) p len h e =
      let (l, at) = get_elem?-lt lats i (omega arith) in
      let z : i + suc k ≡ i + 1 + k = omega arith in
      rw z (pop_latencies-entry ps (i + 1) lats (put q.id l m) out k p (omega arith) h (rw at at e))

  -- `r` is the first region with the id.
  abbrev pub FirstAt : String → RegionState fl → List (RegionState fl) → Type 0
  FirstAt id r [] = ⊥
  FirstAt id r (q ∷ rs) = ((q ≡ r) × (r.info.id ≡ id)) ⊎ ((q.info.id ≢ id) × FirstAt id r rs)

  latencies_of-first :
      (id : String) (r : RegionState fl) (n : ℕ) (is : List RegionInfo) (rs : List (RegionState fl))
      → Fits fl n is rs
      → FirstAt id r rs
      → (latencies_of fl id rs ≡ r.pop_latency) × (length r.pop_latency ≡ n)
  unfolding latencies_of
  latencies_of-first id r n [] [] f h = absurd h
  latencies_of-first id r n [] (q ∷ rs) f h = absurd f
  latencies_of-first id r n (i ∷ is) [] f h = absurd f
  latencies_of-first id r n (i ∷ is) (q ∷ rs) f (inl (e, here)) =
      subst (λ t. (latencies_of fl id (t ∷ rs) ≡ r.pop_latency) × (length r.pop_latency ≡ n))
        (sym e) (ground (arith, eq_iff r.info.id id), ap (λ t. length t.pop_latency) (sym e) ∙ f.1)
  latencies_of-first id r n (i ∷ is) (q ∷ rs) f (inr (ne, later)) =
      let (e, len) = latencies_of-first id r n is rs f.2 later in
      (ground (arith, eq_iff q.info.id id, e), len)

  -- In a valid state, for the id of a region, the loop of `/latency_to_region` does not panic, and makes
  -- a map that gives, for each PoP that is the last one with its id, the latency of the first region
  -- with that id to it. The response is the JSON of the map, or status 500 when it has none.
  pub latency_to_region_lem :
      (marshal : List (String × F) → Option String) (c : GslbCore fl) (id : String)
      (r : RegionState fl)
      → IsValid fl c
      → FirstAt id r c.regions
      → (m : List (String × F)) × (((bs : String) × (marshal m ≡ some bs)
            × (latency_to_region fl marshal c id ≡ json bs))
          ⊎ ((marshal m ≡ none)
              × (latency_to_region fl marshal c id ≡ server_error "Failed to marshal response")))
        × ((k : ℕ) (p : PopInfo)
            → LastAt k p c.cfg.pops
            → find_entry p.id m ≡ get_elem? r.pop_latency k)
  unfolding latency_to_region
  latency_to_region_lem marshal c id r v h =
      let (e, len) = latencies_of-first id r (length c.cfg.pops) c.cfg.regions c.regions v.fits h in
      let len' : length r.pop_latency ≡ 0 + length c.cfg.pops = omega (arith, len) in
      let (m, total) = pop_latencies-total c.cfg.pops 0 r.pop_latency [] len' in
      (
        m,
        (elim (Option-cases (marshal m)) [
          | inl no_json ↦ inr (no_json, rw (latency_to_region, e, total, no_json) refl)
          | inr (bs, as_json) ↦ inl (bs, as_json, rw (latency_to_region, e, total, as_json) refl)
        ]),
        λ k p last.
            let z : 0 + k ≡ k = omega arith in
            rw z at (pop_latencies-entry c.cfg.pops 0 r.pop_latency [] m k p len' last total),
      )
