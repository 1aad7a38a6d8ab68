-- ===== src/Gslb/Core/State.antt =====
-- The invariant of `GslbCore`, and that every update keeps it: in any state that the worker reaches
-- there is one region state for each region and one latency for each PoP in it.
use Prim.Native.String.{String}
use ncdn.Base.{
  ℕ, zero, suc, ◌+◌, ◌≡◌, refl, List, [], ◌∷◌, map, ◌⊎◌, length, length-map, length-replicate,
}
use ncdn.Float.{Float}
use ncdn.Netip.{Addr}
use ncdn.Types.{RegionInfo, PopStatus}
use ncdn.Gslb.Core.{
  Config, Measurer, GslbCore, RegionState, new, update_pop_status, update_region, update_regions,
  update_latency, set_region,
}

module _ (fl : Float) where
  open fl use {F}

  -- The states of the regions belong to the regions, in order, with a latency for each of `n` PoPs.
  abbrev pub Fits : ℕ → List RegionInfo → List (RegionState fl) → Type 0
  Fits n [] [] = Unit {0}
  Fits n (i ∷ is) (r ∷ rs) = (r.info ≡ i) × (length r.pop_latency ≡ n) × Fits n is rs
  Fits n _ _ = ⊥

  pub record IsValid (c : GslbCore fl) : Type 0 where
    pub statuses : length c.popstate ≡ length c.cfg.pops
    pub measurers : length c.latency_measurers ≡ length c.cfg.regions
    pub fits : Fits (length c.cfg.pops) c.cfg.regions c.regions

  Fits-map :
      (n : ℕ) (lats : List F) (is : List RegionInfo)
      → length lats ≡ n
      → Fits n is (map (λ r. record { info = r; pop_latency = lats }) is)
  Fits-map n lats [] e = tt
  Fits-map n lats (i ∷ is) e = (refl, e, Fits-map n lats is e)

  pub new-IsValid : (cfg : Config) → IsValid (new fl cfg)
  unfolding new
  new-IsValid cfg = record {
    statuses = length-replicate (length cfg.pops) _;
    measurers = length-map cfg.regions _;
    fits = Fits-map (length cfg.pops) _ cfg.regions (length-replicate (length cfg.pops) _);
  }

  set_region-Fits :
      (n i : ℕ) (lats : List F) (is : List RegionInfo) (rs : List (RegionState fl))
      → length lats ≡ n
      → Fits n is rs
      → Fits n is (set_region fl i lats rs)
  unfolding set_region
  set_region-Fits n i lats [] [] e f = tt
  set_region-Fits n zero lats (j ∷ is) (r ∷ rs) e f = (f.0, e, f.2)
  set_region-Fits n (suc i) lats (j ∷ is) (r ∷ rs) e f =
      (f.0, f.1, set_region-Fits n i lats is rs e f.2)
  set_region-Fits n i lats [] (r ∷ rs) e f = absurd f
  set_region-Fits n i lats (j ∷ is) [] e f = absurd f

  -- What the worker does between two moments at which a query can run.
  pub data Step (c : GslbCore fl) : GslbCore fl → Type 0 where
    status : (fetch : Addr → PopStatus F ⊎ String) → Step c (update_pop_status fl fetch c)
    latency : (measure : String → F ⊎ String) (i : ℕ) → Step c (update_region fl measure i c)

  pub data Reach (c : GslbCore fl) : GslbCore fl → Type 0 where
    here : Reach c c
    next : {d d' : GslbCore fl} → Reach c d → Step d d' → Reach c d'

  pub Step-IsValid : {c d : GslbCore fl} → Step c d → IsValid c → IsValid d
  unfolding update_pop_status update_region
  Step-IsValid {c} (status fetch) v = record {
    statuses = length-map c.cfg.pops _;
    measurers = v.measurers;
    fits = v.fits;
  }
  Step-IsValid {c} (latency measure i) v = record {
    statuses = v.statuses;
    measurers = v.measurers;
    fits =
        set_region-Fits (length c.cfg.pops) i _ c.cfg.regions c.regions (length-map c.cfg.pops _)
          v.fits;
  }

  -- Every state that the worker reaches from `New`, also in the middle of `UpdateLatency`, is valid.
  pub Reach-IsValid : (cfg : Config) {c : GslbCore fl} → Reach (new fl cfg) c → IsValid c
  Reach-IsValid cfg here = new-IsValid cfg
  Reach-IsValid cfg (next r s) = Step-IsValid s (Reach-IsValid cfg r)

  -- `UpdateLatency` is such steps, one for each measurer.
  update_regions-Reach :
      (c : GslbCore fl) (measure : Measurer → String → F ⊎ String) (i : ℕ) (lms : List Measurer)
      (d : GslbCore fl)
      → Reach c d
      → Reach c (update_regions fl measure i lms d)
  unfolding update_regions
  update_regions-Reach c measure i [] d r = r
  update_regions-Reach c measure i (lm ∷ lms) d r =
      update_regions-Reach c measure (i + 1) lms _ (next r (latency (measure lm) i))

  pub update_latency-Reach :
      (c d : GslbCore fl) (measure : Measurer → String → F ⊎ String)
      → Reach c d
      → Reach c (update_latency fl measure d)
  unfolding update_latency
  update_latency-Reach c d measure r = update_regions-Reach c measure 0 d.latency_measurers d r
