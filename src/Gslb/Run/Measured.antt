-- ===== src/Gslb/Run/Measured.antt =====
-- What the rounds of the worker leave: the state is what its last round measured.
use Prim.Native.String.{String}
use ncdn.Base.{
  u32, ℕ, zero, suc, ◌+◌, ◌*◌, ◌%◌, ◌^◌, ◌≡◌, refl, sym, ap, ap₂, ◌∙◌, arith, List, [], ◌∷◌, map,
  length, length-map, ◌⊎◌, inl, inr,
}
use ncdn.Float.{Float}
use ncdn.Types.{RegionInfo}
use ncdn.Gslb.Core.{
  Config, Measurer, GslbCore, RegionState, status_of, latency_of, set_latency, set_region,
  update_pop_status, update_region, update_regions, update_latency,
}
use ncdn.Gslb.Core.State.{Fits}
use ncdn.Gslb.Run.{Round, Wake, after_timer, on_done, ContextError, update, run_rounds}

-- The measurer that `New` makes for a region.
abbrev pub measurer_of : Config → RegionInfo → Measurer
measurer_of cfg i = record { prober_url = i.prober_url; secret = cfg.prober_secret }

module _ (fl : Float) where
  open fl use {F}

  abbrev with_regions : GslbCore fl → List (RegionState fl) → GslbCore fl
  with_regions c rs = record c { regions = rs }

  -- `n` increments of a uint32.
  abbrev bump : ℕ → ℕ → ℕ
  bump zero s = s
  bump (suc n) s = bump n (u32 (s + 1))

  -- What a round measures of a region.
  abbrev pub measured_region :
      Config → (Measurer → String → F ⊎ String) → RegionInfo → RegionState fl
  measured_region cfg measure i = record {
    info = i;
    pop_latency =
        map (λ pop. latency_of fl (measure (measurer_of cfg i) pop.latency_endpoint_url)) cfg.pops;
  }

  -- The state that a round measures, after so many updates.
  abbrev pub measured : Config → Round fl → ℕ → GslbCore fl
  measured cfg r serial = record {
    cfg = cfg;
    latency_measurers = map (measurer_of cfg) cfg.regions;
    popstate = map (λ pop. status_of fl (r.fetch pop.ip4)) cfg.pops;
    regions = map (measured_region cfg r.measure) cfg.regions;
    serial = serial;
  }

  -- A later measurer leaves the first region.
  shift :
      (measure : Measurer → String → F ⊎ String) (lms : List Measurer) (i : ℕ) (c : GslbCore fl)
      (q : RegionState fl)
      → update_regions fl measure (suc i) lms (with_regions c (q ∷ c.regions))
        ≡ with_regions
            (update_regions fl measure i lms c)
            (q ∷ (update_regions fl measure i lms c).regions)
  unfolding update_regions update_region set_region
  shift measure [] i c q = refl
  shift measure (lm ∷ lms) i c q =
      let later : suc i + 1 ≡ suc (i + 1) = omega arith in
      rw later (shift measure lms (i + 1) (update_region fl (measure lm) i c) q)

  update_regions-measured :
      (measure : Measurer → String → F ⊎ String) (n : ℕ) (is : List RegionInfo)
      (rs : List (RegionState fl)) (c : GslbCore fl)
      → Fits fl n is rs
      → update_regions fl measure 0 (map (measurer_of c.cfg) is) (with_regions c rs) ≡ record c {
        regions = map (measured_region c.cfg measure) is;
        serial = bump (length is) c.serial;
      }
  unfolding update_regions update_region set_region
  update_regions-measured measure n [] [] c f = refl
  update_regions-measured measure n [] (r ∷ rs) c f = absurd f
  update_regions-measured measure n (i ∷ is) [] c f = absurd f
  update_regions-measured measure n (i ∷ is) (r ∷ rs) c f =
      let c' : GslbCore fl = record c { serial = u32 (c.serial + 1) } in
      let q : RegionState fl = set_latency fl (measured_region c.cfg measure i).pop_latency r in
      let same : q ≡ measured_region c.cfg measure i =
        ap (λ x. record { info = x; pop_latency = (measured_region c.cfg measure i).pop_latency })
          f.0 in
      shift measure (map (measurer_of c.cfg) is) 0 (with_regions c' rs) q
      ∙ ap₂ (λ (d : GslbCore fl) (x : RegionState fl). with_regions d (x ∷ d.regions))
          (update_regions-measured measure n is rs c' f.2) same

  bump-eq : (n s m : ℕ) → s ≡ m % (2 ^ 32) → bump n s ≡ (m + n) % (2 ^ 32)
  bump-eq zero s m e = omega arith
  bump-eq (suc n) s m e = let next = bump-eq n (u32 (s + 1)) (m + 1) (omega arith) in omega arith

  -- The measurers and the regions are those of the configuration.
  pub record IsConfigured (c : GslbCore fl) : Type 0 where
    pub same_measurers : c.latency_measurers ≡ map (measurer_of c.cfg) c.cfg.regions
    pub fits : Fits fl (length c.cfg.pops) c.cfg.regions c.regions

  update-measured :
      (r : Round fl) (c : GslbCore fl) (m : ℕ)
      → IsConfigured c
      → c.serial ≡ m % (2 ^ 32)
      → update fl r c ≡ measured c.cfg r ((m + (1 + length c.cfg.regions)) % (2 ^ 32))
  unfolding update update_latency update_pop_status
  update-measured r c m h e =
      let d : GslbCore fl = update_pop_status fl r.fetch c in
      let count : bump (length c.cfg.regions) d.serial
          ≡ (m + (1 + length c.cfg.regions)) % (2 ^ 32) =
        bump-eq (length c.cfg.regions) d.serial (m + 1) (omega arith) ∙ (omega arith) in
      ap (λ lms. update_regions fl r.measure 0 lms d) h.same_measurers
      ∙ update_regions-measured r.measure (length c.cfg.pops) c.cfg.regions c.regions d h.fits
      ∙ ap₂
          (λ (lms : List Measurer) (n : ℕ). record (measured c.cfg r 0) {
            latency_measurers = lms;
            serial = n;
          })
          h.same_measurers count

  -- The last round that is done, and how many are, when a first one is.
  abbrev pub last_round : Round fl → List (Round fl) → Round fl
  last_round r [] = r
  last_round r (r' ∷ rs) =
      let later = last_round r' rs in elim r.wake [ after_timer ↦ later | on_done _ ↦ r ]

  abbrev pub rounds_done : Round fl → List (Round fl) → ℕ
  rounds_done r [] = 1
  rounds_done r (r' ∷ rs) =
      let later = rounds_done r' rs in elim r.wake [ after_timer ↦ 1 + later | on_done _ ↦ 1 ]

  Wake-cases : (w : Wake) → (w ≡ after_timer) ⊎ ((e : ContextError) × (w ≡ on_done e))
  Wake-cases after_timer = inl refl
  Wake-cases (on_done e) = inr (e, refl)

  pub measured-IsConfigured :
      (cfg : Config) (r : Round fl) (s : ℕ) → IsConfigured (measured cfg r s)
  measured-IsConfigured cfg r s = record { same_measurers = refl; fits = all cfg.regions }
    where
      all :
          (is : List RegionInfo)
          → Fits fl (length cfg.pops) is (map (measured_region cfg r.measure) is)
      all [] = tt
      all (i ∷ is) = (refl, length-map cfg.pops _, all is)

  run-timer :
      (r : Round fl) (rs : List (Round fl)) (c : GslbCore fl)
      → r.wake ≡ after_timer
      → (run_rounds fl c (r ∷ rs)).0 ≡ (run_rounds fl (update fl r c) rs).0
  unfolding run_rounds
  run-timer r rs c timer = rw (timer, run_rounds) refl

  last_round-timer :
      (r r' : Round fl) (rs : List (Round fl))
      → r.wake ≡ after_timer
      → last_round r (r' ∷ rs) ≡ last_round r' rs
  last_round-timer r r' rs timer =
      ap (λ w. elim w [ after_timer ↦ last_round r' rs | on_done _ ↦ r ]) timer

  rounds_done-timer :
      (r r' : Round fl) (rs : List (Round fl))
      → r.wake ≡ after_timer
      → rounds_done r (r' ∷ rs) ≡ 1 + rounds_done r' rs
  rounds_done-timer r r' rs timer = rw timer refl

  one_more : (m k n : ℕ) → m + (1 + n) + k * (1 + n) ≡ m + (1 + k) * (1 + n)
  one_more m k n = grind arith

  pub run_rounds-measured :
      (rs : List (Round fl)) (r : Round fl) (c : GslbCore fl) (m : ℕ)
      → IsConfigured c
      → c.serial ≡ m % (2 ^ 32)
      → (run_rounds fl c (r ∷ rs)).0
        ≡ measured c.cfg
            (last_round r rs)
            ((m + rounds_done r rs * (1 + length c.cfg.regions)) % (2 ^ 32))
  unfolding run_rounds
  run_rounds-measured [] r c m h e = elim (Wake-cases r.wake) [
    | inl timer ↦
        rw (timer, run_rounds) (update-measured r c m h e ∙ ap (measured c.cfg r) (omega arith))
    | inr (x, stop) ↦
        rw (stop, run_rounds) (update-measured r c m h e ∙ ap (measured c.cfg r) (omega arith))
  ]
  run_rounds-measured (r' ∷ rs) r c m h e = elim (Wake-cases r.wake) [
    | inl timer ↦
        let n = length c.cfg.regions in
        let first = update-measured r c m h e in
        let rest =
          run_rounds-measured rs r' (measured c.cfg r ((m + (1 + n)) % (2 ^ 32))) (m + (1 + n))
            (measured-IsConfigured c.cfg r _) refl in
        run-timer r (r' ∷ rs) c timer
        ∙ ap (λ d. (run_rounds fl d (r' ∷ rs)).0) first
        ∙ rest
        ∙ ap₂ (λ x k. measured c.cfg x (k % (2 ^ 32))) (sym (last_round-timer r r' rs timer))
            (one_more m (rounds_done r' rs) n
              ∙ ap (λ k. m + k * (1 + n)) (sym (rounds_done-timer r r' rs timer)))
    | inr (x, stop) ↦
        rw (stop, run_rounds) (update-measured r c m h e ∙ ap (measured c.cfg r) (omega arith))
  ]
