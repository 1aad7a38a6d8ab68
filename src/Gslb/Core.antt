-- ===== src/Gslb/Core.antt =====
-- gslb/gslbcore/core.go: the state of the balancer, its updates and `Query`. float64 is a parameter.
-- A function that can index out of range returns an `Option`, and `none` is the panic.
pub mod State
pub mod Query
pub mod Match
pub mod Average
pub mod Least
use Prim.Native.String.{String}
use text.Mathlib.Text.{◌==◌ as str_eq}
use mathlib.Core.Option
use ncdn.Base.{
  u32, ℕ, zero, suc, ◌+◌, Bool, true, false, ◌&&◌, Option, none, some, List, [], ◌∷◌, map, ◌⊎◌, inl,
  inr, ltb, if◌then◌else◌, get_elem?, set, replicate, length,
}
use ncdn.Float.{Float}
use ncdn.Netip.{Addr, Prefix, contains, same_addr}
use ncdn.Types.{PopInfo, RegionInfo, PopStatus}

pub record Config : Type 0 where
  pub pops : List PopInfo
  pub regions : List RegionInfo
  pub prober_secret : String
  pub http_server : String

-- `ProbeOverJSONRPC`, the measurer of a region.
pub record Measurer : Type 0 where
  pub prober_url : String
  pub secret : String

infixl 5 ◌>>=◌
abbrev pub ◌>>=◌ {ℓ κ} : {A : Type ℓ} {B : Type κ} → Option A → (A → Option B) → Option B
none >>= k = none
some a >>= k = k a

-- `PopIdFromIP`, over the configured PoPs.
unfoldable pub pop_id : List PopInfo → Addr → String
pop_id [] ip = "<not found>"
pop_id (p ∷ ps) ip = if same_addr p.ip4 ip then p.id else pop_id ps ip

module _ (fl : Float) where
  open fl use {F, ltf, addf, zerof, default_latency, max_float}

  pub record RegionState : Type 0 where
    pub info : RegionInfo
    pub pop_latency : List F

  pub record GslbCore : Type 0 where
    pub cfg : Config
    pub latency_measurers : List Measurer
    pub popstate : List (PopStatus F)
    pub regions : List RegionState
    pub serial : ℕ

  -- `New`
  unfoldable pub new : Config → GslbCore
  new cfg = record {
    cfg = cfg;
    latency_measurers =
        map (λ r. record { prober_url = r.prober_url; secret = cfg.prober_secret }) cfg.regions;
    popstate =
        replicate (length cfg.pops)
          (record { id = ""; uptime = zerof; load = zerof; error = "not yet available" });
    regions =
        map (λ r. record { info = r; pop_latency = replicate (length cfg.pops) default_latency })
          cfg.regions;
    serial = 0;
  }

  -- A status, or what is kept of an error.
  abbrev pub status_of : PopStatus F ⊎ String → PopStatus F
  status_of (inl ps) = ps
  status_of (inr err) = record { id = ""; uptime = zerof; load = zerof; error = err }

  -- `UpdatePoPStatus`; `fetch` is what `fetchPoPStatus` answers during the call.
  unfoldable pub update_pop_status : (Addr → PopStatus F ⊎ String) → GslbCore → GslbCore
  update_pop_status fetch c = record c {
    popstate = map (λ pop. status_of (fetch pop.ip4)) c.cfg.pops;
    serial = u32 (c.serial + 1);
  }

  abbrev pub latency_of : F ⊎ String → F
  latency_of (inl lat) = lat
  latency_of (inr err) = default_latency

  abbrev pub set_latency : List F → RegionState → RegionState
  set_latency lats r = record r { pop_latency = lats }

  -- `c.regions[i].popLatency = popLatency`; an index out of range, a panic in the source, changes
  -- nothing: `i` counts the measurers, and there is one for each region.
  unfoldable pub set_region : ℕ → List F → List RegionState → List RegionState
  set_region i lats [] = []
  set_region zero lats (r ∷ rs) = set_latency lats r ∷ rs
  set_region (suc i) lats (r ∷ rs) = r ∷ set_region i lats rs

  -- A round of the loop of `UpdateLatency`: what the measurer of region `i` answers for each PoP.
  unfoldable pub update_region : (String → F ⊎ String) → ℕ → GslbCore → GslbCore
  update_region measure i c = record c {
    regions =
        set_region i (map (λ pop. latency_of (measure pop.latency_endpoint_url)) c.cfg.pops)
          c.regions;
    serial = u32 (c.serial + 1);
  }

  unfoldable pub update_regions :
      (Measurer → String → F ⊎ String) → ℕ → List Measurer → GslbCore → GslbCore
  update_regions measure i [] c = c
  update_regions measure i (lm ∷ lms) c =
      update_regions measure (i + 1) lms (update_region (measure lm) i c)

  -- `UpdateLatency`; `measure` is what `MeasureLatency` answers during the call.
  unfoldable pub update_latency : (Measurer → String → F ⊎ String) → GslbCore → GslbCore
  unfolding update_regions
  update_latency measure c = update_regions measure 0 c.latency_measurers c

  unfoldable pub pop_id_from_ip : GslbCore → Addr → String
  unfolding pop_id
  pop_id_from_ip c ip = pop_id c.cfg.pops ip

  -- `latencies[idx] += latency`
  unfoldable pub add_at : List F → ℕ → F → Option (List F)
  add_at [] i l = none
  add_at (x ∷ xs) zero l = some (addf x l ∷ xs)
  add_at (x ∷ xs) (suc i) l = Option.map (◌∷◌ x) (add_at xs i l)

  -- The loop over `region.popLatency`, from `idx` on.
  unfoldable pub add_region : List F → ℕ → List F → Option (List F)
  add_region sums idx [] = some sums
  add_region sums idx (l ∷ ls) = do sums' ← add_at sums idx l; add_region sums' (idx + 1) ls

  -- The loop over the regions.
  unfoldable pub add_regions : List F → List RegionState → Option (List F)
  add_regions sums [] = some sums
  add_regions sums (r ∷ rs) = do sums' ← add_region sums 0 r.pop_latency; add_regions sums' rs

  -- The search for the least latency below `l`, from `idx` on: `best` is the index found so far.
  unfoldable pub least : {I : Type 0} → (ℕ → I) → ℕ → F → I → List F → I
  least found idx l best [] = best
  least found idx l best (x ∷ xs) =
      least found (idx + 1) (if ltf x l then x else l) (if ltf x l then found idx else best) xs

  -- `getMostAveragePop`
  unfoldable pub most_average_pop : GslbCore → Option PopInfo
  unfolding add_regions add_region add_at least
  most_average_pop c = do
    latencies ← add_regions (replicate (length c.cfg.pops) zerof) c.regions
    get_elem? c.cfg.pops (least (λ i. i) 0 max_float 0 latencies)

  -- `bestBits` and `bestRegion`; `none` is -1 with no region. (A prefix that contains an address is
  -- valid, so its bits are above -1.)
  abbrev pub Best : Type 0
  Best = Option (ℕ × RegionState)

  -- `prefix.Bits() > bestBits`
  abbrev pub longer : ℕ → Best → Bool
  longer bits none = true
  longer bits (some (b, _)) = ltb b bits

  unfoldable pub match_prefixes : Addr → RegionState → List Prefix → Best → Best
  match_prefixes ip r [] best = best
  match_prefixes ip r (p ∷ ps) best =
      match_prefixes ip r ps
        (if contains p ip && longer p.bits best then some (p.bits, r) else best)

  unfoldable pub match_regions : Addr → List RegionState → Best → Best
  match_regions ip [] best = best
  match_regions ip (r ∷ rs) best = match_regions ip rs (match_prefixes ip r r.info.prefixes best)

  -- `popIdx`, with `none` for -1.
  unfoldable pub nearest : List F → Option ℕ
  unfolding least
  nearest lats = least some 0 default_latency none lats

  -- `Query`
  unfoldable pub query : GslbCore → Addr → Option (List Addr)
  unfolding match_regions match_prefixes nearest most_average_pop
  query c src_ip = elim (match_regions src_ip c.regions none) [
    | none ↦ average
    | some (_, region) ↦ elim (nearest region.pop_latency) [
      | none ↦ average
      | some i ↦ Option.map (λ pop. pop.ip4 ∷ []) (get_elem? c.cfg.pops i)
    ]
  ]
    where
      average : Option (List Addr)
      average = Option.map (λ pop. pop.ip4 ∷ []) (most_average_pop c)
