-- ===== src/Gslb/Http.antt =====
-- The handlers of gslb/gslbcore/httpsrv.go that read the state. `json.Marshal` is a parameter, which
-- gives no text on an error, as for a float that is no number; a map is the list of its entries, a key
-- once. `net/http` recovers from a panic of a handler and drops the connection.
pub mod Latency
use Prim.Native.String.{String}
use text.Mathlib.Text.{◌==◌ as str_eq}
use mathlib.Core.Option
use ncdn.Base.{
  ℕ, zero, suc, ◌+◌, Bool, true, false, Option, none, some, List, [], ◌∷◌, map, if◌then◌else◌,
  get_elem?,
}
use ncdn.Base.Maps.{put}
use ncdn.Float.{Float}
use ncdn.Netip.{Addr, unset}
use ncdn.Types.{PopInfo, RegionInfo}
use ncdn.Gslb.Core.{GslbCore, RegionState, query, pop_id_from_ip, ◌>>=◌}

-- `AnnotatedLookup`
pub record AnnotatedLookup : Type 0 where
  pub ip : Addr
  pub pop_id : String

-- A response: status 400, status 500, the body of a JSON response, or a panic.
pub data Response : Type 0 where
  bad_request : String → Response
  server_error : String → Response
  json : String → Response
  panic : Response

-- The end of a handler, from `json.Marshal` on.
abbrev pub respond : Option String → Response
respond none = server_error "Failed to marshal response"
respond (some bs) = json bs

-- `none` is a panic before `json.Marshal`.
abbrev pub answer_of {ℓ} : {A : Type ℓ} → (A → Option String) → Option A → Response
answer_of marshal none = panic
answer_of marshal (some v) = respond (marshal v)

-- The search for `pop_id` in `/latency_to_pop`, from index `i` on.
unfoldable pub pop_index : String → ℕ → List PopInfo → Option ℕ
pop_index id i [] = none
pop_index id i (p ∷ ps) = if str_eq p.id id then some i else pop_index id (i + 1) ps

module _ (fl : Float) where
  open fl use {F}

  -- `/query`; `parse` is netip.ParseAddr, and an empty `srcip` stands for the zero address.
  unfoldable pub handle_query :
      (List AnnotatedLookup → Option String)
      → (String → Option Addr)
      → GslbCore fl
      → String
      → Response
  handle_query marshal parse c srcip =
      if str_eq srcip ""
      then lookup unset
      else elim (parse srcip) [ none ↦ bad_request "Failed to parse srcip" | some ip ↦ lookup ip ]
    where
      lookup : Addr → Response
      lookup ip = answer_of marshal (
          Option.map (map (λ a. record { ip = a; pop_id = pop_id_from_ip fl c a })) (query fl c ip))

  -- The loop over `c.regions`: `latencyMap[c.cfg.Regions[i].Id] = r.popLatency[popIdx]`.
  unfoldable pub region_latencies :
      List RegionInfo → List (RegionState fl) → ℕ → List (String × F) → Option (List (String × F))
  region_latencies infos [] idx m = some m
  region_latencies [] (r ∷ rs) idx m = none
  region_latencies (i ∷ is) (r ∷ rs) idx m = do
    l ← get_elem? r.pop_latency idx
    region_latencies is rs idx (put i.id l m)

  -- `/latency_to_pop`
  unfoldable pub latency_to_pop :
      (List (String × F) → Option String) → GslbCore fl → String → Response
  latency_to_pop marshal c id = elim (pop_index id 0 c.cfg.pops) [
    | none ↦ bad_request "Invalid pop_id"
    | some idx ↦ answer_of marshal (region_latencies c.cfg.regions c.regions idx [])
  ]

  -- `popLatency` of `/latency_to_region`: the latencies of the first region with the id, or nil.
  unfoldable pub latencies_of : String → List (RegionState fl) → List F
  latencies_of id [] = []
  latencies_of id (r ∷ rs) = if str_eq r.info.id id then r.pop_latency else latencies_of id rs

  -- The loop over the PoPs: `latencyMap[pop.Id] = popLatency[i]`.
  unfoldable pub pop_latencies :
      List PopInfo → ℕ → List F → List (String × F) → Option (List (String × F))
  pop_latencies [] i lats m = some m
  pop_latencies (p ∷ ps) i lats m = do
    l ← get_elem? lats i
    pop_latencies ps (i + 1) lats (put p.id l m)

  -- `/latency_to_region`
  unfoldable pub latency_to_region :
      (List (String × F) → Option String) → GslbCore fl → String → Response
  latency_to_region marshal c id =
      answer_of marshal (pop_latencies c.cfg.pops 0 (latencies_of id c.regions) [])
