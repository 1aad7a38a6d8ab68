-- ===== src/Gslb/Rpc.antt =====
-- gslbcore/httprpc.go: the calls that fill `fetchPoPStatus` and `MeasureLatency`. The HTTP client,
-- encoding/json, `netip.Addr.String` and the conversion to float64 are parameters.
pub mod Probe
mod Tests
use Prim.Native.String.{String}
use ncdn.Base.{ℕ, Option, none, some, List, [], ◌∷◌, ◌⊎◌, inl, inr}
use ncdn.Base.Int.{ℤ, ◌-ℤ◌, wrap64}
use ncdn.Netip.{Addr}
use ncdn.Popcache.Http.{Header, set}
use ncdn.Types.{PopStatus, ProbeArgs, ProbeResult}
use ncdn.Prober.{concat}
use ncdn.Gslb.Core.{Measurer}

-- A request as `http.NewRequest` makes it.
pub record ClientRequest : Type 0 where
  pub method : String
  pub url : String
  pub header : Header
  pub body : String

-- A response: its status, and its body as it is read.
pub record ClientResponse : Type 0 where
  pub status_code : ℕ
  pub body : String ⊎ String

-- The calls of packages; `F` is float64.
pub record Rpc (F : Type 0) : Type 0 where
  pub new_request_error : String → Option String
  pub do_request : ClientRequest → ClientResponse ⊎ String
  pub addr_text : Addr → String
  pub unmarshal_status : String → PopStatus F ⊎ String
  pub marshal_args : ProbeArgs → String ⊎ String
  pub unmarshal_result : String → ProbeResult ⊎ String
  -- `float64(n) / 1e6`
  pub in_millis : ℤ → F

module _ {F : Type 0} (c : Rpc F) where
  -- What both functions do with the answer to a request: the body, whatever the status is.
  unfoldable pub body_of : ClientResponse ⊎ String → String ⊎ String
  body_of (inr e) = inr e
  body_of (inl resp) = elim resp.body [
    | inr e ↦ inr (concat "Failed to read response body: " e)
    | inl bs ↦ inl bs
  ]

  -- `http.NewRequest`, the headers, and the call.
  unfoldable pub send : ClientRequest → String ⊎ String
  send req = elim (c.new_request_error req.url) [
    | some e ↦ inr e
    | none ↦ body_of (c.do_request req)
  ]

  -- `FetchPoPStatusOverHTTP`
  unfoldable pub fetch_pop_status_over_http : Addr → PopStatus F ⊎ String
  fetch_pop_status_over_http ip =
      let url = concat "http://" (concat (c.addr_text ip) ":8889/statusz") in
      elim (send (record { method = "GET"; url = url; header = []; body = "" })) [
        | inr e ↦ inr e
        | inl bs ↦ c.unmarshal_status bs
      ]

  abbrev pub probe_request : Measurer → String → ClientRequest
  probe_request p bs = record {
    method = "POST";
    url = p.prober_url;
    header =
        set (set [] "Content-Type" "application/json") "Authorization" (concat "Bearer " p.secret);
    body = bs;
  }

  -- What is computed from a probe's result.
  abbrev pub latency_of : ProbeResult → F
  latency_of r = c.in_millis (wrap64 (r.first_byte -ℤ r.start))

  -- `MeasureLatency` once the arguments are marshalled.
  unfoldable pub measure : Measurer → String → F ⊎ String
  measure p bs = elim (send (probe_request p bs)) [
    | inr e ↦ inr e
    | inl resp_bs ↦ elim (c.unmarshal_result resp_bs) [
      | inr e ↦ inr (concat "Failed to unmarshal ProbeResult: " e)
      | inl res ↦ inl (latency_of res)
    ]
  ]

  -- `MeasureLatency`
  unfoldable pub measure_latency : Measurer → String → F ⊎ String
  measure_latency p url = elim (c.marshal_args (record { target_url = url })) [
    | inr e ↦ inr (concat "Failed to marshal ProbeArgs: " e)
    | inl bs ↦ measure p bs
  ]
