-- ===== src/Gslb/Rpc/Probe.antt =====
-- A measurement of gslb that is answered by the handler of the prober.
use Prim.Native.String.{String}
use text.Mathlib.Text.{◌==◌ as str_eq}
use text.Mathlib.TextEquality.{eq_iff}
use text.Mathlib.TextLemmas.{append_cancel_left}
use ncdn.Base.{◌≡◌, ◌≢◌, if◌then◌else◌, refl, ap, ◌∙◌, Bool-cases, false, none, [], inl, inr}
use ncdn.Popcache.Http.{get, set, values}
use ncdn.Types.{ProbeArgs, ProbeResult}
use ncdn.Prober.{Probing, concat, probe, probe_reply, handle_probe}
use ncdn.Gslb.Core.{Measurer}
use ncdn.Gslb.Rpc.{
  ClientRequest, ClientResponse, Rpc, body_of, send, probe_request, latency_of, measure,
  measure_latency,
}

-- The handler's answer to a request of the client.
abbrev pub answer : Probing → String → ClientRequest → ClientResponse
answer p secret req =
    let obj = (handle_probe p secret req.method req.header (inl req.body)).1 in
    record { status_code = obj.status_code; body = inl obj.body }

-- JSON of both sides: what is marshalled by the one is unmarshalled by the other, for arguments and
-- for the result `r`, and the text that refuses a request is not JSON.
pub record IsJson {F : Type 0} (c : Rpc F) (p : Probing) (r : ProbeResult) : Type 0 where
  pub args :
      (a : ProbeArgs) → (bs : String) × (c.marshal_args a ≡ inl bs) × (p.unmarshal_args bs ≡ inl a)
  pub result : (bs : String) × (p.marshal_result r ≡ inl bs) × (c.unmarshal_result bs ≡ inl r)
  pub refused : (e : String) × (c.unmarshal_result "Unauthorized" ≡ inr e)

differ_tokens : (a b : String) → a ≢ b → str_eq (concat "Bearer " a) (concat "Bearer " b) ≡ false
differ_tokens a b differ = elim (Bool-cases (str_eq (concat "Bearer " a) (concat "Bearer " b))) [
  | inl same ↦ absurd (
      differ (
        append_cancel_left "Bearer " a b
          ((eq_iff (concat "Bearer " a) (concat "Bearer " b)).0 same)))
  | inr other ↦ other
]

module _ {F : Type 0} (c : Rpc F) (p : Probing) where
  get-bearer :
      (secret : String)
      → get
          (set (set [] "Content-Type" "application/json") "Authorization" (concat "Bearer " secret))
          "Authorization"
        ≡ concat "Bearer " secret
  unfolding get set values
  get-bearer secret = refl

  handle_probe-bearer :
      (m : Measurer) (secret bs url : String)
      → p.unmarshal_args bs ≡ inl (record { target_url = url })
      → (answer p secret (probe_request c m bs)).body
        ≡ inl (
            if str_eq (concat "Bearer " m.secret) (concat "Bearer " secret)
            then (probe_reply p (probe p url)).body
            else "Unauthorized")
  unfolding handle_probe
  handle_probe-bearer m secret bs url decoded =
      elim (Bool-cases (str_eq (concat "Bearer " m.secret) (concat "Bearer " secret))) [
        | inl same ↦ rw (get-bearer m.secret, same, decoded, handle_probe) refl
        | inr other ↦ rw (get-bearer m.secret, other, handle_probe) refl
      ]

  -- The text that comes back to the client.
  send-answer :
      (m : Measurer) (secret bs url text : String)
      → c.new_request_error m.prober_url ≡ none
      → c.do_request (probe_request c m bs) ≡ inl (answer p secret (probe_request c m bs))
      → (answer p secret (probe_request c m bs)).body ≡ inl text
      → send c (probe_request c m bs) ≡ inl text
  unfolding send body_of
  send-answer m secret bs url text fine called answered =
      rw (fine, called, answered, send, body_of) refl

  -- When the arguments and the result of the probe are read back from JSON as they were written,
  -- "Unauthorized" is no JSON of a result, the URL of the prober makes a
  -- request, and requests to it are answered by the handler, whose probe of a URL succeeds: a
  -- measurement with the prober's secret returns the time from the start of the probe to the first
  -- byte, and one with another secret returns an error.
  pub measure_latency-probe :
      (m : Measurer) (secret url : String) (r : ProbeResult)
      → IsJson c p r
      → c.new_request_error m.prober_url ≡ none
      → ((req : ClientRequest)
          → req.url ≡ m.prober_url
          → c.do_request req ≡ inl (answer p secret req))
      → probe p url ≡ inl r
      → (m.secret ≡ secret → measure_latency c m url ≡ inl (latency_of c r))
        × (m.secret ≢ secret → (e : String) × (measure_latency c m url ≡ inr e))
  unfolding measure_latency measure probe_reply
  measure_latency-probe m secret url r json fine wire probed =
      let (bs, sent, decoded) = json.args (record { target_url = url }) in
      let (out, made, read) = json.result in
      let (e, refused) = json.refused in
      let called = wire (probe_request c m bs) refl in
      let answered = handle_probe-bearer m secret bs url decoded in
      let tokens = eq_iff (concat "Bearer " m.secret) (concat "Bearer " secret) in
      (
        (λ same.
            let equal = tokens.1 (ap (concat "Bearer ") same) in
            let back =
              send-answer m secret bs url out fine called
                (answered ∙ (rw (equal, probed, made, probe_reply) refl)) in
            rw (sent, back, read, measure_latency, measure) refl),
        (λ differ.
            let unequal : str_eq (concat "Bearer " m.secret) (concat "Bearer " secret) ≡ false =
              differ_tokens m.secret secret differ in
            let back =
              send-answer m secret bs url "Unauthorized" fine called
                (answered ∙ (rw (unequal) refl)) in
            rw (sent, back, refused, measure_latency, measure) (_, refl)),
      )
