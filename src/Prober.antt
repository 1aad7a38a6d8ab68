-- ===== src/Prober.antt =====
-- prober/main.go. The network is a parameter that tells what the trace callbacks saw and when; so are
-- encoding/json and the clock.
pub mod Access
mod Tests
use Prim.Native.String.{String}
use Prim.Native.String
use text.Mathlib.Text.{◌==◌ as str_eq}
use ncdn.Base.{
  ℕ, Bool, true, false, not, Option, none, some, List, [], ◌∷◌, ◌⊎◌, inl, inr, if◌then◌else◌,
}
use ncdn.Base.Int.{ℤ, pos}
use ncdn.Popcache.Http.{Header, Object, get, set}
use ncdn.Types.{ProbeArgs, ProbeResult}

abbrev pub concat : String → String → String
concat = String.◌++◌

-- A callback of `httptrace.ClientTrace` with the time.
pub data Trace : Type 0 where
  dns_done : ℤ → Trace
  got_conn : ℤ → Trace
  wrote_request : ℤ → Trace
  got_first_response_byte : ℤ → Trace

-- A round trip: the callbacks in their order, and the status with the body as it is read, or the
-- error.
pub record Trip : Type 0 where
  pub traces : List Trace
  pub response : (ℕ × (String ⊎ String)) ⊎ String

-- The calls of packages: `time.Now` when the probe starts, `http.NewRequest`, the transport, and JSON.
pub record Probing : Type 0 where
  pub node_id : String
  pub now : ℤ
  pub new_request_error : String → Option String
  pub round_trip : String → Trip
  pub unmarshal_args : String → ProbeArgs ⊎ String
  pub marshal_result : ProbeResult → String ⊎ String

-- A callback.
abbrev pub on_trace : ProbeResult → Trace → ProbeResult
on_trace r (dns_done t) = record r { dns_end = t }
on_trace r (got_conn t) = record r { connect_end = t }
on_trace r (wrote_request t) = record r { request_end = t }
on_trace r (got_first_response_byte t) = record r { first_byte = t }

unfoldable pub on_traces : ProbeResult → List Trace → ProbeResult
on_traces r [] = r
on_traces r (t ∷ ts) = on_traces (on_trace r t) ts

module _ (p : Probing) where
  abbrev pub started : String → ProbeResult
  started url = record {
    prober_node_id = p.node_id;
    url = url;
    start = p.now;
    dns_end = pos 0;
    connect_end = pos 0;
    request_end = pos 0;
    first_byte = pos 0;
    response_end = pos 0;
    response_code = 0;
  }

  -- `probe` after the round trip.
  unfoldable pub finish :
      String → ProbeResult → (ℕ × (String ⊎ String)) ⊎ String → ProbeResult ⊎ String
  finish url r (inr e) = inr (concat "Failed to Get " (concat url (concat ": " e)))
  finish url r (inl (code, inr e)) = inr (concat "Failed to read response body: " e)
  finish url r (inl (code, inl body)) = inl (record r { response_code = code })

  -- `probe`
  unfoldable pub probe : String → ProbeResult ⊎ String
  probe url = elim (p.new_request_error url) [
    | some e ↦ inr (concat "Failed to create http.Request: " e)
    | none ↦
        let trip = p.round_trip url in
        finish url (on_traces (started url) trip.traces) trip.response
  ]

  abbrev pub plain : ℕ → String → Object
  plain code body = record { status_code = code; header = []; body = body }

  -- The reply to what `probe` returned.
  unfoldable pub probe_reply : ProbeResult ⊎ String → Object
  probe_reply (inr e) = plain 500 e
  probe_reply (inl r) = elim (p.marshal_result r) [
    | inr e ↦ plain 500 "Failed to marshal JSON response"
    | inl bs ↦ record {
      status_code = 200;
      header = set [] "Content-Type" "application/json";
      body = bs;
    }
  ]

  -- The handler of "/probe" for a method, a header and a body as it is read: the URL that is probed, if
  -- one is, and the reply.
  unfoldable pub handle_probe : String → String → Header → String ⊎ String → Option String × Object
  handle_probe secret_token method header body =
      if not (str_eq method "POST")
      then (none, plain 405 "POST only")
      else if not (str_eq (get header "Authorization") (concat "Bearer " secret_token))
      then (none, plain 401 "Unauthorized")
      else elim body [
        | inr e ↦ (none, plain 500 "Failed to read request body")
        | inl bs ↦ elim (p.unmarshal_args bs) [
          | inr e ↦ (none, plain 400 "Failed to parse JSON data")
          | inl args ↦ (some args.target_url, probe_reply (probe args.target_url))
        ]
      ]

-- The handler of "/".
abbrev pub handle_root : Object
handle_root = record { status_code = 200; header = []; body = "hi!" }
