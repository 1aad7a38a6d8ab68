-- ===== src/Gslb/Rpc/Tests.antt =====
-- A measurement that a prober answers.
use Prim.Native.String.{String}
use text.Mathlib.Text.{◌==◌ as str_eq}
use ncdn.Base.{◌≡◌, ◌≢◌, refl, none, [], ◌∷◌, inl, inr, if◌then◌else◌}
use ncdn.Base.Int.{ℤ, pos}
use ncdn.Types.{ProbeResult}
use ncdn.Prober.{Probing, got_first_response_byte, probe, on_traces, finish}
use ncdn.Gslb.Core.{Measurer}
use ncdn.Gslb.Rpc.{Rpc, measure_latency, latency_of}
use ncdn.Gslb.Rpc.Probe.{IsJson, answer, measure_latency-probe}

abbrev result : ProbeResult
result = record {
  prober_node_id = "prober";
  url = "http://192.0.2.1/";
  start = pos 100;
  dns_end = pos 0;
  connect_end = pos 0;
  request_end = pos 0;
  first_byte = pos 150;
  response_end = pos 0;
  response_code = 204;
}

abbrev probing : Probing
probing = record {
  node_id = "prober";
  now = pos 100;
  new_request_error = λ url. none;
  round_trip = λ url. record {
    traces = got_first_response_byte (pos 150) ∷ [];
    response = inl (204, inl "");
  };
  unmarshal_args = λ bs. inl (record { target_url = bs });
  marshal_result = λ r. inl "{}";
}

abbrev measurer : Measurer
measurer = record { prober_url = "http://198.51.100.1:8823/probe"; secret = "s" }

-- Times stay whole numbers.
abbrev rpc : Rpc ℤ
rpc = record {
  new_request_error = λ url. none;
  do_request = λ req. inl (answer probing "s" req);
  addr_text = λ a. "192.0.2.1";
  unmarshal_status = λ bs. inr "no status";
  marshal_args = λ a. inl a.target_url;
  unmarshal_result = λ bs. if str_eq bs "{}" then inl result else inr "bad";
  in_millis = λ n. n;
}

rpc-IsJson : IsJson rpc probing result
rpc-IsJson = record {
  args = λ a. (a.target_url, refl, refl);
  result = ("{}", refl, refl);
  refused = ("bad", refl);
}

probed : probe probing "http://192.0.2.1/" ≡ inl result
unfolding probe on_traces finish
probed = refl

measure_latency-probe_example :
    (◌≡◌ {A = String} "s" "s"
      → measure_latency rpc measurer "http://192.0.2.1/" ≡ inl (latency_of rpc result))
    × (◌≢◌ {A = String} "s" "s"
        → (e : String) × (measure_latency rpc measurer "http://192.0.2.1/" ≡ inr e))
measure_latency-probe_example =
    measure_latency-probe rpc probing measurer "s" "http://192.0.2.1/" result rpc-IsJson refl
      (λ req same. refl) probed
