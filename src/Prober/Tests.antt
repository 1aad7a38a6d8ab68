-- ===== src/Prober/Tests.antt =====
-- A probe that an authorized client asks for.
use Prim.Native.String.{String}
use ncdn.Base.{◌≡◌, refl, none, some, [], ◌∷◌, inl, ◌⊎◌}
use ncdn.Base.Int.{pos}
use ncdn.Popcache.Http.{Header, get, values}
use ncdn.Types.{ProbeArgs}
use ncdn.Prober.{
  Probing, got_first_response_byte, dns_done, concat, probe, probe_reply, handle_probe,
}
use ncdn.Prober.Access.{handle_probe-authorized}

abbrev probing : Probing
probing = record {
  node_id = "prober";
  now = pos 100;
  new_request_error = λ url. none;
  round_trip = λ url. record {
    traces = dns_done (pos 110) ∷ got_first_response_byte (pos 150) ∷ [];
    response = inl (204, inl "");
  };
  unmarshal_args = λ bs. inl (record { target_url = bs });
  marshal_result = λ r. inl "{}";
}

abbrev header : Header
header = ("Authorization", "Bearer s" ∷ []) ∷ []

probed :
    (handle_probe probing "s" "POST" header (inl "http://192.0.2.1/")).0 ≡ some "http://192.0.2.1/"
unfolding handle_probe get values
probed = refl

handle_probe-authorized_example :
    (◌≡◌ {A = String} "POST" "POST")
    × (get header "Authorization" ≡ concat "Bearer " "s")
    × ((bs : String) × (args : ProbeArgs) × (◌≡◌ {A = String ⊎ String}
          (inl "http://192.0.2.1/")
          (inl bs))
        × (probing.unmarshal_args bs ≡ inl args)
        × (args.target_url ≡ "http://192.0.2.1/"))
    × ((handle_probe probing "s" "POST" header (inl "http://192.0.2.1/")).1
        ≡ probe_reply probing (probe probing "http://192.0.2.1/"))
handle_probe-authorized_example =
    handle_probe-authorized probing "s" "POST" header (inl "http://192.0.2.1/") "http://192.0.2.1/"
      probed
