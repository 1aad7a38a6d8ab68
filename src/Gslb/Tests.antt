-- ===== src/Gslb/Tests.antt =====
-- A balancer with two PoPs and one region, and the theorems of gslb at it. The latencies are in
-- milliseconds.
use Prim.Native.String.{String}
use text.Mathlib.Text.{◌==◌ as str_eq}
use ncdn.Base.{
  ℕ, zero, suc, ◌+◌, ◌≡◌, refl, true, none, some, List, [], ◌∷◌, inl, inr, arith, ltb,
  if◌then◌else◌, get_elem?, ◌==◌, Option, ◌⊎◌,
}
use ncdn.Base.Maps.{find_entry}
use ncdn.Float.{Float, IsOrdered}
use ncdn.Netip.{Addr, v4, contains, as4, bytes4, unmap}
use ncdn.Types.{PopInfo, RegionInfo, PopStatus}
use ncdn.Gslb.Core.{Config, GslbCore, RegionState, new, update_pop_status, update_region, query}
use ncdn.Gslb.Core.State.{IsValid, status, latency, here, next, Reach-IsValid}
use ncdn.Gslb.Core.Query.{Answered, IsAnswer, query_lem}
use ncdn.Gslb.Run.{Round, after_timer, on_done, canceled, quiet, spawn_http_server, run}
use ncdn.Gslb.Run.Measured.{measured}
use ncdn.Gslb.Run.Answers.{run-Answered}
use ncdn.Gslb.Http.{json, server_error, latency_to_region}
use ncdn.Gslb.Http.Latency.{LastAt, latency_to_region_lem}
use ncdn.Gslb.Handler.{
  Names, Question, a, wrote, ttl, type_a, type_soa, rcode_success, Gslb, new_gslb, source_ip,
  serve_dns,
}
use ncdn.Gslb.Handler.Sound.{Sound, serve_dns-Sound}
use ncdn.Gslb.Handler.Records.{AllIpv4, serve_dns-www}

-- Whole numbers in place of float64.
abbrev milliseconds : Float
milliseconds = record {
  F = ℕ;
  ltf = ltb;
  addf = ◌+◌;
  zerof = 0;
  default_latency = 20000000;
  max_float = 1000000000000;
}

milliseconds-IsOrdered : IsOrdered milliseconds
milliseconds-IsOrdered = record {
  lt_irrefl = λ a. ground arith;
  lt_trans = λ a b c h k. ground arith;
}

abbrev tokyo : PopInfo
tokyo = record {
  id = "tokyo";
  ip4 = v4 0xc633_6401;
  latency_endpoint_url = "http://198.51.100.1/latencyz";
  ui_popup_css = "";
}

abbrev osaka : PopInfo
osaka = record {
  id = "osaka";
  ip4 = v4 0xc633_6402;
  latency_endpoint_url = "http://198.51.100.2/latencyz";
  ui_popup_css = "";
}

abbrev kansai : RegionInfo
kansai = record {
  id = "kansai";
  prefixes = record { addr = v4 0xcb00_7100; bits = 24 } ∷ [];
  prober_url = "http://203.0.113.9/";
  ui_popup_css = "";
}

abbrev config : Config
config = record {
  pops = tokyo ∷ osaka ∷ [];
  regions = kansai ∷ [];
  prober_secret = "secret";
  http_server = ":8053";
}

abbrev up : PopStatus ℕ
up = record { id = "tokyo"; uptime = 60; load = 3; error = "" }

abbrev kansai_state : RegionState milliseconds
kansai_state = record { info = kansai; pop_latency = 12 ∷ 3 ∷ [] }

-- A state after some rounds.
abbrev core : GslbCore milliseconds
core = record {
  cfg = config;
  latency_measurers = record { prober_url = "http://203.0.113.9/"; secret = "secret" } ∷ [];
  popstate = up ∷ up ∷ [];
  regions = kansai_state ∷ [];
  serial = 2;
}

core-IsValid : IsValid milliseconds core
core-IsValid = record { statuses = refl; measurers = refl; fits = (refl, refl, tt) }

abbrev client : Addr
client = v4 0xcb00_7105

near_client : query milliseconds core client ≡ some (osaka.ip4 ∷ [])
unfolding query contains
near_client = refl

query_lem_example : Answered milliseconds milliseconds-IsOrdered core client
query_lem_example =
    query_lem milliseconds milliseconds-IsOrdered core client core-IsValid (omega arith)

Reach-IsValid_example : IsValid milliseconds (
    update_region milliseconds
      (λ _. inl 7)
      0
      (update_pop_status milliseconds (λ _. inl up) (new milliseconds config)))
Reach-IsValid_example =
    Reach-IsValid milliseconds config
      (next (next here (status (λ _. inl up))) (latency (λ _. inl 7) 0))

-- The float64 that has no JSON is 13 here.
abbrev marshal : List (String × ℕ) → Option String
marshal [] = some "{}"
marshal ((_, l) ∷ m) = if l == 13 then none else marshal m

latency_to_region_lem_example :
    (m : List (String × ℕ)) × (((bs : String) × (marshal m ≡ some bs)
        × (latency_to_region milliseconds marshal core "kansai" ≡ json bs))
      ⊎ ((marshal m ≡ none)
          × (latency_to_region milliseconds marshal core "kansai"
              ≡ server_error "Failed to marshal response")))
    × ((k : ℕ) (p : PopInfo)
        → LastAt k p core.cfg.pops
        → find_entry p.id m ≡ get_elem? kansai_state.pop_latency k)
latency_to_region_lem_example =
    latency_to_region_lem milliseconds marshal core "kansai" kansai_state core-IsValid
      (inl (refl, refl))

-- Two rounds: the second one measures, and then the context is cancelled.
abbrev unreachable : Round milliseconds
unreachable = record {
  fetch = λ ip. inr "no route to host";
  measure = λ m url. inr "no route to host";
  wake = after_timer;
}

abbrev reached : Round milliseconds
reached = record {
  fetch = λ ip. inl up;
  measure = λ m url. inl (if str_eq url "http://198.51.100.2/latencyz" then 3 else 12);
  wake = on_done canceled;
}

no_error : spawn_http_server quiet ≡ none
unfolding spawn_http_server
no_error = refl

run-Answered_example :
    ((run milliseconds (new milliseconds config) quiet (unreachable ∷ reached ∷ [])).0
      ≡ measured milliseconds config reached 4)
    × Answered milliseconds milliseconds-IsOrdered (measured milliseconds config reached 4) client
run-Answered_example =
    run-Answered milliseconds milliseconds-IsOrdered config quiet unreachable (reached ∷ []) client
      no_error (omega arith)

-- The labels of names under cdn.example.
abbrev names : Names
names = record {
  count_label = λ _. 3;
  compare_domain_name = λ s t. if str_eq s t then 3 else 2;
  to_lower = λ s. s;
}

abbrev plugin : Gslb milliseconds
plugin = new_gslb milliseconds core "cdn.example." (192 ∷ 0 ∷ 2 ∷ 53 ∷ [])

abbrev question : Question
question = record {
  qname = "www.cdn.example.";
  qtype = type_a;
  remote_ip = some client;
  edns0 = none;
}

both-AllIpv4 : AllIpv4 core
unfolding as4 bytes4
both-AllIpv4 zero pop e = let same : pop ≡ tokyo = cc in (198 ∷ 51 ∷ 100 ∷ 1 ∷ [], rw same refl)
both-AllIpv4 (suc zero) pop e =
    let same : pop ≡ osaka = cc in (198 ∷ 51 ∷ 100 ∷ 2 ∷ [], rw same refl)
both-AllIpv4 (suc (suc i)) pop e = absurd (cc)

serve_dns-www_example :
    (i : ℕ) × (pop : PopInfo) × (bytes : List ℕ) × (get_elem? core.cfg.pops i ≡ some pop)
    × (as4 pop.ip4 ≡ some bytes)
    × IsAnswer milliseconds milliseconds-IsOrdered core (unmap client) i
    × (serve_dns milliseconds names plugin question
        ≡ wrote
            (record {
              rcode = rcode_success;
              authoritative = true;
              answer = a question.qname ttl bytes ∷ [];
              authority = [];
            })
            rcode_success)
unfolding source_ip
serve_dns-www_example =
    serve_dns-www milliseconds milliseconds-IsOrdered names plugin question "www." "cdn.example."
      client core-IsValid (omega arith) both-AllIpv4 refl refl refl (λ e. cc) refl refl

serve_dns-Sound_example :
    Sound milliseconds plugin
      (record question { qtype = type_soa })
      (serve_dns milliseconds names plugin (record question { qtype = type_soa }))
serve_dns-Sound_example =
    serve_dns-Sound milliseconds plugin (record question { qtype = type_soa })
      milliseconds-IsOrdered core-IsValid (omega arith) names
