-- ===== src/Gslb/Plugin/Tests.antt =====
-- A Corefile of one PoP and one region, and the answer of its plugin.
use Prim.Native.String.{String}
use text.Mathlib.Text.{◌==◌ as str_eq}
use ncdn.Base.{
  ℕ, ◌≡◌, refl, zero, suc, Bool, true, false, none, some, List, [], ◌∷◌, arith, get_elem?, ltb, ◌+◌,
  if◌then◌else◌, inl,
}
use ncdn.Float.{Float, IsOrdered}
use ncdn.Netip.{v4, as4, bytes4, unmap}
use ncdn.Types.{PopInfo}
use ncdn.Gslb.Core.{Config, new}
use ncdn.Gslb.Core.Query.{IsAnswer}
use ncdn.Gslb.Handler.{
  Names, Question, Gslb, a, wrote, ttl, type_a, rcode_success, source_ip, serve_dns,
}
use ncdn.Gslb.Handler.Records.{AllIpv4}
use ncdn.Gslb.Run.{Round, after_timer, quiet, spawn_http_server}
use ncdn.Gslb.Run.Measured.{measured}
use ncdn.Gslb.Setup.{Controller, Parsers, done, setup}
use ncdn.Gslb.Plugin.{serving, add_plugin}
use ncdn.Gslb.Plugin.Www.{add_plugin-www}

-- A token, and whether it is the first of its line.
abbrev Token : Type 0
Token = String × Bool

abbrev current_text : List Token → String
current_text [] = ""
current_text ((t, _) ∷ _) = t

abbrev rest : List Token → List Token
rest [] = []
rest (_ ∷ ts) = ts

abbrev next : List Token → List Token × Bool
next [] = ([], false)
next (t ∷ []) = (t ∷ [], false)
next (t ∷ u ∷ ts) = (u ∷ ts, true)

-- An argument stands on the line of the token before it.
abbrev next_arg : List Token → List Token × Bool
next_arg [] = ([], false)
next_arg (t ∷ []) = (t ∷ [], false)
next_arg (t ∷ (u, first) ∷ ts) =
    if first then (t ∷ (u, first) ∷ ts, false) else ((u, first) ∷ ts, true)

abbrev corefile : Controller
corefile = record {
  Cursor = List Token;
  next = next;
  next_arg = next_arg;
  next_block = λ ts. if str_eq (current_text (rest ts)) "}" then (rest ts, false) else next ts;
  val = current_text;
}

abbrev file : List Token
file =
    ("", true)
    ∷ ("ncdn_gslb", true)
    ∷ ("pop", true)
    ∷ ("tokyo", false)
    ∷ ("{", false)
    ∷ ("ip4", true)
    ∷ ("198.51.100.1", false)
    ∷ ("}", true)
    ∷ ("ns_a_addr", true)
    ∷ ("192.0.2.53", false)
    ∷ ("}", true)
    ∷ []

abbrev parsers : Parsers
parsers = record {
  parse_addr = λ s. some (v4 0xc633_6401);
  resolve = λ s. none;
  parse_prefix = λ s. none;
  parse_ip = λ s. some (v4 0xc000_0235);
}

abbrev tokyo : PopInfo
tokyo = record { id = "tokyo"; ip4 = v4 0xc633_6401; latency_endpoint_url = ""; ui_popup_css = "" }

abbrev config : Config
config = record { pops = tokyo ∷ []; regions = []; prober_secret = ""; http_server = "" }

accepted :
    setup corefile parsers 20 ("cdn.example." ∷ []) file
    ≡ done ("cdn.example.", config, v4 0xc000_0235)
unfolding setup
accepted = refl

-- Whole numbers in place of float64.
abbrev milliseconds : Float
milliseconds = record {
  F = ℕ;
  ltf = ltb;
  addf = ◌+◌;
  zerof = 0;
  default_latency = 20000000;
  max_float = 1000000000000;
}

milliseconds-IsOrdered : IsOrdered milliseconds
milliseconds-IsOrdered = record {
  lt_irrefl = λ a. ground arith;
  lt_trans = λ a b c h k. ground arith;
}

abbrev round : Round milliseconds
round = record {
  fetch = λ ip. inl (record { id = "tokyo"; uptime = 60; load = 3; error = "" });
  measure = λ m url. inl 12;
  wake = after_timer;
}

abbrev names : Names
names = record {
  count_label = λ _. 3;
  compare_domain_name = λ s t. if str_eq s t then 3 else 2;
  to_lower = λ s. s;
}

abbrev question : Question
question = record {
  qname = "www.cdn.example.";
  qtype = type_a;
  remote_ip = some (v4 0xcb00_7105);
  edns0 = none;
}

tokyo-AllIpv4 : AllIpv4 (new milliseconds config)
unfolding new as4 bytes4
tokyo-AllIpv4 zero pop e = let same : pop ≡ tokyo = cc in (198 ∷ 51 ∷ 100 ∷ 1 ∷ [], rw same refl)
tokyo-AllIpv4 (suc i) pop e = absurd (cc)

no_error : spawn_http_server quiet ≡ none
unfolding spawn_http_server
no_error = refl

add_plugin-www_example :
    (plugin : Gslb milliseconds) × (add_plugin milliseconds
        (λ ip. 192 ∷ 0 ∷ 2 ∷ 53 ∷ [])
        (setup corefile parsers 20 ("cdn.example." ∷ []) file)
        quiet
        (round ∷ [])
      ≡ some (serving plugin))
    × (i : ℕ) × (pop : PopInfo) × (bytes : List ℕ) × (get_elem? config.pops i ≡ some pop)
    × (as4 pop.ip4 ≡ some bytes)
    × IsAnswer milliseconds milliseconds-IsOrdered
        (measured milliseconds config round 1)
        (unmap (v4 0xcb00_7105))
        i
    × (serve_dns milliseconds names plugin question
        ≡ wrote
            (record {
              rcode = rcode_success;
              authoritative = true;
              answer = a question.qname ttl bytes ∷ [];
              authority = [];
            })
            rcode_success)
unfolding source_ip
add_plugin-www_example =
    add_plugin-www milliseconds milliseconds-IsOrdered corefile parsers 20 ("cdn.example." ∷ [])
      file (λ ip. 192 ∷ 0 ∷ 2 ∷ 53 ∷ []) "cdn.example." config (v4 0xc000_0235) quiet round [] names
      question "www." "cdn.example." (v4 0xcb00_7105) accepted no_error (refl, tt) (omega arith)
      tokyo-AllIpv4 refl refl refl (λ e. cc) refl refl refl
