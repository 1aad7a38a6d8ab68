-- ===== src/Gslb/Plugin/Www.antt =====
-- From a Corefile to the answer of a question for www.
use Prim.Native.String.{String, slice, len}
use Prim.Native.String
use ncdn.Base.{
  ℕ, ◌+◌, ◌-◌, ◌*◌, ◌%◌, ◌^◌, ◌<◌, ◌≡◌, ◌≢◌, refl, ap, ap₂, ◌∙◌, true, none, some, List, [], ◌∷◌,
  length, get_elem?, All,
}
use ncdn.Float.{Float, IsOrdered}
use ncdn.Netip.{Addr, as4, unmap}
use ncdn.Types.{PopInfo}
use ncdn.Gslb.Core.{Config, GslbCore, new}
use ncdn.Gslb.Core.Query.{IsAnswer}
use ncdn.Gslb.Handler.{
  Names, Question, a, wrote, ttl, type_a, rcode_success, Gslb, new_gslb, source_ip, serve_dns,
}
use ncdn.Gslb.Handler.Records.{AllIpv4, serve_dns-www}
use ncdn.Gslb.Run.{Round, Listening, still_running, after_timer, spawn_http_server, run_rounds, run}
use ncdn.Gslb.Run.Measured.{measured, last_round, rounds_done}
use ncdn.Gslb.Run.Answers.{run-rounds, measured-IsValid, run-Answered}
use ncdn.Gslb.Setup.{Controller, Parsers, setup, done}
use ncdn.Gslb.Plugin.{serving, process_of, add_plugin}

module _ (fl : Float) (o : IsOrdered fl) where
  -- No round is the last one.
  abbrev pub NeverDone : List (Round fl) → Type 0
  NeverDone = All (λ r. r.wake ≡ after_timer)

  run_rounds-still_running :
      (rs : List (Round fl)) (c : GslbCore fl)
      → NeverDone rs
      → (run_rounds fl c rs).1 ≡ still_running
  unfolding run_rounds
  run_rounds-still_running [] c h = refl
  run_rounds-still_running (r ∷ rs) c (timer, h) =
      rw (timer, run_rounds) (run_rounds-still_running rs _ h)

  -- The plugin after its rounds.
  abbrev pub plugin_after : Config → String → List ℕ → Round fl → List (Round fl) → Gslb fl
  plugin_after cfg zone ns_a r rs =
      new_gslb fl
        (measured fl cfg (last_round fl r rs)
          ((rounds_done fl r rs * (1 + length cfg.regions)) % (2 ^ 32)))
        zone ns_a

  add_plugin-serving :
      (c : Controller) (p : Parsers) (fuel : ℕ) (origins : List String) (s : c.Cursor)
      (ip_bytes : Addr → List ℕ) (zone : String) (cfg : Config) (ns_a : Addr)
      (listening : Listening) (r : Round fl) (rs : List (Round fl))
      → setup c p fuel origins s ≡ done (zone, cfg, ns_a)
      → spawn_http_server listening ≡ none
      → NeverDone (r ∷ rs)
      → 0 < length cfg.pops
      → add_plugin fl ip_bytes (setup c p fuel origins s) listening (r ∷ rs)
        ≡ some (serving (plugin_after cfg zone (ip_bytes ns_a) r rs))
  unfolding add_plugin
  add_plugin-serving c p fuel origins s ip_bytes zone cfg ns_a listening r rs read fine on
        some_pop =
      let ended = run-rounds fl (new fl cfg) listening (r ∷ rs) fine in
      let still : (run fl (new fl cfg) listening (r ∷ rs)).1 ≡ still_running =
        ap (λ x. x.1) ended ∙ run_rounds-still_running (r ∷ rs) (new fl cfg) on in
      let state = (run-Answered fl o cfg listening r rs ns_a fine some_pop).0 in
      rw (read, add_plugin)
        (ap₂ (λ core w. some (process_of fl ip_bytes zone ns_a (core, w))) state still)

  -- When a Corefile is accepted, with PoPs that are all of IPv4, the HTTP server begins without an error,
  -- and the worker has done some rounds, the plugin serves: a question for the address of www under its
  -- zone, in any case of letters, gets one authoritative record of the address of the PoP that is the
  -- nearest to the client's region by what the probers measured in the last round, or the best on
  -- average when no prefix holds the client or nothing there is below the default.
  pub add_plugin-www :
      (c : Controller) (p : Parsers) (fuel : ℕ) (origins : List String) (s : c.Cursor)
      (ip_bytes : Addr → List ℕ) (zone : String) (cfg : Config) (ns_a : Addr)
      (listening : Listening) (r : Round fl) (rs : List (Round fl)) (names : Names) (q : Question)
      (host tail : String) (ip : Addr)
      → setup c p fuel origins s ≡ done (zone, cfg, ns_a)
      → spawn_http_server listening ≡ none
      → NeverDone (r ∷ rs)
      → 0 < length cfg.pops
      → AllIpv4 (new fl cfg)
      → names.compare_domain_name (String.◌++◌ "ns." zone) q.qname + 1
        ≡ names.count_label (String.◌++◌ "ns." zone)
      → q.qname ≡ String.◌++◌ host tail
      → len tail ≡ len zone
      → host ≢ ""
      → names.to_lower (slice host 0 (len host - 1)) ≡ "www"
      → source_ip q ≡ some ip
      → q.qtype ≡ type_a
      → (plugin : Gslb fl) × (add_plugin fl ip_bytes (setup c p fuel origins s) listening (r ∷ rs)
          ≡ some (serving plugin))
        × (i : ℕ) × (pop : PopInfo) × (bytes : List ℕ) × (get_elem? cfg.pops i ≡ some pop)
        × (as4 pop.ip4 ≡ some bytes)
        × IsAnswer fl o
            (measured fl cfg
              (last_round fl r rs)
              ((rounds_done fl r rs * (1 + length cfg.regions)) % (2 ^ 32)))
            (unmap ip)
            i
        × (serve_dns fl names plugin q
            ≡ wrote
                (record {
                  rcode = rcode_success;
                  authoritative = true;
                  answer = a q.qname ttl bytes ∷ [];
                  authority = [];
                })
                rcode_success)
  unfolding new
  add_plugin-www c p fuel origins s ip_bytes zone cfg ns_a listening r rs names q host tail ip read
        fine on some_pop v4s under named same some_host lower src of_a =
      let plugin = plugin_after cfg zone (ip_bytes ns_a) r rs in
      let (i, pop, bytes, at, four, best, answered) =
        serve_dns-www fl o names plugin q host tail ip
          (measured-IsValid fl cfg (last_round fl r rs) _) some_pop v4s under named same some_host
          lower src in
      (
        plugin,
        add_plugin-serving c p fuel origins s ip_bytes zone cfg ns_a listening r rs read fine on
            some_pop,
        i,
        pop,
        bytes,
        at,
        four,
        best,
        answered ∙ (rw of_a refl),
      )
