-- ===== src/Gslb/Plugin.antt =====
-- The end of `setup` of gslb/corednsplugin/setup.go, and `Run` of handler.go: the plugin that CoreDNS
-- gets, whose worker runs for as long as the process does.
pub mod Www
mod Tests
use Prim.Native.String.{String}
use ncdn.Base.{ℕ, Option, none, some, List}
use ncdn.Float.{Float}
use ncdn.Netip.{Addr}
use ncdn.Gslb.Core.{Config, GslbCore, new}
use ncdn.Gslb.Run.{Round, Listening, Running, still_running, returned, run}
use ncdn.Gslb.Handler.{Gslb, new_gslb}
use ncdn.Gslb.Setup.{Result, done, failed, out_of_fuel}

module _ (fl : Float) where
  -- The process with the plugin: it serves, `setup` has returned an error, or `Run` has and ended the
  -- process.
  pub data Process : Type 0 where
    serving : Gslb fl → Process
    not_set_up : String → Process
    exited : String → Process

  -- The process as far as its worker is; `ip_bytes` are the bytes of a `net.IP`.
  unfoldable pub process_of : (Addr → List ℕ) → String → Addr → GslbCore fl × Running → Process
  process_of ip_bytes zone ns_a (core, still_running) =
      serving (new_gslb fl core zone (ip_bytes ns_a))
  process_of ip_bytes zone ns_a (core, returned none) =
      serving (new_gslb fl core zone (ip_bytes ns_a))
  process_of ip_bytes zone ns_a (core, returned (some e)) = exited e

  -- The plugin that is added for what the parser has read, after the rounds of its worker.
  unfoldable pub add_plugin :
      (Addr → List ℕ)
      → Result (String × Config × Addr)
      → Listening
      → List (Round fl)
      → Option Process
  unfolding process_of
  add_plugin ip_bytes (done (zone, cfg, ns_a)) listening rs =
      some (process_of ip_bytes zone ns_a (run fl (new fl cfg) listening rs))
  add_plugin ip_bytes (failed e) listening rs = some (not_set_up e)
  add_plugin ip_bytes out_of_fuel listening rs = none
