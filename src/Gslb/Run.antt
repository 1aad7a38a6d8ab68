-- ===== src/Gslb/Run.antt =====
-- `Run` and `spawnHTTPServer` of gslb/gslbcore (core.go, httpsrv.go): the worker from its start to its
-- end. What the network answers in a round, and what ends its wait, is the round's input.
pub mod Measured
pub mod Answers
use Prim.Native.String.{String}
use text.Mathlib.Text.{◌==◌ as str_eq}
use ncdn.Base.{ℕ, Option, none, some, List, [], ◌∷◌, ◌⊎◌, if◌then◌else◌}
use ncdn.Float.{Float}
use ncdn.Netip.{Addr}
use ncdn.Types.{PopStatus}
use ncdn.Gslb.Core.{Config, Measurer, GslbCore, new, update_pop_status, update_latency}

-- `ctx.Err()` of a context that is done.
pub data ContextError : Type 0 where
  canceled : ContextError
  deadline_exceeded : ContextError

-- What ends the wait of a round.
pub data Wake : Type 0 where
  after_timer : Wake
  on_done : ContextError → Wake

-- What the first second of the HTTP server brings: the error that `ListenAndServe` ends with, or
-- nothing.
pub data Listening : Type 0 where
  ended : String → Listening
  quiet : Listening

-- How far `Run` is.
pub data Running : Type 0 where
  still_running : Running
  returned : Option String → Running

-- `spawnHTTPServer`: a server that was closed is no error.
unfoldable pub spawn_http_server : Listening → Option String
spawn_http_server (ended e) = if str_eq e "http: Server closed" then none else some e
spawn_http_server quiet = none

-- What `Run` returns for the context's error.
unfoldable pub result_of : ContextError → Option String
result_of canceled = none
result_of deadline_exceeded = some "context deadline exceeded"

module _ (fl : Float) where
  open fl use {F}

  -- A round: what the PoPs and the probers answer, and what ends its wait.
  pub record Round : Type 0 where
    pub fetch : Addr → PopStatus F ⊎ String
    pub measure : Measurer → String → F ⊎ String
    pub wake : Wake

  -- A round up to its wait.
  unfoldable pub update : Round → GslbCore fl → GslbCore fl
  update r c = update_latency fl r.measure (update_pop_status fl r.fetch c)

  -- The loop of `Run`, over the rounds so far.
  unfoldable pub run_rounds : GslbCore fl → List Round → GslbCore fl × Running
  unfolding update
  run_rounds c [] = (c, still_running)
  run_rounds c (r ∷ rs) =
      let next = run_rounds (update r c) rs in
      elim r.wake [ after_timer ↦ next | on_done e ↦ (update r c, returned (result_of e)) ]

  -- `Run`
  unfoldable pub run : GslbCore fl → Listening → List Round → GslbCore fl × Running
  unfolding run_rounds spawn_http_server
  run c listening rs =
      if str_eq c.cfg.http_server "" then run_rounds c rs else elim (spawn_http_server listening) [
        | some e ↦ (c, returned (some e))
        | none ↦ run_rounds c rs
      ]
