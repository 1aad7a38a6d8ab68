-- ===== src/Gslb/Run/Answers.antt =====
-- The queries of a balancer whose worker runs.
use text.Mathlib.Text.{◌==◌ as str_eq}
use ncdn.Base.{
  ℕ, ◌+◌, ◌*◌, ◌%◌, ◌^◌, ◌<◌, ◌≡◌, refl, ap, ◌∙◌, arith, List, ◌∷◌, length, length-map, inl, inr,
  none, Bool-cases,
}
use ncdn.Float.{Float, IsOrdered}
use ncdn.Netip.{Addr}
use ncdn.Gslb.Core.{Config, GslbCore, new}
use ncdn.Gslb.Core.State.{IsValid, new-IsValid}
use ncdn.Gslb.Core.Query.{Answered, query_lem}
use ncdn.Gslb.Run.{Round, Listening, spawn_http_server, run_rounds, run}
use ncdn.Gslb.Run.Measured.{
  measured, last_round, rounds_done, IsConfigured, measured-IsConfigured, run_rounds-measured,
}

module _ (fl : Float) where
  pub run-rounds :
      (c : GslbCore fl) (listening : Listening) (rs : List (Round fl))
      → spawn_http_server listening ≡ none
      → run fl c listening rs ≡ run_rounds fl c rs
  unfolding run
  run-rounds c listening rs e = elim (Bool-cases (str_eq c.cfg.http_server "")) [
    | inl off ↦ rw (off, run) refl
    | inr on ↦ rw (on, e, run) refl
  ]

  new-IsConfigured : (cfg : Config) → IsConfigured fl (new fl cfg)
  unfolding new
  new-IsConfigured cfg = record { same_measurers = refl; fits = (new-IsValid fl cfg).fits }

  pub measured-IsValid : (cfg : Config) (r : Round fl) (s : ℕ) → IsValid fl (measured fl cfg r s)
  measured-IsValid cfg r s = record {
    statuses = length-map cfg.pops _;
    measurers = length-map cfg.regions _;
    fits = (measured-IsConfigured fl cfg r s).fits;
  }

  -- When the HTTP server begins without an error, if there is one, the worker's state after its rounds, up
  -- to the one in which its context is done, is what the last of them measured: the status of each PoP,
  -- and for each region the latencies that its prober measured, with `defaultLatency` for an error; the
  -- serial has grown by one for each status update and each region, modulo 2^32. With a PoP, and an
  -- ordered type of latencies, a query then answers with the PoP nearest to the client's region by
  -- these latencies, or with the best on average when no prefix holds the client or nothing there is
  -- below the default.
  pub run-Answered :
      (o : IsOrdered fl) (cfg : Config) (listening : Listening) (r : Round fl)
      (rs : List (Round fl)) (ip : Addr)
      → spawn_http_server listening ≡ none
      → 0 < length cfg.pops
      → ((run fl (new fl cfg) listening (r ∷ rs)).0
          ≡ measured fl cfg
              (last_round fl r rs)
              ((rounds_done fl r rs * (1 + length cfg.regions)) % (2 ^ 32)))
        × Answered fl o
            (measured fl cfg
              (last_round fl r rs)
              ((rounds_done fl r rs * (1 + length cfg.regions)) % (2 ^ 32)))
            ip
  unfolding new
  run-Answered o cfg listening r rs ip fine some_pop =
      let n = (rounds_done fl r rs * (1 + length cfg.regions)) % (2 ^ 32) in
      (
        ap (λ x. x.0) (run-rounds (new fl cfg) listening (r ∷ rs) fine)
            ∙ run_rounds-measured fl rs r (new fl cfg) 0 (new-IsConfigured cfg) refl
            ∙ ap (measured fl cfg (last_round fl r rs)) (omega arith),
        query_lem fl o (measured fl cfg (last_round fl r rs) n) ip
            (measured-IsValid cfg (last_round fl r rs) n) some_pop,
      )
