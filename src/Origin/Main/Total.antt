-- ===== src/Origin/Main/Total.antt =====
-- The command of the origin answers every request, and counts those that its first mux passes on.
use text.Mathlib.Text.{◌==◌ as str_eq}
use ncdn.Base.{
  Bool, true, false, ℕ, ◌+◌, ◌%◌, ◌^◌, ◌<◌, ◌≡◌, refl, subst, some-injective, arith, Bool-cases,
  Option-cases, none, some, List, [], ◌∷◌, length, inl, inr, All,
}
use ncdn.Base.Int.{pos_part}
use ncdn.Httprps.{Middleware, new_middleware}
use ncdn.Origin.Site.{SiteConfig, ImageInfo, Site}
use ncdn.Origin.Assets.{Tools, with_variants, load_site}
use ncdn.Origin.Views.{Views, RequestInfo}
use ncdn.Origin.Handlers.Total.{Answered, IsIntn, Ready, serve-Good, load_site-Ready}
use ncdn.Origin.Main.{
  Pages, Found, asset, endpoint, no_route, Target, Origin, single_page, of_site, has_routes,
  origin_main, site_routes, route, pass, serve_request, serve_requests,
}

-- How many requests `http.DefaultServeMux` passes on.
unfoldable pub passed : List Target → ℕ
passed [] = 0
passed (r ∷ rs) = elim r.front [ some _ ↦ 0 | none ↦ 1 ] + passed rs

-- What is served is ready for requests.
abbrev pub IsReady : Origin → Type 0
IsReady single_page = Unit {0}
IsReady (of_site s) = Ready s

module _ {F : Type 0} (t : Tools) (v : Views) (p : Pages F) (divide : ℕ → ℕ → F)
    (node : RequestInfo) where
  site_routes-Answered :
      (s : Site) (f : Found)
      → IsIntn v.intn
      → Ready s
      → Answered (site_routes t v p divide node s f).1 × Ready (site_routes t v p divide node s f).0
  unfolding site_routes
  site_routes-Answered s (asset path) intn r = ((_, refl), r)
  site_routes-Answered s (endpoint e) intn r = serve-Good t v node s e intn r
  site_routes-Answered s (no_route answer) intn r = ((_, refl), r)

  route-Answered :
      (rps : Middleware) (o : Origin) (r : Target)
      → IsIntn v.intn
      → IsReady o
      → Answered (route t v p divide node rps o r).1 × IsReady (route t v p divide node rps o r).0
  unfolding route
  route-Answered rps o r intn ready = elim (Bool-cases (str_eq r.path "/rps")) [
    | inl rate ↦ rw (rate, route) ((_, refl), ready)
    | inr other ↦ behind o other ready
  ]
    where
      behind :
          (o : Origin)
          → str_eq r.path "/rps" ≡ false
          → IsReady o
          → Answered (route t v p divide node rps o r).1
            × IsReady (route t v p divide node rps o r).0
      behind single_page other ready = rw (other, route) ((_, refl), tt)
      behind (of_site s) other ready = rw (other, route) (site_routes-Answered s r.found intn ready)

  serve_request-Answered :
      (rps : Middleware) (o : Origin) (r : Target) (n : ℕ)
      → IsIntn v.intn
      → IsReady o
      → rps.curr ≡ n % (2 ^ 64)
      → Answered (serve_request t v p divide node rps o r).2
        × IsReady (serve_request t v p divide node rps o r).1
        × ((serve_request t v p divide node rps o r).0.curr ≡ (n + passed (r ∷ [])) % (2 ^ 64))
  unfolding serve_request pass passed
  serve_request-Answered rps o r n intn ready counted = elim (Option-cases r.front) [
    | inr (obj, by_front) ↦ rw (by_front, serve_request) ((_, refl), ready, omega arith)
    | inl through ↦
        let counting : Middleware = record rps { curr = (rps.curr + 1) % (2 ^ 64) } in
        let (answered, still) = route-Answered counting o r intn ready in
        rw (through, serve_request, pass) (answered, still, omega arith)
  ]

  serve_requests-Answered :
      (rs : List Target) (rps : Middleware) (o : Origin) (n : ℕ)
      → IsIntn v.intn
      → IsReady o
      → rps.curr ≡ n % (2 ^ 64)
      → All Answered (serve_requests t v p divide node rps o rs).1
        × ((serve_requests t v p divide node rps o rs).0.curr ≡ (n + passed rs) % (2 ^ 64))
  unfolding serve_requests passed
  serve_requests-Answered [] rps o n intn ready counted = (tt, omega arith)
  serve_requests-Answered (r ∷ rs) rps o n intn ready counted =
      let (answered, still, one) = serve_request-Answered rps o r n intn ready counted in
      let (all, total) = serve_requests-Answered rs _ _ (n + passed (r ∷ [])) intn still one in
      let sum : n + passed (r ∷ []) + passed rs ≡ n + passed (r ∷ rs) = omega arith in
      ((answered, all), rw sum at total)

  origin_main-IsReady :
      (has_site : Bool) (cfg : SiteConfig) (images : List ImageInfo) (o : Origin)
      → origin_main has_site (load_site t cfg images) ≡ some o
      → length images + pos_part (with_variants t cfg).per_page < 2 ^ 63
      → IsReady o
  unfolding origin_main
  origin_main-IsReady false cfg images o e few = subst IsReady (some-injective e) tt
  origin_main-IsReady true cfg images o e few = elim (Option-cases (load_site t cfg images)) [
    | inl bad ↦ absurd (cc (rw (bad, origin_main) at e))
    | inr (s, loaded) ↦ elim (Bool-cases (has_routes s.cfg.profile)) [
      | inl known ↦
          subst IsReady (some-injective (rw (loaded, known, origin_main) at e))
            (load_site-Ready t v node cfg images s loaded known few)
      | inr unknown ↦ absurd (cc (rw (loaded, unknown, origin_main) at e))
    ]
  ]

  -- When the command of the origin has started, with a site whose images and a page of them are fewer
  -- than 2^63 or with the single page, and `rand.Intn` is within its bound, every request of any
  -- sequence gets a reply: no slice is out of its bounds, no random number is asked of an empty range;
  -- and the middleware has counted, modulo 2^64, the requests that `http.DefaultServeMux` does not
  -- answer itself.
  pub origin_main-Answered :
      (has_site : Bool) (cfg : SiteConfig) (images : List ImageInfo) (o : Origin) (rs : List Target)
      → origin_main has_site (load_site t cfg images) ≡ some o
      → length images + pos_part (with_variants t cfg).per_page < 2 ^ 63
      → IsIntn v.intn
      → All Answered (serve_requests t v p divide node new_middleware o rs).1
        × ((serve_requests t v p divide node new_middleware o rs).0.curr ≡ passed rs % (2 ^ 64))
  origin_main-Answered has_site cfg images o rs e few intn =
      let (all, counted) =
        serve_requests-Answered rs new_middleware o 0 intn
          (origin_main-IsReady has_site cfg images o e few) (omega arith) in
      (all, omega arith)
