-- ===== src/Origin/Main.antt =====
-- The command origin/main.go: the origin of a single page, the site if there is one, and the middleware
-- in front of both, which stands behind `http.DefaultServeMux`. The template of the page, the file
-- servers, the redirect, the answers of the muxes and the printing of the rate are parameters.
pub mod Total
use Prim.Native.String.{String}
use text.Mathlib.Text.{◌==◌ as str_eq}
use ncdn.Base.{
  ℕ, Bool, true, false, ◌||◌, Option, none, some, List, [], ◌∷◌, ◌⊎◌, inl, inr, if◌then◌else◌,
}
use ncdn.Httprps
use ncdn.Httprps.{Middleware, new_middleware, get_rps}
use ncdn.Popcache.Http.{Header, Object, Outcome, ok, set, http_error}
use ncdn.Origin.Site.{concat, Site}
use ncdn.Origin.Assets.{Tools}
use ncdn.Origin.Views.{Views, RequestInfo, Endpoint}
use ncdn.Origin.Handlers.{reply, serve_info, serve}

-- The calls of packages: parsing the template, with its error, and executing it; the file servers of
-- the single page and of a site, for the header that was set before; `http.Redirect`; and "%.2f".
pub record Pages (F : Type 0) : Type 0 where
  pub parse_error : Option String
  pub execute : RequestInfo → String ⊎ String
  pub static_file : Header → String → Object
  pub site_file : Header → String → Object
  pub redirect : String → Object
  pub rate_text : F → String

-- What the mux of a site finds for a request: a file below /assets/, an endpoint, or an answer of its
-- own.
pub data Found : Type 0 where
  asset : String → Found
  endpoint : Endpoint → Found
  no_route : Object → Found

-- A request: the answer of `http.DefaultServeMux` itself, if it does not pass the request on to the
-- middleware (a redirect of a path that is not clean, status 400 for "*"); the path; and what the mux of
-- the site makes of it.
pub record Target : Type 0 where
  pub front : Option Object
  pub path : String
  pub found : Found

-- What is served.
pub data Origin : Type 0 where
  single_page : Origin
  of_site : Site → Origin

-- `cacheControl`, for the header so far.
abbrev pub cache_control : String → (Header → String → Object) → Header → String → Object
cache_control v next w path = next (set w "Cache-Control" v) path

-- The profiles that `registerSiteRoutes` goes on with.
abbrev pub has_routes : String → Bool
has_routes profile =
    str_eq profile "gallery" || str_eq profile "catalog" || str_eq profile "dynamic"

-- `main` up to the middleware: `none` is the end of the process. There is a site where site.json is.
unfoldable pub origin_main : Bool → Option Site → Option Origin
origin_main false loaded = some single_page
origin_main true none = none
origin_main true (some s) = if has_routes s.cfg.profile then some (of_site s) else none

module _ {F : Type 0} (t : Tools) (v : Views) (p : Pages F) (divide : ℕ → ℕ → F)
    (node : RequestInfo) where
  -- `serveIndexHTMLInternal`, with its error.
  unfoldable pub index_html : Object ⊎ String
  index_html = elim p.parse_error [
    | some e ↦ inr (concat "Failed to parse index.html template: " e)
    | none ↦ elim (p.execute node) [
      | inr e ↦ inr (concat "Failed to execute index.html template: " e)
      | inl buf ↦ inl (reply (set [] "Content-Type" "text/html") buf)
    ]
  ]

  -- `serveIndexHTML`
  unfoldable pub serve_index_html : Object
  unfolding index_html
  serve_index_html = elim index_html [ inl obj ↦ obj | inr e ↦ http_error [] e 500 ]

  -- The handler of "/".
  unfoldable pub serve_path : String → Object
  serve_path path = if str_eq path "/" then p.redirect "/index.html" else p.static_file [] path

  -- The handler of /rps.
  abbrev pub serve_rps : Middleware → Object
  serve_rps rps = reply [] (concat "RPS: " (concat (p.rate_text (get_rps divide rps)) "\n"))

  -- `registerLegacyRoutes`
  unfoldable pub legacy_routes : String → Object
  unfolding serve_index_html serve_path
  legacy_routes path =
      if str_eq path "/index.html"
      then serve_index_html
      else if str_eq path "/json"
      then serve_info t v node
      else serve_path path

  -- `registerSiteRoutes` with the files below /assets/.
  unfoldable pub site_routes : Site → Found → Site × Outcome Object
  site_routes s (asset path) = (s, ok (cache_control "public, max-age=300" p.site_file [] path))
  site_routes s (endpoint e) = serve t v node s e
  site_routes s (no_route answer) = (s, ok answer)

  -- The mux behind the middleware, with /rps.
  unfoldable pub route : Middleware → Origin → Target → Origin × Outcome Object
  unfolding legacy_routes site_routes
  route rps o r = if str_eq r.path "/rps" then (o, ok (serve_rps rps)) else elim o [
    | single_page ↦ (single_page, ok (legacy_routes r.path))
    | of_site s ↦ let done = site_routes s r.found in (of_site done.0, done.1)
  ]

  -- A request behind `http.DefaultServeMux`: the middleware counts it before the mux has it.
  unfoldable pub pass : Middleware → Origin → Target → Middleware × Origin × Outcome Object
  unfolding route
  pass rps o r =
      let counted = Httprps.serve_http rps in
      let done = route counted o r in (counted, done.0, done.1)

  -- A request to the process.
  unfoldable pub serve_request : Middleware → Origin → Target → Middleware × Origin × Outcome Object
  unfolding pass
  serve_request rps o r = elim r.front [ some obj ↦ (rps, o, ok obj) | none ↦ pass rps o r ]

  -- The requests, one after another.
  unfoldable pub serve_requests :
      Middleware → Origin → List Target → Middleware × List (Outcome Object)
  unfolding serve_request
  serve_requests rps o [] = (rps, [])
  serve_requests rps o (r ∷ rs) =
      let done = serve_request rps o r in
      let rest = serve_requests done.0 done.1 rs in (rest.0, done.2 ∷ rest.1)
