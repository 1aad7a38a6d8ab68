-- ===== src/Popcache/Main.antt =====
-- The commands popcache/cmd/popcache/main.go, an edge, and popcache/cmd/shield/main.go, a shield: what
-- they make of their configuration files, and the handler that they serve. The opening and decoding of
-- a file, JSON, the answers of `http.DefaultServeMux` itself, and the clock are parameters.

pub mod Passes
pub mod Failed
pub mod Answered
mod Tests
use Prim.Native.String.{String}
use text.Mathlib.Text.{◌==◌ as str_eq}
use ncdn.Base.{ℕ, Option, none, some, List, ◌⊎◌, inl, inr, if◌then◌else◌}
use ncdn.Httprps
use ncdn.Httprps.{Middleware, get_rps}
use ncdn.Types.{PopStatus}
use ncdn.Popcache.Http.{Request, Object, Outcome, ok}
use ncdn.Popcache.Upstream.{Backend, Net, RoundTripper, edge_chain, shield_chain}
use ncdn.Popcache.Config.{Entry, Parsers, parse_backends, origin_lookup_of, statusz, latencyz}
use ncdn.Popcache.Server.{Lru, Calls, Store, CacheServer, serve_http}

-- The entries of a file, or the error of opening or decoding it.
abbrev pub File : Type 0
File = List Entry ⊎ String

-- `ParseBackends` with the reading of the file.
unfoldable pub parse_file : Parsers → File → List Backend ⊎ String
parse_file p (inl es) = parse_backends p es
parse_file p (inr e) = inr e

-- Which command runs, with the lists of servers that it has.
pub data Tier : Type 0 where
  edge : (shields edges : List Backend) → Tier
  shield : (shields : List Backend) → Tier

-- What `main` has when it begins to listen.
pub record Node : Type 0 where
  pub node_id : String
  pub origin_lookup : List (String × Backend)
  pub tier : Tier

module _ (p : Parsers) (node_id : String) where
  -- `main` of the edge, up to the first `log.Fatalf`, from the files of origins, edges and shields.
  unfoldable pub edge_main : File → File → File → Node ⊎ String
  unfolding parse_file
  edge_main origins edges shields = elim (parse_file p origins) [
    | inr e ↦ inr e
    | inl os ↦ elim (parse_file p edges) [
      | inr e ↦ inr e
      | inl es ↦ elim (parse_file p shields) [
        | inr e ↦ inr e
        | inl ss ↦
            inl
              (record { node_id = node_id; origin_lookup = origin_lookup_of os; tier = edge ss es })
      ]
    ]
  ]

  -- `main` of the shield, from the files of origins and shields.
  unfoldable pub shield_main : File → File → Node ⊎ String
  unfolding parse_file
  shield_main origins shields = elim (parse_file p origins) [
    | inr e ↦ inr e
    | inl os ↦ elim (parse_file p shields) [
      | inr e ↦ inr e
      | inl ss ↦
          inl (record { node_id = node_id; origin_lookup = origin_lookup_of os; tier = shield ss })
    ]
  ]

-- `nodeShard`, and `shieldShard`.
unfoldable pub chain_of : Net → Tier → List (String × Backend) → String → RoundTripper
chain_of net (edge shields edges) table id = edge_chain net table shields edges id
chain_of net (shield shields) table id = shield_chain net table shields id

-- `cs`
abbrev pub cache_server : Net → Node → CacheServer
cache_server net n = record {
  node_id = n.node_id;
  origin_lookup = n.origin_lookup;
  round_tripper = chain_of net n.tier n.origin_lookup n.node_id;
}

-- `URL.Path`, and the answer of `http.DefaultServeMux` itself to a request that it does not pass on to
-- the middleware: the redirect of a path that is not clean, and status 400 for "*".
pub record Mux : Type 0 where
  pub path : Request → String
  pub front : Request → Option Object

-- The shared state of the handlers.
pub record Shared (L : Lru) : Type 0 where
  pub rps : Middleware
  pub store : Store L

module _ {F : Type 0} (to_json : PopStatus F → Option String) (divide : ℕ → ℕ → F) where
  -- A request to the server: `http.DefaultServeMux` answers it, or passes it on to the middleware, which
  -- counts it before the mux picks the handler.
  unfoldable pub handle :
      (L : Lru) → Calls → Mux → Net → Node → F → Shared L → Request → Shared L × Outcome Object
  unfolding serve_http
  handle L calls mux net n uptime s r =
      let counted : Shared L = record s { rps = Httprps.serve_http s.rps } in
      elim (mux.front r) [
        | some obj ↦ (s, ok obj)
        | none ↦
            if str_eq (mux.path r) "/statusz"
            then (counted, ok (statusz to_json n.node_id uptime (get_rps divide counted.rps)))
            else if str_eq (mux.path r) "/latencyz"
            then (counted, ok latencyz)
            else let done = serve_http L calls (cache_server net n) s.store r in
              (record counted { store = done.0 }, done.1)
      ]
