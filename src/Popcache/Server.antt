-- ===== src/Popcache/Server.antt =====
-- A cache server: popcache/internal/cache.go, `CacheKey` and `CacheAndFetch` of middleware.go,
-- cacheserver.go and `RemovePortFromHost` of helper.go. The LRU cache, SHA-256, `net.SplitHostPort`
-- and the reading of a body are parameters. The cache holds references into a heap of objects, since
-- a stored object is shared with the handler that stored it.
pub mod Reuse
pub mod Reply
use Prim.Native.String.{String}
use text.Mathlib.Text.{◌==◌ as str_eq}
use ncdn.Base.{
  ℕ, Bool, true, false, Option, none, some, List, [], ◌∷◌, ◌++◌, ◌⊎◌, inl, inr, length, get_elem?,
  set as write, if◌then◌else◌,
}
use ncdn.Popcache.Http.{
  Header, Request, Object, Outcome, ok, err, panic, fatal, set, add, del, http_error,
}
use ncdn.Popcache.Upstream.{Backend, RoundTripper, concat, request_key, origin}

-- The calls of hashicorp/golang-lru that cache.go makes.
pub record Lru : Type 1 where
  pub State : Type 0
  pub lookup : State → String → State × Option ℕ
  pub insert : State → String → ℕ → State

-- The other calls of packages.
pub record Calls : Type 0 where
  pub sha256 : String → String
  -- The host, or the `Err` of the `AddrError`.
  pub split_host_port : String → String ⊎ String
  pub read_all : String → String ⊎ String

-- The objects, and `Cache`.
pub record Store (L : Lru) : Type 0 where
  pub heap : List Object
  pub cache : L.State

-- `CacheKey`
abbrev pub cache_key : Calls → Request → String
cache_key calls r = calls.sha256 (request_key r)

-- `RemovePortFromHost`
unfoldable pub remove_port_from_host : Calls → String → String
remove_port_from_host calls hostname = elim (calls.split_host_port hostname) [
  | inl host ↦ host
  | inr e ↦ if str_eq e "missing port in address" then hostname else ""
]

-- The header that is stored.
abbrev pub cache_header : Header → Header
cache_header h = del (del (del h "X-Cache") "X-NCDN-PoPCache-NodeId") "X-NCDN-Shield-NodeId"

module _ (L : Lru) where
  -- `Cache.Get`: a clone of the object.
  unfoldable pub cache_get : Store L → String → Store L × Option Object
  cache_get s key =
      let found = L.lookup s.cache key in
      (
        record s { cache = found.0 },
        (elim found.1 [ none ↦ none | some ref ↦ get_elem? s.heap ref ]),
      )

  -- A new object, and `Cache.Put` of it.
  unfoldable pub cache_put : Store L → String → Object → Store L
  cache_put s key obj = record {
    heap = s.heap ++ (obj ∷ []);
    cache = L.insert s.cache key (length s.heap);
  }

  -- What is left of `CacheAndFetch` when a response has come: its object is stored, then marked
  -- in place.
  unfoldable pub store_response : Calls → Store L → Request → Object → Store L × Outcome Object
  unfolding cache_put
  store_response calls s r resp = elim (calls.read_all resp.body) [
    | inr e ↦ (s, err e)
    | inl body ↦
        let new_object : Object = record {
          status_code = resp.status_code;
          header = cache_header resp.header;
          body = body;
        } in
        let marked : Object = record new_object {
          header = add new_object.header "X-Cache" "Miss";
        } in
        let put = cache_put s (cache_key calls r) new_object in
        (record put { heap = write put.heap (length s.heap) marked }, ok marked)
  ]

  -- What `CacheAndFetch` makes of what the next tier returns.
  unfoldable pub after_miss : Calls → Store L → Request → Outcome Object → Store L × Outcome Object
  unfolding store_response
  after_miss calls s r (ok resp) = store_response calls s r resp
  after_miss calls s r (err e) = (s, err e)
  after_miss calls s r panic = (s, panic)
  after_miss calls s r fatal = (s, fatal)

  -- `CacheAndFetch`
  unfoldable pub cache_and_fetch :
      Calls → RoundTripper → Store L → Request → Store L × Outcome Object
  unfolding cache_get after_miss
  cache_and_fetch calls next s r =
      let found = cache_get s (cache_key calls r) in
      elim found.1 [
        | some obj ↦ (found.0, ok (record obj { header = set obj.header "X-Cache" "HIT" }))
        | none ↦ after_miss calls found.0 r (next r)
      ]

-- `w.Header().Add(k, v)` for all of `vs`.
unfoldable pub add_values : Header → String → List String → Header
add_values w k [] = w
add_values w k (v ∷ vs) = add_values (add w k v) k vs

-- The loops of `ServeHTTP` that write the header.
unfoldable pub add_all : Header → Header → Header
unfolding add_values
add_all w [] = w
add_all w ((k, vs) ∷ h) = add_all (add_values w k vs) h

-- What `ServeHTTP` writes for the result of `CacheAndFetch`.
unfoldable pub write_reply : Header → Outcome Object → Outcome Object
unfolding add_all
write_reply w (ok obj) =
    ok (record { status_code = obj.status_code; header = add_all w obj.header; body = obj.body })
write_reply w (err e) = ok (http_error w "internal server error" 500)
write_reply w panic = panic
write_reply w fatal = fatal

-- `CacheServer`
pub record CacheServer : Type 0 where
  pub node_id : String
  pub origin_lookup : List (String × Backend)
  pub round_tripper : RoundTripper

module _ (L : Lru) where
  -- `ServeHTTP`
  unfoldable pub serve_http : Calls → CacheServer → Store L → Request → Store L × Outcome Object
  unfolding cache_and_fetch write_reply remove_port_from_host
  serve_http calls c s r =
      let w : Header = set [] "X-NCDN-PoPCache-NodeId" c.node_id in
      let r' : Request = record r { host = remove_port_from_host calls r.host } in
      elim (origin c.origin_lookup r'.host) [
        | none ↦ (s, ok (http_error w "unknown host" 404))
        | some _ ↦
            let done = cache_and_fetch L calls c.round_tripper s r' in
            (done.0, write_reply w done.1)
      ]
