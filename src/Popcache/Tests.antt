-- ===== src/Popcache/Tests.antt =====
-- Cache servers on a small network, and the theorems of popcache at it.
use Prim.Native.String.{String}
use text.Mathlib.Text.{◌==◌ as str_eq}
use text.Mathlib.TextEquality.{eq_iff}
use ncdn.Base.{
  ℕ, ◌≡◌, ◌≢◌, refl, sym, ap, ◌∙◌, Bool-cases, Option, none, some, List, [], ◌∷◌, inl, inr, arith,
  if◌then◌else◌,
}
use ncdn.Netip.{v4}
use ncdn.Popcache.Http.{Header, Request, Object, ok, err, values, set, http_error}
use ncdn.Popcache.Upstream.{
  Net, Backend, picked, RoundTripper, heaviest, rendezvous_select, shard, origin,
}
use ncdn.Popcache.Upstream.Rendezvous.{
  IsHeaviest, first, rendezvous_select-IsHeaviest, rendezvous_select-Leaves,
}
use ncdn.Popcache.Upstream.Chain.{marked, shard-one_hop}
use ncdn.Popcache.Server.{
  Lru, Calls, Store, CacheServer, cache_key, cache_get, cache_and_fetch, serve_http,
  remove_port_from_host,
}
use ncdn.Popcache.Server.Reuse.{FindsLast, MissThenHit, cache_and_fetch-MissThenHit}
use ncdn.Base.Maps.{put}
use ncdn.Popcache.Config.{
  Entry, Parsers, parse_backend, parse_backends, add_origins, origin_lookup_of,
}
use ncdn.Popcache.Config.Hosts.{serve_http-not_lower}
use ncdn.Popcache.Server.Reply.{Unnamed, Named, serve_http-Named}

abbrev backend : String → ℕ → Backend
backend id ip = record { node_id = id; ip4 = v4 ip; hostname = "www.example"; port = "8888" }

abbrev edge1 : Backend
edge1 = backend "edge1" 1

abbrev edge2 : Backend
edge2 = backend "edge2" 2

abbrev edge3 : Backend
edge3 = backend "edge3" 3

-- No server answers, and the second edge has the greatest hash of the request below.
abbrev net : Net
net = record {
  send = λ r. inr "connection refused";
  addr_string = λ a. "192.0.2.1";
  hash = λ s. if str_eq s "edge2:www.example/index.html" then 9 else 4;
}

abbrev request : Request
request = record {
  method = "GET";
  host = "www.example";
  port = "";
  uri = "/index.html";
  header = ("Accept", "text/html" ∷ []) ∷ [];
  body = "";
}

abbrev edges : List Backend
edges = edge1 ∷ edge2 ∷ edge3 ∷ []

second_edge : rendezvous_select net request edges ≡ picked edge2
unfolding rendezvous_select heaviest
second_edge = refl

rendezvous_select-IsHeaviest_example : IsHeaviest net "www.example/index.html" 0 edges edge2
rendezvous_select-IsHeaviest_example =
    rendezvous_select-IsHeaviest net request edges edge2 second_edge

rendezvous_select-Leaves_example : rendezvous_select net request (edge2 ∷ edge3 ∷ []) ≡ picked edge2
rendezvous_select-Leaves_example =
    rendezvous_select-Leaves net request edges (edge2 ∷ edge3 ∷ []) edge1 edge2 second_edge
      (λ e. cc) (first (edge2 ∷ edge3 ∷ []))

abbrev next : RoundTripper
next r = err "no upstream available"

no_mark : values request.header "X-Shard" ≡ []
unfolding values
no_mark = refl

shard-one_hop_example :
    (h : Header) × ((j : String) → values h j ≡ values request.header j)
    × (shard net next edges "edge2" (marked request "edge1") ≡ next (record request { header = h }))
shard-one_hop_example = shard-one_hop net next edges "edge2" "edge1" request (λ e. cc) no_mark

abbrev table : List (String × Backend)
table = ("www.example", backend "origin" 7) ∷ []

known : origin table "www.example" ≡ some (backend "origin" 7)
unfolding origin
known = refl

-- An LRU cache that never drops an entry.
abbrev unbounded : Lru
unbounded = record {
  State = String → Option ℕ;
  lookup = λ c key. (c, c key);
  insert = λ c key ref. (λ k. if str_eq key k then some ref else c k);
}

unbounded-FindsLast : FindsLast unbounded
unbounded-FindsLast c key ref = ground (arith, eq_iff key key)

abbrev calls : Calls
calls = record {
  sha256 = λ s. s;
  split_host_port = λ s. inr "missing port in address";
  read_all = λ s. inl s;
}

abbrev empty : Store unbounded
empty = record { heap = []; cache = λ k. none }

abbrev page : Object
page = record {
  status_code = 200;
  header = ("X-NCDN-PoPCache-NodeId", "shield1" ∷ []) ∷ [];
  body = "<html>";
}

nothing_yet : (cache_get unbounded empty (cache_key calls request)).1 ≡ none
unfolding cache_get
nothing_yet = refl

cache_and_fetch-MissThenHit_example :
    (one two : Object) × ((cache_and_fetch unbounded calls (λ _. ok page) empty request).1 ≡ ok one)
    × ((cache_and_fetch unbounded calls next
          (cache_and_fetch unbounded calls (λ _. ok page) empty request).0
          (record request { method = "HEAD" })).1
        ≡ ok two)
    × MissThenHit one two
cache_and_fetch-MissThenHit_example =
    cache_and_fetch-MissThenHit unbounded unbounded-FindsLast calls (λ _. ok page) next empty
      request (record request { method = "HEAD" }) page "<html>" nothing_yet refl refl refl

abbrev server : CacheServer
server = record { node_id = "edge1"; origin_lookup = table; round_tripper = λ _. ok page }

serve_http-Named_example :
    Unnamed (serve_http unbounded calls server empty request).0.heap
    × Named "edge1" (serve_http unbounded calls server empty request).1
serve_http-Named_example = serve_http-Named unbounded calls server empty request tt

abbrev entry : Entry
entry = record { node_id = "origin"; ip4 = "192.0.2.7"; hostname = "WWW.example"; port = "8888" }

abbrev lower : String → String
lower name = if str_eq name "WWW.example" then "www.example" else name

abbrev parsers : Parsers
parsers = record { parse_addr = λ a. inl (v4 7); to_lower = lower; parse_url = λ u. none }

lower_idem : (name : String) → lower (lower name) ≡ lower name
lower_idem name = elim (Bool-cases (str_eq name "WWW.example")) [
  | inl shouted ↦ rw (shouted) refl
  | inr other ↦ rw (other) (rw (other) refl)
]

parsed : parse_backends parsers (entry ∷ []) ≡ inl (backend "origin" 7 ∷ [])
unfolding parse_backends parse_backend
parsed = refl

same_table : table ≡ origin_lookup_of (backend "origin" 7 ∷ [])
unfolding add_origins put
same_table = refl

shouted_host : remove_port_from_host calls "WWW.example" ≡ "WWW.example"
unfolding remove_port_from_host
shouted_host = refl

not_lower :
    lower (remove_port_from_host calls "WWW.example") ≢ remove_port_from_host calls "WWW.example"
not_lower e =
    cc ((eq_iff "www.example" "WWW.example").1 (ap lower (sym shouted_host) ∙ e ∙ shouted_host))

serve_http-not_lower_example :
    serve_http unbounded calls server empty (record request { host = "WWW.example" })
    ≡ (empty, ok (http_error (set [] "X-NCDN-PoPCache-NodeId" "edge1") "unknown host" 404))
serve_http-not_lower_example =
    serve_http-not_lower unbounded calls parsers server (entry ∷ []) (backend "origin" 7 ∷ []) empty
      (record request { host = "WWW.example" }) lower_idem parsed same_table not_lower
