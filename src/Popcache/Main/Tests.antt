-- ===== src/Popcache/Main/Tests.antt =====
-- An edge that is started from three files, and the theorem of the commands at it.
use Prim.Native.String.{String}
use ncdn.Base.{ℕ, ◌≡◌, refl, arith, Option, none, some, [], ◌∷◌, inl, inr}
use ncdn.Httprps.{new_middleware}
use ncdn.Netip.{v4}
use ncdn.Types.{PopStatus}
use ncdn.Popcache.Http.{Request}
use ncdn.Popcache.Upstream.{Backend, Net}
use ncdn.Popcache.Config.{Parsers, parse_backend, parse_backends}
use ncdn.Popcache.Server.{Lru, Calls}
use ncdn.Popcache.Main.{File, parse_file, Node, edge_main, Mux, Shared, handle}
use ncdn.Popcache.Main.Answered.{Replies, edge_main-Replies}

abbrev parsers : Parsers
parsers = record { parse_addr = λ a. inl (v4 7); to_lower = λ h. h; parse_url = λ u. none }

abbrev file : String → File
file id =
    inl (record { node_id = id; ip4 = "192.0.2.7"; hostname = "www.example"; port = "8888" } ∷ [])

abbrev backend : String → Backend
backend id = record { node_id = id; ip4 = v4 7; hostname = "www.example"; port = "8888" }

parsed : (id : String) → parse_file parsers (file id) ≡ inl (backend id ∷ [])
unfolding parse_file parse_backends parse_backend
parsed id = refl

-- A cache that keeps nothing.
abbrev forgetful : Lru
forgetful = record { State = ℕ; lookup = λ c key. (c, none); insert = λ c key ref. c }

abbrev calls : Calls
calls = record {
  sha256 = λ s. s;
  split_host_port = λ s. inr "missing port in address";
  read_all = λ s. inl s;
}

-- Every request is passed on.
abbrev mux : Mux
mux = record { path = λ r. r.uri; front = λ r. none }

abbrev net : Net
net = record { send = λ r. inr "connection refused"; addr_string = λ a. "192.0.2.7"; hash = λ s. 4 }

abbrev to_json : PopStatus ℕ → Option String
to_json s = some s.id

abbrev at_start : Shared forgetful
at_start = record { rps = new_middleware; store = record { heap = []; cache = 0 } }

abbrev request : Request
request = record {
  method = "GET";
  host = "www.example";
  port = "";
  uri = "/index.html";
  header = [];
  body = "";
}

edge_main-Replies_example :
    (n : Node) × (edge_main parsers "edge1" (file "origin") (file "edge1") (file "shield1") ≡ inl n)
    × Replies (handle to_json (λ a b. a) forgetful calls mux net n 5 at_start request).1
edge_main-Replies_example =
    edge_main-Replies to_json (λ a b. a) parsers "edge1" (file "origin") (file "edge1")
      (file "shield1") (backend "origin" ∷ []) [] [] (backend "edge1") (backend "shield1") forgetful
      calls mux net 5 at_start request (parsed "origin") (parsed "edge1") (parsed "shield1")
      (omega arith) (omega arith)
