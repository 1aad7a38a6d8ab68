-- ===== src/Popcache/Cluster/Tests.antt =====
-- A shield behind an edge, and the theorems of clusters at them.
use Prim.Native.String.{String}
use text.Mathlib.Text.{◌==◌ as str_eq}
use ncdn.Base.{ℕ, Bool, ◌≡◌, Option, none, some, List, [], ◌∷◌, inl, inr, if◌then◌else◌}
use ncdn.Netip.{v4}
use ncdn.Popcache.Http.{Request, Object}
use ncdn.Popcache.Upstream.{Backend, Net}
use ncdn.Popcache.Server.{Lru, Calls, Store}
use ncdn.Popcache.Main.{edge, shield}
use ncdn.Popcache.Cluster.{Cluster}

abbrev backend : String → ℕ → Backend
backend id ip = record { node_id = id; ip4 = v4 ip; hostname = "www.example"; port = "8888" }

abbrev hosts : List (String × Backend)
hosts = ("www.example", backend "origin" 7) ∷ []

abbrev shield1 : Backend
shield1 = backend "shield1" 5

abbrev edge1 : Backend
edge1 = backend "edge1" 1

-- The shield is named true.
abbrev two_servers : Cluster
two_servers = record {
  Name = Bool;
  node = λ is_shield.
      if is_shield
      then (record { node_id = "shield1"; origin_lookup = hosts; tier = shield (shield1 ∷ []) })
      else (record {
        node_id = "edge1";
        origin_lookup = hosts;
        tier = edge (shield1 ∷ []) (edge1 ∷ []);
      });
}

-- An LRU cache that never drops an entry.
abbrev unbounded : Lru
unbounded = record {
  State = String → Option ℕ;
  lookup = λ c key. (c, c key);
  insert = λ c key ref. (λ k. if str_eq k key then some ref else c k);
}

abbrev nothing_cached : String → Option ℕ
nothing_cached k = none

abbrev calls : Calls
calls = record {
  sha256 = λ s. s;
  split_host_port = λ s. inr "missing port in address";
  read_all = λ s. inl s;
}

-- The origin answers every request with this page.
abbrev page : Object
page = record {
  status_code = 200;
  header = ("Content-Type", "text/html" ∷ []) ∷ [];
  body = "<html>";
}

abbrev OriginSays : Request → Object → Type 0
OriginSays r obj = obj ≡ page

abbrev net : Net
net = record { send = λ r. inl page; addr_string = λ a. "192.0.2.1"; hash = λ s. 4 }

abbrev request : Request
request = record {
  method = "GET";
  host = "www.example";
  port = "";
  uri = "/index.html";
  header = [];
  body = "";
}

abbrev fresh : Store unbounded
fresh = record { heap = []; cache = nothing_cached }

-- The reply of the shield, from the origin.
abbrev reply : Object
reply = record {
  status_code = 200;
  header =
      ("X-NCDN-PoPCache-NodeId", "shield1" ∷ [])
      ∷ ("Content-Type", "text/html" ∷ [])
      ∷ ("X-Cache", "Miss" ∷ [])
      ∷ [];
  body = "<html>";
}
