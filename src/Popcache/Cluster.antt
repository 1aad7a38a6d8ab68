-- ===== src/Popcache/Cluster.antt =====
-- A cluster of running edges and shields of popcache/cmd: which stores their caches can have, and which
-- responses a request can get. A lookup of one request and the storing of another come in any order, and
-- each sees the network as it is then: any server, or an origin, may be behind an address.
pub mod Coherent
pub mod Genuine
pub mod Caused
pub mod Served
mod Tests
use Prim.Native.String.{String}
use ncdn.Base.{◌≡◌, none, some, List, [], inl}
use ncdn.Popcache.Http.{Request, Object, Header, ok, set, http_error}
use ncdn.Popcache.Upstream.{Backend, ClientRequest, Net, concat, client_request, origin}
use ncdn.Popcache.Server.{
  Lru, Calls, Store, cache_key, cache_get, after_miss, write_reply, remove_port_from_host,
}
use ncdn.Popcache.Main.{Node, chain_of}

-- The servers, by name.
pub record Cluster : Type 1 where
  pub Name : Type 0
  pub node : Name → Node

-- `r` after `r.Host = hostname` of `ServeHTTP`.
abbrev pub local : Calls → Request → Request
local calls r = record r { host = remove_port_from_host calls r.host }

-- The object of a hit as `CacheAndFetch` returns it.
abbrev pub as_hit : Object → Object
as_hit obj = record obj { header = set obj.header "X-Cache" "HIT" }

-- The header at the beginning of `ServeHTTP`.
abbrev pub own_header : Node → Header
own_header n = set [] "X-NCDN-PoPCache-NodeId" n.node_id

-- What arrives of a request that was sent to a server: its host, the part of its URL behind the address
-- and the port, and no port, since the request line has the path only.
pub record Arrives (net : Net) (c : Backend) (sent : ClientRequest) (r : Request) : Type 0 where
  pub same_host : r.host ≡ sent.host
  pub same_url :
      sent.url
      ≡ concat "http://" (concat (net.addr_string c.ip4) (concat ":" (concat c.port r.uri)))
  pub no_port : r.port ≡ ""

module _ (L : Lru) (empty : L.State) (calls : Calls) (cluster : Cluster)
    (answers : Request → Object → Type 0) where
  open cluster use {Name, node}

  mutual
    -- The stores that the server of a name can have.
    pub data Reachable : Name → Store L → Type 0 where
      starts : (n : Name) → Reachable n (record { heap = []; cache = empty })
      looks :
          {n : Name} {s : Store L} (r : Request)
          → Reachable n s
          → Reachable n (cache_get L s (cache_key calls (local calls r))).0
      stores :
          {n : Name} {s : Store L} (r : Request) (b : Backend) (net : Net)
          → r.port ≡ ""
          → origin (node n).origin_lookup (local calls r).host ≡ some b
          → ((c : Backend) (r' : Request) (obj : Object)
              → net.send (client_request net c r') ≡ inl obj
              → Delivered net c (client_request net c r') obj)
          → Reachable n s
          → Reachable n
              (after_miss L calls s (local calls r) (
                chain_of net
                  (node n).tier
                  (node n).origin_lookup
                  (node n).node_id
                  (local calls r))).0

    -- The responses that a request for a resource can get from an origin, or from a server: an error
    -- page, an object of its cache, or what its chain brings.
    pub data Possible : Request → Object → Type 0 where
      from_origin : {r : Request} {obj : Object} → answers r obj → Possible r obj
      unknown :
          {r : Request} (n : Name)
          → origin (node n).origin_lookup (local calls r).host ≡ none
          → Possible r (http_error (own_header (node n)) "unknown host" 404)
      from_cache :
          {r : Request} {reply : Object} (n : Name) (s : Store L) (b : Backend) (obj : Object)
          → r.port ≡ ""
          → origin (node n).origin_lookup (local calls r).host ≡ some b
          → Reachable n s
          → (cache_get L s (cache_key calls (local calls r))).1 ≡ some obj
          → write_reply (own_header (node n)) (ok (as_hit obj)) ≡ ok reply
          → Possible r reply
      from_chain :
          {r : Request} {reply : Object} (n : Name) (s : Store L) (b : Backend) (net : Net)
          → r.port ≡ ""
          → origin (node n).origin_lookup (local calls r).host ≡ some b
          → ((c : Backend) (r' : Request) (obj : Object)
              → net.send (client_request net c r') ≡ inl obj
              → Delivered net c (client_request net c r') obj)
          → Reachable n s
          → write_reply
              (own_header (node n))
              (after_miss L calls s (local calls r) (
                chain_of net
                  (node n).tier
                  (node n).origin_lookup
                  (node n).node_id
                  (local calls r))).1
            ≡ ok reply
          → Possible r reply

    -- A response that a server gets for a request it sends.
    pub data Delivered : Net → Backend → ClientRequest → Object → Type 0 where
      delivers :
          {net : Net} {c : Backend} {sent : ClientRequest} {obj : Object} (r : Request)
          → Arrives net c sent r
          → Possible r obj
          → Delivered net c sent obj
