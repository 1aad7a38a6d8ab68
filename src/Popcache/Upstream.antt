-- ===== src/Popcache/Upstream.antt =====
-- Where a cache server sends what it does not have: popcache/internal/rendezvous.go, `Fetch` of
-- types.go, and `Shard`, `Forward` and `ByHost` of middleware.go. The network, the printing of an
-- address and MD5 are parameters.
pub mod Rendezvous
pub mod Chain
use Prim.Native.String
use Prim.Native.String.{String}
use text.Mathlib.Text.{◌==◌ as str_eq}
use ncdn.Base.{
  ℕ, Bool, true, false, not, Option, none, some, List, [], ◌∷◌, ◌⊎◌, inl, inr, ltb, if◌then◌else◌,
}
use ncdn.Netip.{Addr}
use ncdn.Popcache.Http.{Header, Request, Object, Outcome, ok, err, panic, fatal, get, add, del}

pub record Backend : Type 0 where
  pub node_id : String
  pub ip4 : Addr
  pub hostname : String
  pub port : String

-- A request as a client sends it.
pub record ClientRequest : Type 0 where
  pub method : String
  pub url : String
  pub host : String
  pub header : Header
  pub body : String

abbrev pub RoundTripper : Type 0
RoundTripper = Request → Outcome Object

-- What a selector returns: a backend, nil, or nothing since the process ends.
pub data Picked : Type 0 where
  picked : Backend → Picked
  nil : Picked
  exits : Picked

abbrev pub concat : String → String → String
concat = String.◌++◌

-- `r.Host + r.URL.Port() + r.URL.RequestURI()`
abbrev pub request_key : Request → String
request_key r = concat r.host (concat r.port r.uri)

-- `originLookup[host]`
unfoldable pub origin : List (String × Backend) → String → Option Backend
origin [] host = none
origin ((h, b) ∷ table) host = if str_eq h host then some b else origin table host

-- `ByHost`
unfoldable pub by_host : List (String × Backend) → Request → Picked
unfolding origin
by_host table r = elim (origin table r.host) [ none ↦ nil | some b ↦ picked b ]

-- `noUpstreamAvailable`
abbrev pub no_upstream : RoundTripper
no_upstream r = err "no upstream available"

-- What the servers see of the world while they handle a request.
pub record Net : Type 0 where
  -- `http.NewRequestWithContext`, `Transport.RoundTrip` and reading the body.
  pub send : ClientRequest → Object ⊎ String
  -- `netip.Addr.String`
  pub addr_string : Addr → String
  -- The first four bytes of the MD5 sum, as a number.
  pub hash : String → ℕ

module _ (net : Net) where
  open net use {send, addr_string, hash}

  -- `rendezvousHash(fmt.Sprintf("%s:%s", backend.NodeId, key))`
  abbrev pub weight : String → Backend → ℕ
  weight key b = hash (concat b.node_id (concat ":" key))

  -- The loop of `RendezvousSelect`.
  unfoldable pub heaviest : String → ℕ → Option Backend → List Backend → Option Backend
  heaviest key max res [] = res
  heaviest key max res (b ∷ bs) =
      heaviest key (if ltb max (weight key b) then weight key b else max)
        (if ltb max (weight key b) then some b else res) bs

  -- `RendezvousSelect`
  unfoldable pub rendezvous_select : Request → List Backend → Picked
  unfolding heaviest
  rendezvous_select r [] = exits
  rendezvous_select r (b ∷ bs) = elim (heaviest (request_key r) 0 none (b ∷ bs)) [
    | none ↦ nil
    | some c ↦ picked c
  ]

  -- The request that `Fetch` sends: the body is not passed on.
  abbrev pub client_request : Backend → Request → ClientRequest
  client_request b r = record {
    method = r.method;
    url = concat "http://" (concat (addr_string b.ip4) (concat ":" (concat b.port r.uri)));
    host = r.host;
    header = r.header;
    body = "";
  }

  -- `b.Fetch(ctx, r)`
  unfoldable pub fetch : Backend → Request → Object ⊎ String
  fetch b r = send (client_request b r)

  -- `Shard`
  unfoldable pub shard : RoundTripper → List Backend → String → RoundTripper
  shard next peers node_id r =
      if not (str_eq (get r.header "X-Shard") "")
      then next (record r { header = del r.header "X-Shard" })
      else elim (rendezvous_select r peers) [
        | exits ↦ fatal
        | nil ↦ panic
        | picked peer ↦
            if str_eq peer.node_id node_id
            then next r
            else elim (fetch peer (record r { header = add r.header "X-Shard" node_id })) [
              | inl resp ↦ ok resp
              | inr e ↦ next (record r { header = add r.header "X-Shard" node_id })
            ]
      ]

  -- `Forward`
  unfoldable pub forward : RoundTripper → (Request → Picked) → RoundTripper
  forward next sel r = elim (sel r) [
    | exits ↦ fatal
    | nil ↦ panic
    | picked upstream ↦ elim (fetch upstream r) [ inl resp ↦ ok resp | inr e ↦ next r ]
  ]

  -- The chains of popcache/cmd/popcache/main.go and popcache/cmd/shield/main.go.
  unfoldable pub shield_chain : List (String × Backend) → List Backend → String → RoundTripper
  shield_chain table shields node_id = shard (forward no_upstream (by_host table)) shields node_id

  unfoldable pub edge_chain :
      List (String × Backend) → List Backend → List Backend → String → RoundTripper
  edge_chain table shields edges node_id =
      shard (forward (forward no_upstream (by_host table)) (λ r. rendezvous_select r shields)) edges
        node_id
