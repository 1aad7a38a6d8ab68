-- ===== src/Popcache/Main/Passes.antt =====
-- A chain of popcache/cmd makes up no response: what it returns was sent by a server, for the host and
-- the URI of the request.
use Prim.Native.String.{String}
use text.Mathlib.Text.{◌==◌ as str_eq}
use ncdn.Base.{◌≡◌, refl, ◌⊎◌, Bool-cases, Sum-cases, List, inl, inr}
use ncdn.Popcache.Http.{Header, Request, Object, ok, get, add}
use ncdn.Popcache.Main.{Tier, edge, shield, chain_of}
use ncdn.Popcache.Upstream.{
  Backend, Net, Picked, picked, nil, exits, RoundTripper, client_request, rendezvous_select,
  no_upstream, fetch, shard, forward, by_host, edge_chain, shield_chain,
}

-- A server sent `obj` for the host and the URI of `r`.
pub record Sent (net : Net) (r : Request) (obj : Object) : Type 0 where
  pub by : Backend
  pub request : Request
  pub host_kept : request.host ≡ r.host
  pub uri_kept : request.uri ≡ r.uri
  pub sent : net.send (client_request net by request) ≡ inl obj

abbrev pub Passes : Net → RoundTripper → Type 0
Passes net chain = (r : Request) (obj : Object) → chain r ≡ ok obj → Sent net r obj

pub Picked-cases : (p : Picked) → (p ≡ nil) ⊎ (p ≡ exits) ⊎ ((b : Backend) × (p ≡ picked b))
Picked-cases nil = inl refl
Picked-cases exits = inr (inl refl)
Picked-cases (picked b) = inr (inr (b, refl))

module _ (net : Net) where
  -- A request that differs in its header.
  re_headed :
      (r : Request) (h : Header) (obj : Object)
      → Sent net (record r { header = h }) obj
      → Sent net r obj
  re_headed r h obj s = record {
    by = s.by;
    request = s.request;
    host_kept = s.host_kept;
    uri_kept = s.uri_kept;
    sent = s.sent;
  }

  fetched :
      (b : Backend) (r r' : Request) (obj : Object)
      → r'.host ≡ r.host
      → r'.uri ≡ r.uri
      → fetch net b r' ≡ inl obj
      → Sent net r obj
  unfolding fetch
  fetched b r r' obj h u e = record { by = b; request = r'; host_kept = h; uri_kept = u; sent = e }

  forward-Passes :
      (next : RoundTripper) (sel : Request → Picked)
      → Passes net next
      → Passes net (forward net next sel)
  unfolding forward
  forward-Passes next sel h r obj e = elim (Picked-cases (sel r)) [
    | inl p ↦ absurd (cc (rw (p, forward) at e))
    | inr (inl p) ↦ absurd (cc (rw (p, forward) at e))
    | inr (inr (b, p)) ↦ elim (Sum-cases (fetch net b r)) [
      | inl (resp, up) ↦
          let same : resp ≡ obj = cc (rw (p, up, forward) at e) in
          fetched b r r obj refl refl (rw same at up)
      | inr (x, down) ↦ h r obj (rw (p, down, forward) at e)
    ]
  ]

  shard-Passes :
      (next : RoundTripper) (peers : List Backend) (id : String)
      → Passes net next
      → Passes net (shard net next peers id)
  unfolding shard
  shard-Passes next peers id h r obj e = elim (Bool-cases (str_eq (get r.header "X-Shard") "")) [
    | inr other ↦ re_headed r _ obj (h _ obj (rw (other, shard) at e))
    | inl same ↦ elim (Picked-cases (rendezvous_select net r peers)) [
      | inl p ↦ absurd (cc (rw (same, p, shard) at e))
      | inr (inl p) ↦ absurd (cc (rw (same, p, shard) at e))
      | inr (inr (b, p)) ↦ elim (Bool-cases (str_eq b.node_id id)) [
        | inl mine ↦ h r obj (rw (same, p, mine, shard) at e)
        | inr foreign ↦
            elim (Sum-cases (fetch net b (record r { header = add r.header "X-Shard" id }))) [
              | inl (resp, up) ↦
                  let same_obj : resp ≡ obj = cc (rw (same, p, foreign, up, shard) at e) in
                  fetched b r _ obj refl refl (rw same_obj at up)
              | inr (x, down) ↦
                  re_headed r _ obj (h _ obj (rw (same, p, foreign, down, shard) at e))
            ]
      ]
    ]
  ]

  no_upstream-Passes : Passes net no_upstream
  no_upstream-Passes r obj e = absurd (cc)

  edge_chain-Passes :
      (table : List (String × Backend)) (shields edges : List Backend) (id : String)
      → Passes net (edge_chain net table shields edges id)
  unfolding edge_chain
  edge_chain-Passes table shields edges id =
      shard-Passes _ edges id
        (forward-Passes _ _ (forward-Passes no_upstream (by_host table) no_upstream-Passes))

  shield_chain-Passes :
      (table : List (String × Backend)) (shields : List Backend) (id : String)
      → Passes net (shield_chain net table shields id)
  unfolding shield_chain
  shield_chain-Passes table shields id =
      shard-Passes _ shields id (forward-Passes no_upstream (by_host table) no_upstream-Passes)

  -- What the chain of an edge, or of a shield, returns without an error, some server sent in answer to
  -- a request for the same host and URI: no object is made on the way, and none for another resource.
  pub chain_of-Passes :
      (tier : Tier) (table : List (String × Backend)) (id : String)
      → Passes net (chain_of net tier table id)
  unfolding chain_of
  chain_of-Passes (edge shields edges) table id = edge_chain-Passes table shields edges id
  chain_of-Passes (shield shields) table id = shield_chain-Passes table shields id
