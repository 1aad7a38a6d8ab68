-- ===== src/Popcache/Upstream/Chain.antt =====
-- The tiers of cache servers: a request takes one hop inside a tier, and ends in a response or an
-- error.
use Prim.Native.String.{String}
use text.Mathlib.Text.{◌==◌ as str_eq}
use text.Mathlib.TextEquality.{eq_iff}
use ncdn.Base.{
  ◌<◌, ◌≡◌, ◌≢◌, refl, false, none, some, List, [], ◌∷◌, inl, inr, arith, Bool-cases, Sum-cases,
}
use ncdn.Popcache.Http.{
  Header, Request, Object, Outcome, ok, err, panic, fatal, get, add, del, values, values-add,
  values-del,
}
use ncdn.Popcache.Upstream.{
  Net, Backend, Picked, picked, RoundTripper, request_key, weight, rendezvous_select, fetch, shard,
  forward, origin, by_host, edge_chain, shield_chain,
}
use ncdn.Popcache.Upstream.Rendezvous.{heaviest_cases}

-- `r` as a server sends it to a peer.
abbrev pub marked : Request → String → Request
marked r node_id = record r { header = add r.header "X-Shard" node_id }

-- `r` without the mark of a peer.
abbrev pub unmarked : Request → Request
unmarked r = record r { header = del r.header "X-Shard" }

get-marked :
    (h : Header) (v : String) → values h "X-Shard" ≡ [] → get (add h "X-Shard" v) "X-Shard" ≡ v
unfolding get
get-marked h v absent = rw (values-add h "X-Shard" "X-Shard" v, absent) refl

str_eq-false : {s t : String} → s ≢ t → str_eq s t ≡ false
str_eq-false {s = s} {t = t} apart = ground (arith, eq_iff s t)

shard-marked :
    (net : Net) (next : RoundTripper) (peers : List Backend) (id sender : String) (r : Request)
    → sender ≢ ""
    → values r.header "X-Shard" ≡ []
    → shard net next peers id (marked r sender) ≡ next (unmarked (marked r sender))
unfolding shard
shard-marked net next peers id sender r named absent =
    rw (get-marked r.header sender absent, str_eq-false named, shard) refl

-- A request that a server sends to a peer goes to the next tier of the peer, whatever the peer's own
-- list says, and with the header values that the client sent.
pub shard-one_hop :
    (net : Net) (next : RoundTripper) (peers : List Backend) (id sender : String) (r : Request)
    → sender ≢ ""
    → values r.header "X-Shard" ≡ []
    → (h : Header) × ((j : String) → values h j ≡ values r.header j)
      × (shard net next peers id (marked r sender) ≡ next (record r { header = h }))
shard-one_hop net next peers id sender r named absent = (
  del (add r.header "X-Shard" sender) "X-Shard",
  (λ j.
      rw
        (
          values-del (add r.header "X-Shard" sender) "X-Shard" j,
          values-add r.header "X-Shard" j sender,
        )
        (ground (arith, eq_iff "X-Shard" j, absent))),
  shard-marked net next peers id sender r named absent,
)

-- A response or an error: no nil dereference, and the process goes on.
abbrev pub Answers : Outcome Object → Type 0
Answers (ok _) = Unit {0}
Answers (err _) = Unit {0}
Answers panic = ⊥
Answers fatal = ⊥

rendezvous_select-total :
    (net : Net) (r : Request) (b : Backend) (bs : List Backend)
    → 0 < weight net (request_key r) b
    → (c : Backend) × (rendezvous_select net r (b ∷ bs) ≡ picked c)
unfolding rendezvous_select
rendezvous_select-total net r b bs above =
    elim (heaviest_cases net (request_key r) (b ∷ bs) 0 none) [
      | inl (low, _) ↦ absurd (ground (arith, low.0))
      | inr (c, _, found) ↦ (c, rw (found, rendezvous_select) refl)
    ]

forward-Answers :
    (net : Net) (next : RoundTripper) (sel : Request → Picked) (r : Request) (b : Backend)
    → sel r ≡ picked b
    → Answers (next r)
    → Answers (forward net next sel r)
unfolding forward
forward-Answers net next sel r b chosen h = elim (Sum-cases (fetch net b r)) [
  | inl (resp, up) ↦ rw (chosen, up, forward) tt
  | inr (e, down) ↦ rw (chosen, down, forward) h
]

shard-Answers :
    (net : Net) (next : RoundTripper) (peers : List Backend) (id : String) (r : Request)
    (peer : Backend)
    → rendezvous_select net r peers ≡ picked peer
    → ((h : Header) → Answers (next (record r { header = h })))
    → Answers (shard net next peers id r)
unfolding shard
shard-Answers net next peers id r peer chosen h =
    elim (Bool-cases (str_eq (get r.header "X-Shard") "")) [
      | inl same ↦ elim (Bool-cases (str_eq peer.node_id id)) [
        | inl mine ↦ rw (same, chosen, mine, shard) (h r.header)
        | inr other ↦ elim (Sum-cases (fetch net peer (marked r id))) [
          | inl (resp, up) ↦ rw (same, chosen, other, up, shard) tt
          | inr (e, down) ↦ rw (same, chosen, other, down, shard) (h _)
        ]
      ]
      | inr other ↦ rw (other, shard) (h _)
    ]

by_host-origin :
    (table : List (String × Backend)) (r : Request) (b : Backend)
    → origin table r.host ≡ some b
    → by_host table r ≡ picked b
unfolding by_host
by_host-origin table r b e = rw (e, by_host) refl

-- For a host that the table knows, an edge with an edge list and a shield list that are not empty and
-- begin with servers of a hash above 0 answers every request with a response or an error: no selector
-- returns nil, and the process goes on.
pub edge_chain-Answers :
    (net : Net) (table : List (String × Backend)) (shield edge b : Backend)
    (shields edges : List Backend) (id : String) (r : Request)
    → 0 < weight net (request_key r) shield
    → 0 < weight net (request_key r) edge
    → origin table r.host ≡ some b
    → Answers (edge_chain net table (shield ∷ shields) (edge ∷ edges) id r)
unfolding edge_chain rendezvous_select
edge_chain-Answers net table shield edge b shields edges id r up up' known =
    let peer = rendezvous_select-total net r edge edges up' in
    let upper = rendezvous_select-total net r shield shields up in
    shard-Answers net _ (edge ∷ edges) id r peer.0 peer.1 (λ h.
      forward-Answers net _ _ (record r { header = h }) upper.0 upper.1
        (forward-Answers net _ _ (record r { header = h }) b (by_host-origin table _ b known) tt))

-- The same of a shield and its list.
pub shield_chain-Answers :
    (net : Net) (table : List (String × Backend)) (shield b : Backend) (shields : List Backend)
    (id : String) (r : Request)
    → 0 < weight net (request_key r) shield
    → origin table r.host ≡ some b
    → Answers (shield_chain net table (shield ∷ shields) id r)
unfolding shield_chain rendezvous_select
shield_chain-Answers net table shield b shields id r up known =
    let peer = rendezvous_select-total net r shield shields up in
    shard-Answers net _ (shield ∷ shields) id r peer.0 peer.1
      (λ h. forward-Answers net _ _ (record r { header = h }) b (by_host-origin table _ b known) tt)
