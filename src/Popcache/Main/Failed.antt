-- ===== src/Popcache/Main/Failed.antt =====
-- A chain of popcache/cmd returns an error only after a request that it sent has failed.
use Prim.Native.String.{String}
use text.Mathlib.Text.{◌==◌ as str_eq}
use ncdn.Base.{◌≡◌, refl, List, inl, inr, Bool-cases, Sum-cases}
use ncdn.Popcache.Http.{Request, err, get, add, del}
use ncdn.Popcache.Main.{Tier, edge, shield, chain_of}
use ncdn.Popcache.Main.Passes.{Picked-cases}
use ncdn.Popcache.Upstream.{
  Backend, Net, Picked, RoundTripper, client_request, rendezvous_select, fetch, shard, forward,
  edge_chain, shield_chain,
}

-- A server could not be reached with a request for the host and the URI of `r`.
abbrev pub Failed : Net → Request → Type 0
Failed net r =
    (b : Backend) × (r' : Request) × (e : String) × (r'.host ≡ r.host)
    × (r'.uri ≡ r.uri)
    × (net.send (client_request net b r') ≡ inr e)

abbrev pub FailsOnly : Net → RoundTripper → Type 0
FailsOnly net chain = (r : Request) (e : String) → chain r ≡ err e → Failed net r

module _ (net : Net) where
  fetch-Failed : (b : Backend) (r : Request) (e : String) → fetch net b r ≡ inr e → Failed net r
  unfolding fetch
  fetch-Failed b r e down = (b, r, e, refl, refl, down)

  forward-FailsOnly :
      (next : RoundTripper) (sel : Request → Picked) → FailsOnly net (forward net next sel)
  unfolding forward
  forward-FailsOnly next sel r e h = elim (Picked-cases (sel r)) [
    | inl p ↦ absurd (cc (rw (p, forward) at h))
    | inr (inl p) ↦ absurd (cc (rw (p, forward) at h))
    | inr (inr (b, p)) ↦ elim (Sum-cases (fetch net b r)) [
      | inl (resp, up) ↦ absurd (cc (rw (p, up, forward) at h))
      | inr (x, down) ↦ fetch-Failed b r x down
    ]
  ]

  shard-FailsOnly :
      (next : RoundTripper) (peers : List Backend) (id : String)
      → FailsOnly net next
      → FailsOnly net (shard net next peers id)
  unfolding shard
  shard-FailsOnly next peers id below r e h =
      elim (Bool-cases (str_eq (get r.header "X-Shard") "")) [
        | inr other ↦
            below (record r { header = del r.header "X-Shard" }) e (rw (other, shard) at h)
        | inl same ↦ elim (Picked-cases (rendezvous_select net r peers)) [
          | inl p ↦ absurd (cc (rw (same, p, shard) at h))
          | inr (inl p) ↦ absurd (cc (rw (same, p, shard) at h))
          | inr (inr (b, p)) ↦ elim (Bool-cases (str_eq b.node_id id)) [
            | inl mine ↦ below r e (rw (same, p, mine, shard) at h)
            | inr foreign ↦
                elim (Sum-cases (fetch net b (record r { header = add r.header "X-Shard" id }))) [
                  | inl (resp, up) ↦ absurd (cc (rw (same, p, foreign, up, shard) at h))
                  | inr (x, down) ↦ fetch-Failed b _ x down
                ]
          ]
        ]
      ]

  pub chain_of-FailsOnly :
      (tier : Tier) (table : List (String × Backend)) (id : String)
      → FailsOnly net (chain_of net tier table id)
  unfolding chain_of edge_chain shield_chain
  chain_of-FailsOnly (edge shields edges) table id =
      shard-FailsOnly _ edges id (forward-FailsOnly _ _)
  chain_of-FailsOnly (shield shields) table id =
      shard-FailsOnly _ shields id (forward-FailsOnly _ _)
