-- ===== src/Popcache/Cluster/Served.antt =====
-- `ServeHTTP` of a server of the cluster: its steps are steps of the cluster, and its answers genuine.
use Prim.Native.String.{String}
use ncdn.Base.{◌≡◌, ◌<◌, refl, inl, inr, [], ◌∷◌, Option-cases}
use ncdn.Popcache.Http.{Request, Object, Outcome, ok, err, panic, fatal}
use ncdn.Popcache.Upstream.{Backend, Net, client_request, origin, request_key, weight}
use ncdn.Popcache.Main.{Tier, edge, shield}
use ncdn.Popcache.Server.{Lru, Calls, Store, cache_key, cache_get, cache_and_fetch, serve_http}
use ncdn.Popcache.Main.{cache_server}
use ncdn.Popcache.Cluster.{
  Cluster, local, Reachable, looks, stores, Possible, unknown, from_cache, from_chain, Delivered,
}

-- The lists of the server begin with servers that have a hash above 0 for the request.
abbrev pub CanPick : Net → Tier → Request → Type 0
CanPick net (edge (s ∷ ss) (e ∷ es)) r =
    (0 < weight net (request_key r) s) × (0 < weight net (request_key r) e)
CanPick net (edge _ _) r = ⊥
CanPick net (shield (s ∷ ss)) r = 0 < weight net (request_key r) s
CanPick net (shield []) r = ⊥

module _ (L : Lru) (empty : L.State) (calls : Calls) (cluster : Cluster)
    (answers : Request → Object → Type 0) where
  open cluster use {Name, node}

  -- The outcome for `r` is a possible response, or none.
  abbrev pub IsPossible : Request → Outcome Object → Type 0
  IsPossible r (ok reply) = Possible L empty calls cluster answers r reply
  IsPossible r (err _) = Unit {0}
  IsPossible r panic = Unit {0}
  IsPossible r fatal = Unit {0}

  every :
      (r : Request) (o : Outcome Object)
      → ((reply : Object) → o ≡ ok reply → Possible L empty calls cluster answers r reply)
      → IsPossible r o
  every r (ok reply) h = h reply refl
  every r (err e) h = tt
  every r panic h = tt
  every r fatal h = tt

  -- On every branch the store stays reachable, and a reply is a possible one.
  pub serve_http-Possible :
      (n : Name) (net : Net) (s : Store L) (r : Request)
      → r.port ≡ ""
      → ((c : Backend) (r' : Request) (obj : Object)
          → net.send (client_request net c r') ≡ inl obj
          → Delivered L empty calls cluster answers net c (client_request net c r') obj)
      → Reachable L empty calls cluster answers n s
      → Reachable L empty calls cluster answers n
          (serve_http L calls (cache_server net (node n)) s r).0
        × IsPossible r (serve_http L calls (cache_server net (node n)) s r).1
  unfolding serve_http cache_and_fetch
  serve_http-Possible n net s r no_port delivered run =
      elim (Option-cases (origin (node n).origin_lookup (local calls r).host)) [
        | inl foreign ↦ rw (foreign, serve_http) (run, unknown n foreign)
        | inr (b, known) ↦ elim (Option-cases (cache_get L s (cache_key calls (local calls r))).1) [
          | inl absent ↦
              rw (known, absent, serve_http, cache_and_fetch)
                (
                  stores r b net no_port known delivered (looks r run),
                  every r _
                      (λ reply e. from_chain n _ b net no_port known delivered (looks r run) e),
                )
          | inr (obj, found) ↦
              rw (known, found, serve_http, cache_and_fetch)
                (looks r run, every r _ (λ reply e. from_cache n s b obj no_port known run found e))
        ]
      ]
