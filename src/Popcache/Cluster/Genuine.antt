-- ===== src/Popcache/Cluster/Genuine.antt =====
-- What the caches of a cluster hold and what its servers answer, in every order of the steps.
use Prim.Native.String.{String}
use text.Mathlib.TextLemmas.{append_cancel_left}
use ncdn.Base.{◌≡◌, refl, sym, ap, ◌∙◌, subst, some-injective, some, inl, inr, Option-cases}
use ncdn.Popcache.Http.{Request, Object, Outcome, ok, err, panic, fatal}
use ncdn.Popcache.Upstream.{Backend, ClientRequest, Net, client_request, origin}
use ncdn.Popcache.Server.{Lru, Calls, Store, cache_get, remove_port_from_host}
use ncdn.Popcache.Main.{chain_of}
use ncdn.Popcache.Main.Passes.{chain_of-Passes}
use ncdn.Popcache.Cluster.{
  Cluster, local, as_hit, own_header, Arrives, Reachable, starts, looks, stores, Possible,
  from_origin, unknown, from_cache, from_chain, Delivered, delivers,
}
use ncdn.Popcache.Cluster.Coherent.{
  IsCache, digest, IsCoherent, IsGenuine, IsGenuine-same, IsFine, write_reply-IsFine,
  after_miss-IsFine,
}

-- The hosts of every table are without a port, as `RemovePortFromHost` reads them.
abbrev pub KnowsPlainHosts : Calls → Cluster → Type 0
KnowsPlainHosts calls cluster =
    (n : cluster.Name) (host : String) (b : Backend)
    → origin (cluster.node n).origin_lookup host ≡ some b
    → remove_port_from_host calls host ≡ host

module _ (L : Lru) (empty : L.State) (calls : Calls) (cluster : Cluster)
    (answers : Request → Object → Type 0) (laws : IsCache L empty)
    (whole : (b b' : String) → calls.read_all b ≡ inl b' → b' ≡ b)
    (plain : KnowsPlainHosts calls cluster) where
  open cluster use {Name, node}

  -- The digest for the host and URI of a request on its way.
  abbrev sent_digest : Request → String
  sent_digest r = digest calls (record r { port = "" })

  digest-sent :
      (r r' : Request)
      → remove_port_from_host calls (local calls r).host ≡ (local calls r).host
      → r.port ≡ ""
      → r'.host ≡ (local calls r).host
      → r'.uri ≡ r.uri
      → sent_digest r' ≡ digest calls r
  digest-sent r r' plain_host no_port h u = rw (h, u, no_port, plain_host) refl

  digest-Arrives :
      (net : Net) (c : Backend) (sent : ClientRequest) (r r' : Request)
      → sent ≡ client_request net c r
      → Arrives net c sent r'
      → digest calls r' ≡ sent_digest r
  digest-Arrives net c sent r r' e a =
      let host : r'.host ≡ r.host = a.same_host ∙ ap (λ x. x.host) e in
      let url = ap (λ x. x.url) (sym e) ∙ a.same_url in
      let uri : r.uri ≡ r'.uri = append_cancel_left c.port r.uri r'.uri (
        append_cancel_left ":" _ _ (
          append_cancel_left (net.addr_string c.ip4) _ _ (append_cancel_left "http://" _ _ url))) in
      rw (host, sym uri, a.no_port) refl

  fine :
      {key : String} (o : Outcome Object)
      → ((obj : Object) → o ≡ ok obj → IsGenuine calls answers key obj)
      → IsFine calls answers key o
  fine (ok obj) h = h obj refl
  fine (err e) h = tt
  fine panic h = tt
  fine fatal h = tt

  chain_of-IsFine :
      (n : Name) (r : Request) (b : Backend) (net : Net)
      → r.port ≡ ""
      → origin (node n).origin_lookup (local calls r).host ≡ some b
      → ((c : Backend) (r' : Request) (obj : Object)
          → net.send (client_request net c r') ≡ inl obj
          → IsGenuine calls answers (sent_digest r') obj)
      → IsFine calls answers
          (digest calls r)
          (chain_of net (node n).tier (node n).origin_lookup (node n).node_id (local calls r))
  chain_of-IsFine n r b net no_port known h =
      let chain = chain_of net (node n).tier (node n).origin_lookup (node n).node_id in
      fine (chain (local calls r)) (λ obj e.
        let s =
          chain_of-Passes net (node n).tier (node n).origin_lookup (node n).node_id (local calls r)
            obj e in
        subst (λ k. IsGenuine calls answers k obj)
          (digest-sent r s.request (plain n (local calls r).host b known) no_port s.host_kept
            s.uri_kept)
          (h s.by s.request obj s.sent))

  cache_get-IsGenuine :
      (s : Store L) (key : String) (obj : Object)
      → IsCoherent calls answers s
      → (cache_get L s key).1 ≡ some obj
      → IsGenuine calls answers key obj
  unfolding cache_get
  cache_get-IsGenuine s key obj h e = elim (Option-cases (L.lookup s.cache key).1) [
    | inl absent ↦ absurd (cc (rw (absent, cache_get) at e))
    | inr (ref, found) ↦
        let (held, in_heap, genuine) = h key ref found in
        let same : held ≡ obj = some-injective (sym in_heap ∙ rw (found, cache_get) at e) in
        subst (IsGenuine calls answers key) same genuine
  ]

  cache_get-IsCoherent :
      (s : Store L) (key : String)
      → IsCoherent calls answers s
      → IsCoherent calls answers (cache_get L s key).0
  unfolding cache_get
  cache_get-IsCoherent s key h k ref found = h k ref (laws.after_lookup s.cache key k ref found)

  mutual
    Reachable-IsCoherent :
        (n : Name) (s : Store L)
        → Reachable L empty calls cluster answers n s
        → IsCoherent calls answers s
    Reachable-IsCoherent n s (starts _) = λ k ref found. absurd (cc (laws.nothing k))
    Reachable-IsCoherent n s (looks {s = s'} r run) =
        cache_get-IsCoherent s' _ (Reachable-IsCoherent n s' run)
    Reachable-IsCoherent n s (stores {s = s'} r b net no_port known net_ok run) =
        (after_miss-IsFine calls answers laws whole s' (local calls r) _
          (Reachable-IsCoherent n s' run)
          (chain_of-IsFine n r b net no_port known
            (λ c r' obj e. Delivered-IsGenuine net c _ r' obj refl (net_ok c r' obj e)))).0

    Possible-IsGenuine :
        (r : Request) (obj : Object)
        → Possible L empty calls cluster answers r obj
        → IsGenuine calls answers (digest calls r) obj
    Possible-IsGenuine r obj (from_origin a) = inl (record {
      asked = r;
      answer = obj;
      answered = a;
      same_key = refl;
      same_status = refl;
      same_body = refl;
    })
    Possible-IsGenuine r obj (unknown n e) = inr (inl (refl, refl))
    Possible-IsGenuine r reply (from_cache n s b obj no_port known run found e) =
        subst (IsFine calls answers (digest calls r)) e (
          write_reply-IsFine calls answers (own_header (node n)) _ (ok (as_hit obj)) (
            IsGenuine-same calls answers _ obj (as_hit obj) refl refl
              (cache_get-IsGenuine s _ obj (Reachable-IsCoherent n s run) found)))
    Possible-IsGenuine r reply (from_chain n s b net no_port known net_ok run e) =
        subst (IsFine calls answers (digest calls r)) e (
          write_reply-IsFine calls answers (own_header (node n)) _ _
            (after_miss-IsFine calls answers laws whole s (local calls r) _
              (Reachable-IsCoherent n s run)
              (chain_of-IsFine n r b net no_port known
                (λ c r' obj e. Delivered-IsGenuine net c _ r' obj refl (net_ok c r' obj e)))).1)

    Delivered-IsGenuine :
        (net : Net) (c : Backend) (sent : ClientRequest) (r : Request) (obj : Object)
        → sent ≡ client_request net c r
        → Delivered L empty calls cluster answers net c sent obj
        → IsGenuine calls answers (sent_digest r) obj
    Delivered-IsGenuine net c sent r obj e (delivers r' a p) =
        subst (λ k. IsGenuine calls answers k obj) (digest-Arrives net c sent r r' e a)
          (Possible-IsGenuine r' obj p)
