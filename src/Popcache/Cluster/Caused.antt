-- ===== src/Popcache/Cluster/Caused.antt =====
-- Where the reply of `ServeHTTP` comes from.
use Prim.Native.String.{String}
use ncdn.Base.{◌≡◌, refl, sym, ap, ◌∙◌, ◌⊎◌, inl, inr, none, some, Option-cases, Sum-cases}
use ncdn.Popcache.Http.{Header, Request, Object, Outcome, ok, err, panic, fatal, add}
use ncdn.Popcache.Upstream.{Backend, Net, origin}
use ncdn.Popcache.Server.{
  Lru, Calls, Store, cache_header, cache_key, cache_get, store_response, after_miss,
  cache_and_fetch, write_reply, serve_http,
}
use ncdn.Popcache.Main.{Node, cache_server}
use ncdn.Popcache.Main.Passes.{Sent, chain_of-Passes}
use ncdn.Popcache.Main.Failed.{Failed, chain_of-FailsOnly}
use ncdn.Popcache.Cluster.{local, as_hit, own_header}

-- The reply has the status and the body of the object.
abbrev pub Shows : Object → Object → Type 0
Shows obj reply = (reply.status_code ≡ obj.status_code) × (reply.body ≡ obj.body)

-- The page of status 500, for a server that could not be reached with the request, or sent an object
-- whose body could not be read.
abbrev pub IsFailure : Calls → Net → Request → Object → Type 0
IsFailure calls net r reply =
    (reply.status_code ≡ 500)
    × (reply.body ≡ "internal server error\n")
    × (Failed net r
        ⊎ ((obj : Object) × (e : String) × Sent net r obj × (calls.read_all obj.body ≡ inr e)))

ok-injective : {a b : Object} → ok a ≡ ok b → a ≡ b
ok-injective e = cc e

module _ (L : Lru) (calls : Calls) (whole : (b b' : String) → calls.read_all b ≡ inl b' → b' ≡ b)
    (net : Net) where
  -- The reply for a request whose host is known: of the object that the cache finds; and if it finds
  -- none, of an object that a server sent for the host and the URI, or a failure.
  abbrev pub IsBrought : Store L → Request → Object → Type 0
  IsBrought s r reply =
      ((obj : Object) × ((cache_get L s (cache_key calls r)).1 ≡ some obj) × Shows obj reply)
      ⊎ (((cache_get L s (cache_key calls r)).1 ≡ none)
          × (((obj : Object) × Sent net r obj × Shows obj reply) ⊎ IsFailure calls net r reply))

  -- The page of status 404 for a host that the server does not know.
  abbrev pub IsCaused : Node → Store L → Request → Object → Type 0
  IsCaused n s r reply =
      ((origin n.origin_lookup (local calls r).host ≡ none)
        × (reply.status_code ≡ 404)
        × (reply.body ≡ "unknown host\n"))
      ⊎ ((b : Backend) × (origin n.origin_lookup (local calls r).host ≡ some b)
          × IsBrought s (local calls r) reply)

  write_reply-Shows :
      (w : Header) (obj reply : Object) → write_reply w (ok obj) ≡ ok reply → Shows obj reply
  unfolding write_reply
  write_reply-Shows w obj reply e =
      let same = ok-injective e in (ap (λ o. o.status_code) (sym same), ap (λ o. o.body) (sym same))

  after_miss-IsBrought :
      (w : Header) (s : Store L) (r : Request) (o : Outcome Object) (reply : Object)
      → ((obj : Object) → o ≡ ok obj → Sent net r obj)
      → ((e : String) → o ≡ err e → Failed net r)
      → write_reply w (after_miss L calls s r o).1 ≡ ok reply
      → ((obj : Object) × Sent net r obj × Shows obj reply) ⊎ IsFailure calls net r reply
  unfolding write_reply after_miss store_response
  after_miss-IsBrought w s r (ok resp) reply sent failed h =
      elim (Sum-cases (calls.read_all resp.body)) [
        | inl (body, read) ↦
            let shows =
              write_reply-Shows w
                (record {
                  status_code = resp.status_code;
                  header = add (cache_header resp.header) "X-Cache" "Miss";
                  body = body;
                })
                reply (rw (read, store_response) at h) in
            inl (resp, sent resp refl, (shows.0, shows.1 ∙ whole resp.body body read))
        | inr (e, bad) ↦
            let page = ok-injective (rw (bad, store_response) at h) in
            inr (
              ap (λ o. o.status_code) (sym page),
              ap (λ o. o.body) (sym page),
              inr (resp, e, sent resp refl, bad),
            )
      ]
  after_miss-IsBrought w s r (err e) reply sent failed h =
      let page = ok-injective h in
      inr (ap (λ o. o.status_code) (sym page), ap (λ o. o.body) (sym page), inl (failed e refl))
  after_miss-IsBrought w s r panic reply sent failed h = absurd (cc)
  after_miss-IsBrought w s r fatal reply sent failed h = absurd (cc)

  -- Each reply has its cause.
  pub serve_http-IsCaused :
      (n : Node) (s : Store L) (r : Request) (reply : Object)
      → (serve_http L calls (cache_server net n) s r).1 ≡ ok reply
      → IsCaused n s r reply
  unfolding serve_http cache_and_fetch
  serve_http-IsCaused n s r reply h =
      elim (Option-cases (origin n.origin_lookup (local calls r).host)) [
        | inl foreign ↦
            let page = ok-injective (rw (foreign, serve_http) at h) in
            inl (foreign, ap (λ o. o.status_code) (sym page), ap (λ o. o.body) (sym page))
        | inr (b, known) ↦ elim (Option-cases (cache_get L s (cache_key calls (local calls r))).1) [
          | inr (obj, found) ↦
              let shows =
                write_reply-Shows (own_header n) (as_hit obj) reply
                  (rw (known, found, serve_http, cache_and_fetch) at h) in
              inr (b, known, inl (obj, found, shows))
          | inl absent ↦ inr (
            b,
            known,
            inr (
              absent,
              after_miss-IsBrought (own_header n) _ (local calls r) _ reply
                  (chain_of-Passes net n.tier n.origin_lookup n.node_id (local calls r))
                  (chain_of-FailsOnly net n.tier n.origin_lookup n.node_id (local calls r))
                  (rw (known, absent, serve_http, cache_and_fetch) at h),
            ),
          )
        ]
      ]
