-- ===== src/Popcache/Main/Answered.antt =====
-- A started edge answers every request.
use Prim.Native.String.{String}
use text.Mathlib.Text.{◌==◌ as str_eq}
use ncdn.Base.{
  ℕ, ◌<◌, ◌≡◌, refl, some, List, ◌∷◌, inl, inr, Option, Option-cases, Sum-cases, Bool-cases,
}
use ncdn.Types.{PopStatus}
use ncdn.Popcache.Http.{Header, Request, Object, Outcome, ok, err, panic, fatal}
use ncdn.Popcache.Upstream.{Backend, Net, RoundTripper, request_key, weight, origin}
use ncdn.Popcache.Upstream.Chain.{Answers, edge_chain-Answers}
use ncdn.Popcache.Config.{Parsers, origin_lookup_of}
use ncdn.Popcache.Server.{
  Lru, Calls, Store, CacheServer, cache_key, cache_get, store_response, after_miss, cache_and_fetch,
  write_reply, remove_port_from_host, serve_http,
}
use ncdn.Popcache.Main.{
  File, parse_file, Node, edge, chain_of, edge_main, Mux, Shared, cache_server, handle,
}

-- A response was written.
abbrev pub Replies : Outcome Object → Type 0
Replies o = (obj : Object) × (o ≡ ok obj)

write_reply-Replies : (w : Header) (o : Outcome Object) → Answers o → Replies (write_reply w o)
unfolding write_reply
write_reply-Replies w (ok obj) a = (_, refl)
write_reply-Replies w (err e) a = (_, refl)
write_reply-Replies w panic a = absurd a
write_reply-Replies w fatal a = absurd a

after_miss-Answers :
    (L : Lru) (calls : Calls) (s : Store L) (r : Request) (o : Outcome Object)
    → Answers o
    → Answers (after_miss L calls s r o).1
unfolding after_miss store_response
after_miss-Answers L calls s r (ok resp) a = elim (Sum-cases (calls.read_all resp.body)) [
  | inl (body, read) ↦ rw (read, store_response) tt
  | inr (e, failed) ↦ rw (failed, store_response) tt
]
after_miss-Answers L calls s r (err e) a = tt
after_miss-Answers L calls s r panic a = a
after_miss-Answers L calls s r fatal a = a

cache_and_fetch-Answers :
    (L : Lru) (calls : Calls) (next : RoundTripper) (s : Store L) (r : Request)
    → Answers (next r)
    → Answers (cache_and_fetch L calls next s r).1
unfolding cache_and_fetch
cache_and_fetch-Answers L calls next s r a =
    elim (Option-cases (cache_get L s (cache_key calls r)).1) [
      | inl absent ↦ rw (absent, cache_and_fetch) (after_miss-Answers L calls _ r (next r) a)
      | inr (obj, found) ↦ rw (found, cache_and_fetch) tt
    ]

pub serve_http-Replies :
    (L : Lru) (calls : Calls) (c : CacheServer) (s : Store L) (r : Request)
    → ((b : Backend)
        → origin c.origin_lookup (remove_port_from_host calls r.host) ≡ some b
        → Answers (c.round_tripper (record r { host = remove_port_from_host calls r.host })))
    → Replies (serve_http L calls c s r).1
unfolding serve_http
serve_http-Replies L calls c s r h =
    elim (Option-cases (origin c.origin_lookup (remove_port_from_host calls r.host))) [
      | inl unknown ↦ rw (unknown, serve_http) (_, refl)
      | inr (b, known) ↦
          rw (known, serve_http)
            (write_reply-Replies _ _
              (cache_and_fetch-Answers L calls c.round_tripper s _ (h b known)))
    ]

module _ {F : Type 0} (to_json : PopStatus F → Option String) (divide : ℕ → ℕ → F) where
  handle-Replies :
      (L : Lru) (calls : Calls) (mux : Mux) (net : Net) (n : Node) (uptime : F) (s : Shared L)
      (r : Request)
      → Replies (serve_http L calls (cache_server net n) s.store r).1
      → Replies (handle to_json divide L calls mux net n uptime s r).1
  unfolding handle
  handle-Replies L calls mux net n uptime s r h = elim (Option-cases (mux.front r)) [
    | inr (obj, moved) ↦ rw (moved, handle) (obj, refl)
    | inl stays ↦ elim (Bool-cases (str_eq (mux.path r) "/statusz")) [
      | inl status ↦ rw (stays, status, handle) (_, refl)
      | inr other ↦ elim (Bool-cases (str_eq (mux.path r) "/latencyz")) [
        | inl latency ↦ rw (stays, other, latency, handle) (_, refl)
        | inr cached ↦ rw (stays, other, cached, handle) h
      ]
    ]
  ]

  -- When the three files of an edge can be read and parsed, and the first edge and the first shield
  -- have a hash above 0 for the key of a request, the edge starts and answers the request with a
  -- response, from every state of its cache and whatever the network does: the process neither
  -- dereferences nil nor ends.
  pub edge_main-Replies :
      (p : Parsers) (id : String) (origins edges shields : File) (os es ss : List Backend)
      (e s : Backend) (L : Lru) (calls : Calls) (mux : Mux) (net : Net) (uptime : F)
      (shared : Shared L) (r : Request)
      → parse_file p origins ≡ inl os
      → parse_file p edges ≡ inl (e ∷ es)
      → parse_file p shields ≡ inl (s ∷ ss)
      → 0 < weight net (request_key (record r { host = remove_port_from_host calls r.host })) e
      → 0 < weight net (request_key (record r { host = remove_port_from_host calls r.host })) s
      → (n : Node) × (edge_main p id origins edges shields ≡ inl n)
        × Replies (handle to_json divide L calls mux net n uptime shared r).1
  unfolding edge_main chain_of
  edge_main-Replies p id origins edges shields os es ss e s L calls mux net uptime shared r po pe ps
        above above' =
      (
        record { node_id = id; origin_lookup = origin_lookup_of os; tier = edge (s ∷ ss) (e ∷ es) },
        rw (po, pe, ps, edge_main) refl,
        handle-Replies L calls mux net _ uptime shared r (
            serve_http-Replies L calls _ shared.store r (λ b known.
              edge_chain-Answers net (origin_lookup_of os) s e b ss es id _ above' above known)),
      )
