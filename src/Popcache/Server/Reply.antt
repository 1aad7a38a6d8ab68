-- ===== src/Popcache/Server/Reply.antt =====
-- What every reply of a cache server has: its own name, and only its own.
use Prim.Native.String.{String}
use text.Mathlib.Text.{◌==◌ as str_eq}
use ncdn.Base.{
  ℕ, zero, suc, ◌≡◌, refl, ◌∙◌, false, Bool-cases, some, Option-cases, Sum-cases, List, [], ◌∷◌,
  ◌++◌, inl, inr, length, get_elem?, set as write,
}
use ncdn.Popcache.Http.{
  Header, Request, Object, Outcome, ok, err, panic, fatal, set, add, del, values, values-add,
}
use ncdn.Popcache.Upstream.{RoundTripper, origin}
use ncdn.Popcache.Server.{
  Lru, Calls, Store, cache_key, cache_get, cache_put, store_response, after_miss, cache_and_fetch,
  cache_header, add_values, add_all, write_reply, CacheServer, serve_http, remove_port_from_host,
}

-- No entry of the header has the name `k`.
abbrev pub Lacks : String → Header → Type 0
Lacks k [] = Unit {0}
Lacks k ((j, vs) ∷ h) = (str_eq j k ≡ false) × Lacks k h

Lacks-del : (k j : String) (h : Header) → Lacks k h → Lacks k (del h j)
unfolding del
Lacks-del k j [] l = tt
Lacks-del k j ((i, vs) ∷ h) l = elim (Bool-cases (str_eq i j)) [
  | inl same ↦ rw (same, del) (Lacks-del k j h l.1)
  | inr other ↦ rw (other, del) (l.0, Lacks-del k j h l.1)
]

Lacks-del_self : (k : String) (h : Header) → Lacks k (del h k)
unfolding del
Lacks-del_self k [] = tt
Lacks-del_self k ((i, vs) ∷ h) = elim (Bool-cases (str_eq i k)) [
  | inl same ↦ rw (same, del) (Lacks-del_self k h)
  | inr other ↦ rw (other, del) (other, Lacks-del_self k h)
]

Lacks-set : (k j v : String) (h : Header) → str_eq j k ≡ false → Lacks k h → Lacks k (set h j v)
unfolding set
Lacks-set k j v [] e l = (e, tt)
Lacks-set k j v ((i, vs) ∷ h) e l = elim (Bool-cases (str_eq i j)) [
  | inl same ↦ rw (same, set) l
  | inr other ↦ rw (other, set) (l.0, Lacks-set k j v h e l.1)
]

Lacks-add : (k j v : String) (h : Header) → str_eq j k ≡ false → Lacks k h → Lacks k (add h j v)
unfolding add
Lacks-add k j v [] e l = (e, tt)
Lacks-add k j v ((i, vs) ∷ h) e l = elim (Bool-cases (str_eq i j)) [
  | inl same ↦ rw (same, add) l
  | inr other ↦ rw (other, add) (l.0, Lacks-add k j v h e l.1)
]

values-add_values :
    (k j : String) (w : Header) (vs : List String)
    → str_eq j k ≡ false
    → values (add_values w j vs) k ≡ values w k
unfolding add_values
values-add_values k j w [] e = refl
values-add_values k j w (v ∷ vs) e =
    values-add_values k j (add w j v) vs e ∙ rw (values-add w j k v, e) refl

values-add_all : (k : String) (h w : Header) → Lacks k h → values (add_all w h) k ≡ values w k
unfolding add_all
values-add_all k [] w l = refl
values-add_all k ((j, vs) ∷ h) w l =
    values-add_all k h (add_values w j vs) l.1 ∙ values-add_values k j w vs l.0

abbrev pub node_id_header : String
node_id_header = "X-NCDN-PoPCache-NodeId"

-- Every stored object lacks the name of a server.
abbrev pub Unnamed : List Object → Type 0
Unnamed [] = Unit {0}
Unnamed (obj ∷ heap) = Lacks node_id_header obj.header × Unnamed heap

Unnamed-get :
    (heap : List Object) (ref : ℕ) (obj : Object)
    → Unnamed heap
    → get_elem? heap ref ≡ some obj
    → Lacks node_id_header obj.header
Unnamed-get [] ref obj u e = absurd (cc)
Unnamed-get (a ∷ heap) zero obj u e = let same : obj ≡ a = cc in rw same u.0
Unnamed-get (a ∷ heap) (suc ref) obj u e = Unnamed-get heap ref obj u.1 e

Unnamed-write_last :
    (heap : List Object) (a b : Object)
    → Unnamed heap
    → Lacks node_id_header b.header
    → Unnamed (write (heap ++ (a ∷ [])) (length heap) b)
Unnamed-write_last [] a b u l = (l, tt)
Unnamed-write_last (x ∷ heap) a b u l = (u.0, Unnamed-write_last heap a b u.1 l)

-- A result names no server.
abbrev pub OutcomeLacks : Outcome Object → Type 0
OutcomeLacks (ok obj) = Lacks node_id_header obj.header
OutcomeLacks (err _) = Unit {0}
OutcomeLacks panic = Unit {0}
OutcomeLacks fatal = Unit {0}

-- A reply carries the name `id`, and no other.
abbrev pub Named : String → Outcome Object → Type 0
Named id (ok obj) = values obj.header node_id_header ≡ id ∷ []
Named id (err _) = Unit {0}
Named id panic = Unit {0}
Named id fatal = Unit {0}

cache_header-Lacks : (h : Header) → Lacks node_id_header (cache_header h)
cache_header-Lacks h =
    Lacks-del node_id_header "X-NCDN-Shield-NodeId" _
      (Lacks-del_self node_id_header (del h "X-Cache"))

store_response-Unnamed :
    (L : Lru) (calls : Calls) (s : Store L) (r : Request) (resp : Object)
    → Unnamed s.heap
    → Unnamed (store_response L calls s r resp).0.heap
      × OutcomeLacks (store_response L calls s r resp).1
unfolding store_response cache_put
store_response-Unnamed L calls s r resp u = elim (Sum-cases (calls.read_all resp.body)) [
  | inl (body, read) ↦
      let named =
        Lacks-add node_id_header "X-Cache" "Miss" _ refl (cache_header-Lacks resp.header) in
      rw (read, store_response) (Unnamed-write_last s.heap _ _ u named, named)
  | inr (e, read) ↦ rw (read, store_response) (u, tt)
]

after_miss-Unnamed :
    (L : Lru) (calls : Calls) (s : Store L) (r : Request) (o : Outcome Object)
    → Unnamed s.heap
    → Unnamed (after_miss L calls s r o).0.heap × OutcomeLacks (after_miss L calls s r o).1
unfolding after_miss
after_miss-Unnamed L calls s r (ok resp) u = store_response-Unnamed L calls s r resp u
after_miss-Unnamed L calls s r (err e) u = (u, tt)
after_miss-Unnamed L calls s r panic u = (u, tt)
after_miss-Unnamed L calls s r fatal u = (u, tt)

cache_get-Lacks :
    (L : Lru) (s : Store L) (key : String) (obj : Object)
    → Unnamed s.heap
    → (cache_get L s key).1 ≡ some obj
    → Lacks node_id_header obj.header
unfolding cache_get
cache_get-Lacks L s key obj u e = elim (Option-cases (L.lookup s.cache key).1) [
  | inl absent ↦ absurd (cc (rw (absent, cache_get) at e))
  | inr (ref, found) ↦ Unnamed-get s.heap ref obj u (rw (found, cache_get) at e)
]

cache_and_fetch-Unnamed :
    (L : Lru) (calls : Calls) (next : RoundTripper) (s : Store L) (r : Request)
    → Unnamed s.heap
    → Unnamed (cache_and_fetch L calls next s r).0.heap
      × OutcomeLacks (cache_and_fetch L calls next s r).1
unfolding cache_and_fetch cache_get
cache_and_fetch-Unnamed L calls next s r u =
    elim (Option-cases (cache_get L s (cache_key calls r)).1) [
      | inl absent ↦
          rw (absent, cache_and_fetch)
            (after_miss-Unnamed L calls (cache_get L s (cache_key calls r)).0 r (next r) u)
      | inr (obj, found) ↦
          rw (found, cache_and_fetch)
            (
              u,
              Lacks-set node_id_header "X-Cache" "HIT" obj.header refl
                  (cache_get-Lacks L s _ obj u found),
            )
    ]

write_reply-Named :
    (id : String) (o : Outcome Object)
    → OutcomeLacks o
    → Named id (write_reply (set [] node_id_header id) o)
unfolding write_reply values set
write_reply-Named id (ok obj) l = values-add_all node_id_header obj.header _ l ∙ refl
write_reply-Named id (err e) l = refl
write_reply-Named id panic l = tt
write_reply-Named id fatal l = tt

-- While no stored object names a server, every request leaves it so, and the reply, whether from the
-- cache, from the next tier, or an error page, carries the name of this server and no other, even
-- when the next tier's response names itself.
pub serve_http-Named :
    (L : Lru) (calls : Calls) (c : CacheServer) (s : Store L) (r : Request)
    → Unnamed s.heap
    → Unnamed (serve_http L calls c s r).0.heap × Named c.node_id (serve_http L calls c s r).1
unfolding serve_http values set
serve_http-Named L calls c s r u =
    let r' : Request = record r { host = remove_port_from_host calls r.host } in
    elim (Option-cases (origin c.origin_lookup r'.host)) [
      | inl unknown ↦ rw (unknown, serve_http) (u, refl)
      | inr (b, known) ↦
          let (kept, named) = cache_and_fetch-Unnamed L calls c.round_tripper s r' u in
          rw (known, serve_http) (kept, write_reply-Named c.node_id _ named)
    ]
