-- ===== src/Popcache/Server/Reuse.antt =====
-- A response that was fetched once is served from the cache.
use Prim.Native.String.{String}
use text.Mathlib.TextEquality.{eq_iff}
use ncdn.Base.{
  ℕ, ◌≡◌, ◌≢◌, refl, ap, ◌∙◌, arith, none, some, List, [], ◌∷◌, ◌++◌, inl, length, get_elem?,
  set as write,
}
use ncdn.Popcache.Http.{
  Header, Request, Object, ok, set, add, del, values, values-set, values-add, values-del,
}
use ncdn.Popcache.Upstream.{RoundTripper}
use ncdn.Popcache.Server.{
  Lru, Calls, Store, cache_key, cache_get, cache_put, store_response, after_miss, cache_and_fetch,
  cache_header,
}

pub get_elem?-write_last :
    (xs : List Object) (a b : Object)
    → get_elem? (write (xs ++ (a ∷ [])) (length xs) b) (length xs) ≡ some b
get_elem?-write_last [] a b = refl
get_elem?-write_last (x ∷ xs) a b = get_elem?-write_last xs a b

-- The cache finds what was inserted last.
abbrev pub FindsLast : Lru → Type 0
FindsLast L =
    (c : L.State) (key : String) (ref : ℕ) → (L.lookup (L.insert c key ref) key).1 ≡ some ref

-- The object that a response becomes.
abbrev pub stored : Object → String → Object
stored resp body = record {
  status_code = resp.status_code;
  header = add (cache_header resp.header) "X-Cache" "Miss";
  body = body;
}

-- The store after a response.
abbrev pub stored_in : (L : Lru) → Calls → Store L → Request → Object → String → Store L
stored_in L calls s r resp body = record {
  heap =
      write (s.heap ++ (record (stored resp body) { header = cache_header resp.header } ∷ []))
        (length s.heap) (stored resp body);
  cache = L.insert s.cache (cache_key calls r) (length s.heap);
}

pub store_response-eq :
    (L : Lru) (calls : Calls) (s : Store L) (r : Request) (resp : Object) (body : String)
    → calls.read_all resp.body ≡ inl body
    → store_response L calls s r resp ≡ (stored_in L calls s r resp body, ok (stored resp body))
unfolding store_response cache_put
store_response-eq L calls s r resp body e = rw (e, store_response) refl

cache_get-stored :
    (L : Lru)
    → FindsLast L
    → (calls : Calls) (s : Store L) (r : Request) (resp : Object) (body : String)
    → (cache_get L (stored_in L calls s r resp body) (cache_key calls r)).1
      ≡ some (stored resp body)
unfolding cache_get
cache_get-stored L last calls s r resp body =
    rw (last s.cache (cache_key calls r) (length s.heap))
      (get_elem?-write_last s.heap _ (stored resp body))

-- The object as the cache returns it.
abbrev pub hit : Object → Object
hit obj = record obj { header = set obj.header "X-Cache" "HIT" }

-- Two objects that differ in `X-Cache`: "Miss" in the first and "HIT" in the second.
pub record MissThenHit (first second : Object) : Type 0 where
  pub same_status : second.status_code ≡ first.status_code
  pub same_body : second.body ≡ first.body
  pub miss : values first.header "X-Cache" ≡ "Miss" ∷ []
  pub then_hit : values second.header "X-Cache" ≡ "HIT" ∷ []
  pub same_header : (k : String) → "X-Cache" ≢ k → values second.header k ≡ values first.header k

cache_header-X_Cache : (h : Header) → values (cache_header h) "X-Cache" ≡ []
cache_header-X_Cache h =
    values-del (del (del h "X-Cache") "X-NCDN-PoPCache-NodeId") "X-NCDN-Shield-NodeId" "X-Cache"
    ∙ values-del (del h "X-Cache") "X-NCDN-PoPCache-NodeId" "X-Cache"
    ∙ values-del h "X-Cache" "X-Cache"

stored-MissThenHit :
    (resp : Object) (body : String) → MissThenHit (stored resp body) (hit (stored resp body))
stored-MissThenHit resp body = record {
  same_status = refl;
  same_body = refl;
  miss =
      rw (values-add _ "X-Cache" "X-Cache" "Miss")
        (ap (λ vs. vs ++ ("Miss" ∷ [])) (cache_header-X_Cache resp.header));
  then_hit = rw (values-set _ "X-Cache" "X-Cache" "HIT") refl;
  same_header = λ k other. rw (values-set _ "X-Cache" k "HIT") (ground (arith, eq_iff "X-Cache" k));
}

cache_and_fetch-miss :
    (L : Lru) (calls : Calls) (next : RoundTripper) (s : Store L) (r : Request) (resp : Object)
    → (cache_get L s (cache_key calls r)).1 ≡ none
    → next r ≡ ok resp
    → cache_and_fetch L calls next s r
      ≡ store_response L calls (cache_get L s (cache_key calls r)).0 r resp
unfolding cache_and_fetch after_miss
cache_and_fetch-miss L calls next s r resp absent answered =
    rw (absent, answered, cache_and_fetch) refl

cache_and_fetch-hit :
    (L : Lru) (calls : Calls) (next : RoundTripper) (s : Store L) (r : Request) (obj : Object)
    → (cache_get L s (cache_key calls r)).1 ≡ some obj
    → (cache_and_fetch L calls next s r).1 ≡ ok (hit obj)
unfolding cache_and_fetch
cache_and_fetch-hit L calls next s r obj found = rw (found, cache_and_fetch) refl

-- When a request misses the cache, and its response comes and can be read, this response is returned
-- with `X-Cache: Miss`; a request with the same key after it, whatever the next tier does then, gets
-- the same status, body and header values with `X-Cache: HIT`, as long as the cache finds what was
-- inserted last. The key has no part of the method.
pub cache_and_fetch-MissThenHit :
    (L : Lru)
    → FindsLast L
    → (calls : Calls) (next next' : RoundTripper) (s : Store L) (r r' : Request) (resp : Object)
      (body : String)
    → (cache_get L s (cache_key calls r)).1 ≡ none
    → next r ≡ ok resp
    → calls.read_all resp.body ≡ inl body
    → cache_key calls r' ≡ cache_key calls r
    → (first second : Object) × ((cache_and_fetch L calls next s r).1 ≡ ok first)
      × ((cache_and_fetch L calls next' (cache_and_fetch L calls next s r).0 r').1 ≡ ok second)
      × MissThenHit first second
cache_and_fetch-MissThenHit L last calls next next' s r r' resp body absent answered read same =
    let found = (cache_get L s (cache_key calls r)).0 in
    let first : cache_and_fetch L calls next s r
        ≡ (stored_in L calls found r resp body, ok (stored resp body)) =
      cache_and_fetch-miss L calls next s r resp absent answered
      ∙ store_response-eq L calls found r resp body read in
    (
      stored resp body,
      hit (stored resp body),
      rw first refl,
      rw first (
          cache_and_fetch-hit L calls next' (stored_in L calls found r resp body) r'
            (stored resp body) (rw same (cache_get-stored L last calls found r resp body))),
      stored-MissThenHit resp body,
    )
