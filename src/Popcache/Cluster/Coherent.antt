-- ===== src/Popcache/Cluster/Coherent.antt =====
-- Which stores and responses are genuine, and that storing a genuine response keeps a store so.
use Prim.Native.String.{String}
use ncdn.Base.{
  ℕ, zero, suc, ◌≡◌, refl, ◌∙◌, none, some, List, [], ◌∷◌, ◌++◌, ◌⊎◌, inl, inr, Sum-cases, length,
  get_elem?, set as write,
}
use ncdn.Popcache.Http.{Header, Request, Object, Outcome, ok, err, panic, fatal}
use ncdn.Popcache.Server.{Lru, Calls, Store, cache_key, store_response, after_miss, write_reply}
use ncdn.Popcache.Server.Reuse.{stored, stored_in, store_response-eq, get_elem?-write_last}
use ncdn.Popcache.Cluster.{local}

-- What hashicorp/golang-lru promises: it finds only what was inserted last under the key, and may have
-- dropped it.
pub record IsCache (L : Lru) (empty : L.State) : Type 0 where
  pub nothing : (k : String) → (L.lookup empty k).1 ≡ none
  pub after_lookup :
      (c : L.State) (k j : String) (ref : ℕ)
      → (L.lookup (L.lookup c k).0 j).1 ≡ some ref
      → (L.lookup c j).1 ≡ some ref
  pub after_insert :
      (c : L.State) (k j : String) (new ref : ℕ)
      → (L.lookup (L.insert c k new) j).1 ≡ some ref
      → ((j ≡ k) × (ref ≡ new)) ⊎ ((L.lookup c j).1 ≡ some ref)

-- The text of an error page of a server.
abbrev pub IsErrorPage : Object → Type 0
IsErrorPage obj =
    ((obj.status_code ≡ 404) × (obj.body ≡ "unknown host\n"))
    ⊎ ((obj.status_code ≡ 500) × (obj.body ≡ "internal server error\n"))

get_elem?-write_old :
    (heap : List Object) (a b obj : Object) (ref : ℕ)
    → get_elem? heap ref ≡ some obj
    → get_elem? (write (heap ++ (a ∷ [])) (length heap) b) ref ≡ some obj
get_elem?-write_old [] a b obj ref e = cc
get_elem?-write_old (x ∷ heap) a b obj zero e = e
get_elem?-write_old (x ∷ heap) a b obj (suc ref) e = get_elem?-write_old heap a b obj ref e

-- The digest under which a server keeps the response to `r`.
abbrev pub digest : Calls → Request → String
digest calls r = cache_key calls (local calls r)

module _ (calls : Calls) (answers : Request → Object → Type 0) where
  -- Status and body are what an origin answered to a request of this digest.
  pub record FromOrigin (key : String) (obj : Object) : Type 0 where
    pub asked : Request
    pub answer : Object
    pub answered : answers asked answer
    pub same_key : digest calls asked ≡ key
    pub same_status : obj.status_code ≡ answer.status_code
    pub same_body : obj.body ≡ answer.body

  abbrev pub IsGenuine : String → Object → Type 0
  IsGenuine key obj = FromOrigin key obj ⊎ IsErrorPage obj

  -- Whatever the cache finds is an object of the heap that is genuine for its key.
  abbrev pub IsCoherent : {L : Lru} → Store L → Type 0
  IsCoherent {L} s =
      (key : String) (ref : ℕ)
      → (L.lookup s.cache key).1 ≡ some ref
      → (obj : Object) × (get_elem? s.heap ref ≡ some obj) × IsGenuine key obj

  pub IsGenuine-same :
      (key : String) (obj obj' : Object)
      → obj'.status_code ≡ obj.status_code
      → obj'.body ≡ obj.body
      → IsGenuine key obj
      → IsGenuine key obj'
  IsGenuine-same key obj obj' st bd (inl o) = inl (record {
    asked = o.asked;
    answer = o.answer;
    answered = o.answered;
    same_key = o.same_key;
    same_status = st ∙ o.same_status;
    same_body = bd ∙ o.same_body;
  })
  IsGenuine-same key obj obj' st bd (inr (inl (a, b))) = inr (inl (st ∙ a, bd ∙ b))
  IsGenuine-same key obj obj' st bd (inr (inr (a, b))) = inr (inr (st ∙ a, bd ∙ b))

  -- The outcome is an object that is genuine, or none.
  abbrev pub IsFine : String → Outcome Object → Type 0
  IsFine key (ok obj) = IsGenuine key obj
  IsFine key (err e) = Unit {0}
  IsFine key panic = Unit {0}
  IsFine key fatal = Unit {0}

  pub write_reply-IsFine :
      (w : Header) (key : String) (o : Outcome Object) → IsFine key o → IsFine key (write_reply w o)
  unfolding write_reply
  write_reply-IsFine w key (ok obj) g = IsGenuine-same key obj _ refl refl g
  write_reply-IsFine w key (err e) g = inr (inr (refl, refl))
  write_reply-IsFine w key panic g = tt
  write_reply-IsFine w key fatal g = tt

  stored_in-IsCoherent :
      {L : Lru} {empty : L.State}
      → IsCache L empty
      → (s : Store L) (r : Request) (resp : Object) (body : String) → IsCoherent s
      → IsGenuine (cache_key calls r) (stored resp body)
      → IsCoherent (stored_in L calls s r resp body)
  stored_in-IsCoherent {L} laws s r resp body h g key ref found =
      elim (laws.after_insert s.cache (cache_key calls r) key (length s.heap) ref found) [
        | inl (same, new) ↦
            rw (same, new) (stored resp body, get_elem?-write_last s.heap _ (stored resp body), g)
        | inr old ↦
            let (obj, held, fine) = h key ref old in
            (obj, get_elem?-write_old s.heap _ (stored resp body) obj ref held, fine)
      ]

  pub after_miss-IsFine :
      {L : Lru} {empty : L.State}
      → IsCache L empty
      → ((b b' : String) → calls.read_all b ≡ inl b' → b' ≡ b)
      → (s : Store L) (r : Request) (o : Outcome Object) → IsCoherent s
      → IsFine (cache_key calls r) o
      → IsCoherent (after_miss L calls s r o).0
        × IsFine (cache_key calls r) (after_miss L calls s r o).1
  unfolding after_miss store_response
  after_miss-IsFine {L} laws whole s r (ok resp) h g =
      let same : (body : String)
          → calls.read_all resp.body ≡ inl body
          → IsGenuine (cache_key calls r) (stored resp body) =
        λ body read. IsGenuine-same (cache_key calls r) resp _ refl (whole resp.body body read) g in
      elim (Sum-cases (calls.read_all resp.body)) [
        | inl (body, read) ↦
            rw (store_response-eq L calls s r resp body read)
              (stored_in-IsCoherent laws s r resp body h (same body read), same body read)
        | inr (e, failed) ↦ rw (failed, store_response) (h, tt)
      ]
  after_miss-IsFine laws whole s r (err e) h g = (h, tt)
  after_miss-IsFine laws whole s r panic h g = (h, tt)
  after_miss-IsFine laws whole s r fatal h g = (h, tt)
