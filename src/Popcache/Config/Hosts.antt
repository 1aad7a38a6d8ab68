-- ===== src/Popcache/Config/Hosts.antt =====
-- The hosts that a configured cache server knows.
use Prim.Native.String.{String}
use text.Mathlib.Text.{◌==◌ as str_eq}
use text.Mathlib.TextEquality.{eq_iff}
use ncdn.Base.{
  ◌≡◌, ◌≢◌, refl, sym, ◌∙◌, subst, inl-injective, some-injective, arith, Bool-cases, Sum-cases,
  Option-cases, some, List, [], ◌∷◌, inl, inr, All, if◌then◌else◌,
}
use ncdn.Base.Maps.{put}
use ncdn.Popcache.Http.{Request, ok, set, http_error}
use ncdn.Popcache.Upstream.{Backend, origin}
use ncdn.Popcache.Server.{Lru, Calls, Store, CacheServer, remove_port_from_host, serve_http}
use ncdn.Popcache.Config.{
  Entry, Parsers, url_of, parse_backend, parse_backends, add_origins, origin_lookup_of,
}

origin-put :
    (table : List (String × Backend)) (j k : String) (b : Backend)
    → origin (put k b table) j ≡ (if str_eq k j then some b else origin table j)
unfolding origin put
origin-put [] j k b = refl
origin-put ((i, w) ∷ table) j k b =
    ground (arith, eq_iff k j, eq_iff i k, eq_iff i j, origin-put table j k b)

-- What a table says of a host, when it says nothing else of hosts than what holds of `P`.
module _ (P : String → Backend → Type 0) where
  abbrev Says : List (String × Backend) → Type 0
  Says table = (h : String) (b : Backend) → origin table h ≡ some b → P h b

  add_origins-Says :
      (bs : List Backend) (table : List (String × Backend))
      → All (λ b. P b.hostname b) bs
      → Says table
      → Says (add_origins table bs)
  unfolding add_origins
  add_origins-Says [] table hs says = says
  add_origins-Says (b ∷ bs) table hs says =
      add_origins-Says bs (put b.hostname b table) hs.1 (λ h c found.
        elim (Bool-cases (str_eq b.hostname h)) [
          | inl same ↦
              let stored =
                some-injective (rw (same) at (sym (origin-put table h b.hostname b) ∙ found)) in
              let name = (eq_iff b.hostname h).0 same in
              subst (λ (x : Backend). P h x) stored (subst (λ k. P k b) name hs.0)
          | inr other ↦ says h c (rw (other) at (sym (origin-put table h b.hostname b) ∙ found))
        ])

-- The hostname was lowered.
abbrev IsLowered : Parsers → Backend → Type 0
IsLowered p b = (name : String) × (b.hostname ≡ p.to_lower name)

parse_backends-IsLowered :
    (p : Parsers) (es : List Entry) (bs : List Backend)
    → parse_backends p es ≡ inl bs
    → All (IsLowered p) bs
unfolding parse_backends parse_backend
parse_backends-IsLowered p [] bs e = subst (All (IsLowered p)) (inl-injective e) tt
parse_backends-IsLowered p (entry ∷ es) bs e = elim (Sum-cases (p.parse_addr entry.ip4)) [
  | inr (error, bad) ↦ absurd (cc (rw (bad, parse_backends, parse_backend) at e))
  | inl (ip4, good) ↦ elim (Option-cases (p.parse_url (url_of p entry))) [
    | inr (error, bad) ↦ absurd (cc (rw (good, bad, parse_backends, parse_backend) at e))
    | inl fine ↦ elim (Sum-cases (parse_backends p es)) [
      | inr (error, bad) ↦ absurd (cc (rw (good, fine, bad, parse_backends, parse_backend) at e))
      | inl (rest, parsed) ↦
          subst (All (IsLowered p))
            (inl-injective (rw (good, fine, parsed, parse_backends, parse_backend) at e))
            ((entry.hostname, refl), parse_backends-IsLowered p es rest parsed)
    ]
  ]
]

-- A host of the table was lowered.
known_host-IsLowered :
    (p : Parsers) (es : List Entry) (bs : List Backend) (host : String) (b : Backend)
    → parse_backends p es ≡ inl bs
    → origin (origin_lookup_of bs) host ≡ some b
    → (name : String) × (host ≡ p.to_lower name)
unfolding origin
known_host-IsLowered p es bs host b parsed known =
    add_origins-Says (λ h _. (name : String) × (h ≡ p.to_lower name)) bs []
      (parse_backends-IsLowered p es bs parsed) (λ h c found. absurd (cc found)) host b known

-- When lower-casing twice changes nothing more, a server with the table of the origins of a file knows
-- no host that is not in lower case: a request for one is answered with status 404 and the text
-- "unknown host", from an unchanged store, also if the file has the same name in other letters.
pub serve_http-not_lower :
    (L : Lru) (calls : Calls) (p : Parsers) (c : CacheServer) (es : List Entry) (bs : List Backend)
    (s : Store L) (r : Request)
    → ((name : String) → p.to_lower (p.to_lower name) ≡ p.to_lower name)
    → parse_backends p es ≡ inl bs
    → c.origin_lookup ≡ origin_lookup_of bs
    → p.to_lower (remove_port_from_host calls r.host) ≢ remove_port_from_host calls r.host
    → serve_http L calls c s r
      ≡ (s, ok (http_error (set [] "X-NCDN-PoPCache-NodeId" c.node_id) "unknown host" 404))
unfolding serve_http
serve_http-not_lower L calls p c es bs s r idem parsed table not_lower =
    let host = remove_port_from_host calls r.host in
    elim (Option-cases (origin c.origin_lookup host)) [
      | inl unknown ↦ rw (unknown, serve_http) refl
      | inr (b, known) ↦
          let (name, lowered) = known_host-IsLowered p es bs host b parsed (rw (table) at known) in
          absurd (not_lower (rw (lowered) (idem name)))
    ]
