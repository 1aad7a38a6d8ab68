-- ===== src/Gslb/Handler/Sound.antt =====
-- What the handler can answer at all, whatever the question.
use Prim.Native.String.{String, slice, len}
use text.Mathlib.Text.{◌==◌ as str_eq}
use ncdn.Base.{
  ℕ, ◌+◌, ◌-◌, ◌<◌, ◌≡◌, refl, Bool-cases, ◌⊎◌, inl, inr, Option, some, Option-cases, List, [], ◌∷◌,
  ltb, ◌==◌, length, get_elem?,
}
use ncdn.Float.{Float, IsOrdered}
use ncdn.Netip.{Addr, as4, unmap}
use ncdn.Types.{PopInfo}
use ncdn.Gslb.Core.State.{IsValid}
use ncdn.Gslb.Core.Query.{query_lem}
use ncdn.Gslb.Handler.{
  Names, Question, Rr, a, ns, soa, Served, wrote, failed, next, panic, Found, records, no_address,
  crash, type_a, type_ns, type_soa, Gslb, source_ip, soa_record, a_records, query_records, a_of,
  reply, serve_root, serve_zone, serve_dns,
}
use ncdn.Gslb.Handler.Records.{query_records-one}

module _ (fl : Float) (p : Gslb fl) (q : Question) where
  -- The bytes are the address of a configured PoP.
  abbrev pub OfPop : List ℕ → Type 0
  OfPop bytes =
      (i : ℕ) × (pop : PopInfo) × (get_elem? p.core.cfg.pops i ≡ some pop)
      × (as4 pop.ip4 ≡ some bytes)

  -- An address is the name server's under its name, or a PoP's under the name asked for; a name server
  -- and a start of authority are those of the zone.
  abbrev pub IsGood : Rr → Type 0
  IsGood (a name ttl bytes) =
      ((name ≡ p.ns_domain) × (bytes ≡ p.ns_a)) ⊎ ((name ≡ q.qname) × OfPop bytes)
  IsGood (ns name ttl target) = (name ≡ p.zone) × (target ≡ p.ns_domain)
  IsGood (soa name ttl mailbox server serial) = soa name ttl mailbox server serial ≡ soa_record fl p

  abbrev pub AllGood : List Rr → Type 0
  AllGood [] = Unit {0}
  AllGood (rr ∷ rrs) = IsGood rr × AllGood rrs

  -- The message has the code that is returned, and good records in each of its sections.
  abbrev pub Sound : Served → Type 0
  Sound (wrote m code) = (m.rcode ≡ code) × AllGood m.answer × AllGood m.authority
  Sound (failed _) = Unit {0}
  Sound next = Unit {0}
  Sound panic = Unit {0}

  abbrev GoodFound : Found → Type 0
  GoodFound (records rrs) = AllGood rrs
  GoodFound no_address = Unit {0}
  GoodFound crash = Unit {0}

  reply-Sound : (f : Found) → GoodFound f → Sound (reply fl p q f)
  reply-Sound no_address g = tt
  reply-Sound crash g = tt
  reply-Sound (records []) g = (refl, tt, (refl, tt))
  reply-Sound (records (rr ∷ rrs)) g = elim (Bool-cases (q.qtype == type_a)) [
    | inl of_a ↦ rw of_a (refl, g, tt)
    | inr other ↦ rw other (refl, tt, (refl, tt))
  ]

  serve_root-Sound : Sound (serve_root fl p q)
  serve_root-Sound = elim (Bool-cases (q.qtype == type_soa)) [
    | inl of_soa ↦ rw of_soa (refl, (refl, tt), tt)
    | inr e ↦ elim (Bool-cases (q.qtype == type_ns)) [
      | inl of_ns ↦ rw (e, of_ns) (refl, ((refl, refl), tt), tt)
      | inr e' ↦ rw (e, e') (refl, tt, tt)
    ]
  ]

  module _ (o : IsOrdered fl) (v : IsValid fl p.core) (some_pop : 0 < length p.core.cfg.pops) where
    query_records-GoodFound : (ip : Addr) → GoodFound (query_records fl p q.qname ip)
    unfolding query_records a_records
    query_records-GoodFound ip =
        let (i, pop, at, answered, _) = query_lem fl o p.core (unmap ip) v some_pop in
        elim (Option-cases (as4 pop.ip4)) [
          | inl not_v4 ↦ rw (answered, not_v4, query_records, a_records) tt
          | inr (bytes, four) ↦
              rw (query_records-one fl p q.qname ip pop.ip4 bytes answered four)
                (inr (refl, (i, pop, at, four)), tt)
        ]

    a_of-GoodFound : (sub : String) (src : Option Addr) → GoodFound (a_of fl p q.qname sub src)
    unfolding a_of
    a_of-GoodFound sub src = elim (Bool-cases (str_eq "www" sub)) [
      | inl www ↦ elim (Option-cases src) [
        | inl absent ↦ rw (www, absent, a_of) tt
        | inr (ip, given) ↦ rw (www, given, a_of) (query_records-GoodFound ip)
      ]
      | inr other ↦ rw (other, a_of) tt
    ]

    -- A valid balancer with PoPs and an ordered type of latencies, asked any question: a message that the
    -- handler writes has the code that it returns, and in its answer and its authority section each
    -- address is the name server's under its name or a configured PoP's under the name asked for, each
    -- name server is the zone's, and each start of authority is the zone's with the serial of the state.
    pub serve_dns-Sound : (names : Names) → Sound (serve_dns fl names p q)
    unfolding serve_dns serve_zone
    serve_dns-Sound names =
        let labels = names.count_label p.ns_domain in
        let same = names.compare_domain_name p.ns_domain q.qname in
        let sub = slice q.qname 0 (len q.qname - len p.zone) in
        elim (Bool-cases (same == labels)) [
          | inl all ↦ rw (all, serve_dns) (refl, (inl (refl, refl), tt), tt)
          | inr e1 ↦ elim (Bool-cases (same + 1 == labels)) [
            | inr e2 ↦ rw (e1, e2, serve_dns) tt
            | inl under ↦ elim (Bool-cases (ltb (len q.qname) (len p.zone))) [
              | inl short ↦ rw (e1, under, short, serve_dns, serve_zone) tt
              | inr long ↦ elim (Bool-cases (str_eq sub "")) [
                | inl apex ↦ rw (e1, under, long, apex, serve_dns, serve_zone) serve_root-Sound
                | inr below ↦
                    rw (e1, under, long, below, serve_dns, serve_zone)
                      (reply-Sound _ (a_of-GoodFound _ (source_ip q)))
              ]
            ]
          ]
        ]
