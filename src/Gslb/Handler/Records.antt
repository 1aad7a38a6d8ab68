-- ===== src/Gslb/Handler/Records.antt =====
-- What the handler answers for the one name it balances.
use Prim.Native.String.{String, slice, len}
use Prim.Native.String
use text.Mathlib.Text.{◌==◌ as str_eq}
use text.Mathlib.TextEquality.{eq_iff}
use text.Mathlib.TextPositions.{len-append, slice-append_left}
use ncdn.Base.{
  ℕ, ◌+◌, ◌-◌, ◌<◌, ◌≡◌, ◌≢◌, refl, ap, ◌∙◌, arith, true, false, Bool-cases, inl, inr, some, List,
  [], ◌∷◌, ltb, ◌==◌, if◌then◌else◌, length, get_elem?,
}
use ncdn.Float.{Float, IsOrdered}
use ncdn.Netip.{Addr, as4, unmap}
use ncdn.Types.{PopInfo}
use ncdn.Gslb.Core.{GslbCore, query}
use ncdn.Gslb.Core.State.{IsValid}
use ncdn.Gslb.Core.Query.{IsAnswer, query_lem}
use ncdn.Gslb.Handler.{
  Names, Question, Rr, a, wrote, records, ttl, type_a, rcode_success, Gslb, soa_record, source_ip,
  a_records, query_records, a_of, reply, serve_zone, serve_dns,
}

pub query_records-one :
    (fl : Float) (p : Gslb fl) (qname : String) (ip pop_ip : Addr) (bytes : List ℕ)
    → query fl p.core (unmap ip) ≡ some (pop_ip ∷ [])
    → as4 pop_ip ≡ some bytes
    → query_records fl p qname ip ≡ records (a qname ttl bytes ∷ [])
unfolding query_records a_records
query_records-one fl p qname ip pop_ip bytes e b = rw (e, b, query_records, a_records) refl

-- The end of the name is as long as the zone.
subdomain-append :
    (host tail : String) (zone : ℕ)
    → len tail ≡ zone
    → slice (String.◌++◌ host tail) 0 (len (String.◌++◌ host tail) - zone) ≡ host
subdomain-append host tail zone e =
    let l = len-append host tail in
    let n : len (String.◌++◌ host tail) - zone ≡ len host = omega arith in
    rw n (slice-append_left host tail)

serve_zone-a :
    (fl : Float) (names : Names) (p : Gslb fl) (q : Question) (host tail : String) (ip : Addr)
    → q.qname ≡ String.◌++◌ host tail
    → len tail ≡ len p.zone
    → host ≢ ""
    → names.to_lower (slice host 0 (len host - 1)) ≡ "www"
    → source_ip q ≡ some ip
    → serve_zone fl names p q ≡ reply fl p q (query_records fl p q.qname ip)
unfolding serve_zone a_of
serve_zone-a fl names p q host tail ip named same some_host lower src =
    let l = len-append host tail in
    let sub = subdomain-append host tail (len p.zone) same in
    let long : ltb (len q.qname) (len p.zone) ≡ false = rw named (ground arith) in
    let cut : slice q.qname 0 (len q.qname - len p.zone) ≡ host = rw named sub in
    let full : str_eq host "" ≡ false = ground (arith, eq_iff host "") in
    rw (long, cut, full, lower, src, serve_zone, a_of) refl

serve_dns-zone :
    (fl : Float) (names : Names) (p : Gslb fl) (q : Question)
    → names.compare_domain_name p.ns_domain q.qname + 1 ≡ names.count_label p.ns_domain
    → serve_dns fl names p q ≡ serve_zone fl names p q
unfolding serve_dns
serve_dns-zone fl names p q e =
    let differs : (names.compare_domain_name p.ns_domain q.qname == names.count_label p.ns_domain)
        ≡ false =
      ground arith in
    let under : (names.compare_domain_name p.ns_domain q.qname + 1 == names.count_label p.ns_domain)
        ≡ true =
      ground arith in
    rw (differs, under, serve_dns) refl

reply-one :
    (fl : Float) (p : Gslb fl) (q : Question) (rr : Rr)
    → reply fl p q (records (rr ∷ []))
      ≡ wrote
          (record {
            rcode = rcode_success;
            authoritative = true;
            answer = if q.qtype == type_a then rr ∷ [] else [];
            authority = if q.qtype == type_a then [] else soa_record fl p ∷ [];
          })
          rcode_success
reply-one fl p q rr = elim (Bool-cases (q.qtype == type_a)) [
  | inl of_a ↦ rw of_a refl
  | inr not_a ↦ rw not_a refl
]

-- Every PoP has an address that a record of type A can hold.
abbrev pub AllIpv4 : {fl : Float} → GslbCore fl → Type 0
AllIpv4 c =
    (i : ℕ) (pop : PopInfo)
    → get_elem? c.cfg.pops i ≡ some pop
    → (bytes : List ℕ) × (as4 pop.ip4 ≡ some bytes)

-- A valid balancer with PoPs, all of IPv4, answers a question for the address of www under its zone, in
-- any case of letters, with one record, authoritative, of the address of the PoP that `IsAnswer` names
-- for the client's address, its IPv4-mapped form undone. A question of another type gets no record and
-- the SOA record. The name is `host` and then as many bytes as the zone has.
pub serve_dns-www :
    (fl : Float)
    → (o : IsOrdered fl) (names : Names) (p : Gslb fl) (q : Question) (host tail : String)
      (ip : Addr)
    → IsValid fl p.core
    → 0 < length p.core.cfg.pops
    → AllIpv4 p.core
    → names.compare_domain_name p.ns_domain q.qname + 1 ≡ names.count_label p.ns_domain
    → q.qname ≡ String.◌++◌ host tail
    → len tail ≡ len p.zone
    → host ≢ ""
    → names.to_lower (slice host 0 (len host - 1)) ≡ "www"
    → source_ip q ≡ some ip
    → (i : ℕ) × (pop : PopInfo) × (bytes : List ℕ) × (get_elem? p.core.cfg.pops i ≡ some pop)
      × (as4 pop.ip4 ≡ some bytes)
      × IsAnswer fl o p.core (unmap ip) i
      × (serve_dns fl names p q
          ≡ wrote
              (record {
                rcode = rcode_success;
                authoritative = true;
                answer = if q.qtype == type_a then a q.qname ttl bytes ∷ [] else [];
                authority = if q.qtype == type_a then [] else soa_record fl p ∷ [];
              })
              rcode_success)
serve_dns-www fl o names p q host tail ip v some_pop v4s under named same some_host lower src =
    let (i, pop, at, answered, best) = query_lem fl o p.core (unmap ip) v some_pop in
    let (bytes, four) = v4s i pop at in
    (
      i,
      pop,
      bytes,
      at,
      four,
      best,
      serve_dns-zone fl names p q under
          ∙ serve_zone-a fl names p q host tail ip named same some_host lower src
          ∙ ap (reply fl p q) (query_records-one fl p q.qname ip pop.ip4 bytes answered four)
          ∙ reply-one fl p q (a q.qname ttl bytes),
    )
