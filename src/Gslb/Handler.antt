-- ===== src/Gslb/Handler.antt =====
-- gslb/corednsplugin/handler.go: the DNS handler in front of the balancer. The functions of miekg/dns
-- on names, and `strings.ToLower`, are parameters; addresses that the source gives as `net.IP` are
-- what `netip.AddrFromSlice` makes of them.
pub mod Records
pub mod Sound
use Prim.Native.String
use Prim.Native.String.{String, slice, len}
use text.Mathlib.Text.{◌==◌ as str_eq}
use ncdn.Base.{
  ℕ, ◌+◌, ◌-◌, Bool, true, false, Option, none, some, List, [], ◌∷◌, ◌++◌, ltb, ◌==◌, if◌then◌else◌,
}
use ncdn.Float.{Float}
use ncdn.Netip.{Addr, as4, unmap}
use ncdn.Gslb.Core.{GslbCore, query}

-- What is used of miekg/dns and strings.
pub record Names : Type 0 where
  pub count_label : String → ℕ
  pub compare_domain_name : String → String → ℕ
  pub to_lower : String → String

pub data Edns0 : Type 0 where
  subnet : Option Addr → Edns0
  other : Edns0

-- What `ServeDNS` reads of a request: the name and type of the question, the client's address, and the
-- EDNS0 options, if the request has any.
pub record Question : Type 0 where
  pub qname : String
  pub qtype : ℕ
  pub remote_ip : Option Addr
  pub edns0 : Option (List Edns0)

pub data Rr : Type 0 where
  a : String → ℕ → List ℕ → Rr
  ns : String → ℕ → String → Rr
  soa : String → ℕ → String → String → ℕ → Rr

pub record Msg : Type 0 where
  pub rcode : ℕ
  pub authoritative : Bool
  pub answer : List Rr
  pub authority : List Rr

-- How `ServeDNS` ends: with a message and a code, with an error and a code, in the next plugin, or with
-- a panic.
pub data Served : Type 0 where
  wrote : Msg → ℕ → Served
  failed : ℕ → Served
  next : Served
  panic : Served

-- What `A` returns.
pub data Found : Type 0 where
  records : List Rr → Found
  no_address : Found
  crash : Found

abbrev pub ttl : ℕ
ttl = 120

abbrev pub type_a : ℕ
type_a = 1

abbrev pub type_ns : ℕ
type_ns = 2

abbrev pub type_soa : ℕ
type_soa = 6

abbrev pub rcode_success : ℕ
rcode_success = 0

abbrev pub rcode_server_failure : ℕ
rcode_server_failure = 2

abbrev pub rcode_name_error : ℕ
rcode_name_error = 3

-- `Gslb`
pub record Gslb (fl : Float) : Type 0 where
  pub core : GslbCore fl
  pub zone : String
  pub ns_domain : String
  pub ns_a : List ℕ

-- `NewGslb`
abbrev pub new_gslb : (fl : Float) → GslbCore fl → String → List ℕ → Gslb fl
new_gslb fl core zone ns_a = record {
  core = core;
  zone = zone;
  ns_domain = String.◌++◌ "ns." zone;
  ns_a = ns_a;
}

-- The loop over the options.
unfoldable pub ecs_address : Option Addr → List Edns0 → Option Addr
ecs_address ip [] = ip
ecs_address ip (subnet address ∷ _) = address
ecs_address ip (other ∷ options) = ecs_address ip options

-- `srcIP`
unfoldable pub source_ip : Question → Option Addr
unfolding ecs_address
source_ip q = elim q.edns0 [ none ↦ q.remote_ip | some options ↦ ecs_address q.remote_ip options ]

-- The loop of `A` over the addresses; `none` is the panic of `As4`.
unfoldable pub a_records : String → List Addr → Option (List Rr)
a_records qname [] = some []
a_records qname (ip ∷ ips) = elim (as4 ip) [
  | none ↦ none
  | some ip4 ↦ elim (a_records qname ips) [ none ↦ none | some rrs ↦ some (a qname ttl ip4 ∷ rrs) ]
]

abbrev pub found : Option (List Rr) → Found
found none = crash
found (some rrs) = records rrs

module _ (fl : Float) where
  -- `p.core.Query(srcIP)` and the loop over its result.
  unfoldable pub query_records : Gslb fl → String → Addr → Found
  unfolding query
  query_records p qname ip = elim (query fl p.core (unmap ip)) [
    | none ↦ crash
    | some ips ↦ found (a_records qname ips)
  ]

  -- `A`
  unfoldable pub a_of : Gslb fl → String → String → Option Addr → Found
  unfolding query_records
  a_of p qname subdomain src_ip =
      if str_eq "www" subdomain
      then elim src_ip [ none ↦ no_address | some ip ↦ query_records p qname ip ]
      else records []

  -- `soaRecord`: the name, the ttl, the mailbox, the server and the serial.
  abbrev pub soa_record : Gslb fl → Rr
  soa_record p = soa p.zone ttl (String.◌++◌ "fixme-contact." p.zone) p.ns_domain p.core.serial

  -- `serveNs`
  abbrev pub serve_ns : Gslb fl → Served
  serve_ns p =
      wrote
        (record {
          rcode = rcode_success;
          authoritative = true;
          answer = a p.ns_domain ttl p.ns_a ∷ [];
          authority = [];
        })
        rcode_success

  -- `serveRoot`
  abbrev pub serve_root : Gslb fl → Question → Served
  serve_root p q =
      wrote
        (record {
          rcode = rcode_success;
          authoritative = true;
          answer =
              if q.qtype == type_soa
              then soa_record p ∷ []
              else if q.qtype == type_ns
              then ns p.zone ttl p.ns_domain ∷ []
              else [];
          authority = [];
        })
        rcode_success

  -- `ServeDNS` from the result of `A` on.
  abbrev pub reply : Gslb fl → Question → Found → Served
  reply p q no_address = failed rcode_server_failure
  reply p q crash = panic
  reply p q (records []) =
      wrote
        (record {
          rcode = rcode_name_error;
          authoritative = false;
          answer = [];
          authority = soa_record p ∷ [];
        })
        rcode_name_error
  reply p q (records (rr ∷ rrs)) =
      if q.qtype == type_a
      then wrote
          (record {
            rcode = rcode_success;
            authoritative = true;
            answer = rr ∷ rrs;
            authority = [];
          })
          rcode_success
      else wrote
          (record {
            rcode = rcode_success;
            authoritative = true;
            answer = [];
            authority = soa_record p ∷ [];
          })
          rcode_success

  -- `ServeDNS` for a name under the zone.
  unfoldable pub serve_zone : Names → Gslb fl → Question → Served
  unfolding source_ip a_of
  serve_zone names p q =
      let subdomain = slice q.qname 0 (len q.qname - len p.zone) in
      if ltb (len q.qname) (len p.zone)
      then panic
      else if str_eq subdomain ""
      then serve_root p q
      else reply p q
          (a_of p q.qname (names.to_lower (slice subdomain 0 (len subdomain - 1))) (source_ip q))

  -- `ServeDNS`. (`count_label` of a name that begins with "ns." is at least 1.)
  unfoldable pub serve_dns : Names → Gslb fl → Question → Served
  unfolding serve_zone
  serve_dns names p q =
      let labels = names.count_label p.ns_domain in
      let same = names.compare_domain_name p.ns_domain q.qname in
      if same == labels
      then serve_ns p
      else if same + 1 == labels
      then serve_zone names p q
      else next
