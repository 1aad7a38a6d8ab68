-- ===== src/L4lb/Bindings.antt =====
-- l4lb/l4lbdrv/bindings.go and bindings_generated.go: the binary form of the destinations, the counters
-- of the XDP program, and their layout. Printing of numbers is a parameter.
pub mod Layout
pub mod Counters
use Prim.Native.String.{String, slice, len}
use text.Mathlib.Text.{◌==◌ as str_eq}
use ncdn.Base.{
  ℕ, zero, suc, ◌+◌, ◌-◌, ◌%◌, ◌^◌, Bool, true, false, not, Option, none, some, List, [], ◌∷◌, ◌++◌,
  ◌⊎◌, inl, inr, ◌==◌, if◌then◌else◌,
}
use ncdn.Netip.{Addr, is6, as4}
use ncdn.L4lb.Driver.{DestinationEntry}

abbrev pub concat : String → String → String
concat = Prim.Native.String.◌++◌

-- `XdpRetValToString`
unfoldable pub xdp_ret_val_to_string : (ℕ → String) → ℕ → String
xdp_ret_val_to_string decimal retval =
    if retval == 0
    then "XDP_ABORTED"
    else if retval == 1
    then "XDP_DROP"
    else if retval == 2
    then "XDP_PASS"
    else if retval == 3
    then "XDP_TX"
    else concat "Unknown(" (concat (decimal retval) ")")

-- `copy` into `n` zero bytes.
unfoldable pub copy : ℕ → List ℕ → List ℕ
copy zero bs = []
copy (suc n) [] = 0 ∷ copy n []
copy (suc n) (b ∷ bs) = b ∷ copy n bs

-- What `MarshalBinary` returns, or the panic of `As4` on the zero address.
pub data Marshalled : Type 0 where
  bytes : List ℕ → Marshalled
  not_ipv4 : Addr → Marshalled
  panic : Marshalled

-- An entry before what the rest gives.
abbrev pub before : List ℕ → Marshalled → Marshalled
before bs (bytes rest) = bytes (bs ++ rest)
before bs (not_ipv4 ip) = not_ipv4 ip
before bs panic = panic

-- `MarshalBinary`
unfoldable pub marshal_binary : List DestinationEntry → Marshalled
unfolding copy
marshal_binary [] = bytes []
marshal_binary (e ∷ es) =
    let rest = marshal_binary es in
    if is6 e.ip_addr then not_ipv4 e.ip_addr else elim (as4 e.ip_addr) [
      | none ↦ panic
      | some ip4 ↦ before (ip4 ++ copy 6 e.hardware_addr) rest
    ]

-- `StatCounters`
pub record StatCounters : Type 0 where
  pub rx_packet_total : ℕ
  pub rx_total_size : ℕ
  pub too_short_packet_total : ℕ
  pub non_ipv4_packet_total : ℕ
  pub ip_option_packet_total : ℕ
  pub non_supported_proto_packet_total : ℕ
  pub no_vip_match_total : ℕ
  pub failed_adjust_head_total : ℕ
  pub failed_adjust_tail_total : ℕ

-- `+=` on uint64
abbrev pub add_u64 : ℕ → ℕ → ℕ
add_u64 a b = (a + b) % (2 ^ 64)

-- `Add`
unfoldable pub add : StatCounters → StatCounters → StatCounters
add c other = record {
  rx_packet_total = add_u64 c.rx_packet_total other.rx_packet_total;
  rx_total_size = add_u64 c.rx_total_size other.rx_total_size;
  too_short_packet_total = add_u64 c.too_short_packet_total other.too_short_packet_total;
  non_ipv4_packet_total = add_u64 c.non_ipv4_packet_total other.non_ipv4_packet_total;
  ip_option_packet_total = add_u64 c.ip_option_packet_total other.ip_option_packet_total;
  non_supported_proto_packet_total =
      add_u64 c.non_supported_proto_packet_total other.non_supported_proto_packet_total;
  no_vip_match_total = add_u64 c.no_vip_match_total other.no_vip_match_total;
  failed_adjust_head_total = add_u64 c.failed_adjust_head_total other.failed_adjust_head_total;
  failed_adjust_tail_total = add_u64 c.failed_adjust_tail_total other.failed_adjust_tail_total;
}

abbrev pub zero_counters : StatCounters
zero_counters = record {
  rx_packet_total = 0;
  rx_total_size = 0;
  too_short_packet_total = 0;
  non_ipv4_packet_total = 0;
  ip_option_packet_total = 0;
  non_supported_proto_packet_total = 0;
  no_vip_match_total = 0;
  failed_adjust_head_total = 0;
  failed_adjust_tail_total = 0;
}

-- The loop of `ReadStatCountersAggregate`.
unfoldable pub add_all : StatCounters → List StatCounters → StatCounters
unfolding add
add_all sum [] = sum
add_all sum (c ∷ cs) = add_all (add sum c) cs

-- `ReadStatCountersAggregate`, from what `StatCountersMap.Lookup` gives: the counters of each CPU.
unfoldable pub read_stat_counters_aggregate : List StatCounters ⊎ String → StatCounters ⊎ String
unfolding add_all
read_stat_counters_aggregate (inl cs) = inl (add_all zero_counters cs)
read_stat_counters_aggregate (inr e) = inr (concat "StatCountersMap.Lookup: " e)

-- The names and values that `String` goes through.
abbrev pub named_counters : StatCounters → List (String × ℕ)
named_counters c =
    ("RxPacketTotal", c.rx_packet_total)
    ∷ ("RxTotalSize", c.rx_total_size)
    ∷ ("TooShortPacketTotal", c.too_short_packet_total)
    ∷ ("NonIpv4PacketTotal", c.non_ipv4_packet_total)
    ∷ ("IpOptionPacketTotal", c.ip_option_packet_total)
    ∷ ("NonSupportedProtoPacketTotal", c.non_supported_proto_packet_total)
    ∷ ("NoVipMatchTotal", c.no_vip_match_total)
    ∷ ("FailedAdjustHeadTotal", c.failed_adjust_head_total)
    ∷ ("FailedAdjustTailTotal", c.failed_adjust_tail_total)
    ∷ []

-- `buf` after the counters that are not 0.
unfoldable pub write_counters : (ℕ → String) → String → List (String × ℕ) → String
write_counters decimal buf [] = buf
write_counters decimal buf ((name, n) ∷ cs) =
    write_counters decimal
      (if n == 0 then buf else concat buf (concat (concat name (concat "=" (decimal n))) ", ")) cs

-- `strings.HasSuffix(s, ", ")`
abbrev pub ends_in_comma : String → Bool
ends_in_comma s = str_eq (slice s (len s - 2) (len s)) ", "

-- `String`
unfoldable pub to_string : (ℕ → String) → StatCounters → String
unfolding write_counters
to_string decimal c =
    let buf = write_counters decimal "StatCounters{" (named_counters c) in
    concat (if ends_in_comma buf then slice buf 0 (len buf - 2) else buf) "}"
