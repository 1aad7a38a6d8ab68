-- ===== src/Types.antt =====
-- The shared types of types/types.go. Numbers that are a float64 there are of a parameter `F`.
use Prim.Native.String.{String}
use ncdn.Base.{ℕ, List}
use ncdn.Base.Int.{ℤ}
use ncdn.Netip.{Addr, Prefix}

pub record PopInfo : Type 0 where
  pub id : String
  pub ip4 : Addr
  pub latency_endpoint_url : String
  pub ui_popup_css : String

pub record RegionInfo : Type 0 where
  pub id : String
  pub prefixes : List Prefix
  pub prober_url : String
  pub ui_popup_css : String

pub record PopStatus (F : Type 0) : Type 0 where
  pub id : String
  pub uptime : F
  pub load : F
  pub error : String

pub record ProbeArgs : Type 0 where
  pub target_url : String

-- The times are int64 nanoseconds.
pub record ProbeResult : Type 0 where
  pub prober_node_id : String
  pub url : String
  pub start : ℤ
  pub dns_end : ℤ
  pub connect_end : ℤ
  pub request_end : ℤ
  pub first_byte : ℤ
  pub response_end : ℤ
  pub response_code : ℕ
