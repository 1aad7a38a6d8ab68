-- ===== src/L4lb/Cmd.antt =====
-- The destinations of the command line, `parseDest` of l4lb/cmd/main.go. `strings.Split`,
-- `netip.ParseAddr` and `net.ParseMAC` are parameters.
pub mod Dests
use Prim.Native.String.{String}
use text.Mathlib.Text.{◌==◌ as str_eq}
use ncdn.Base.{ℕ, Bool, true, false, Option, none, some, List, [], ◌∷◌, if◌then◌else◌}
use ncdn.Netip.{Addr, is6}
use ncdn.L4lb.Driver.{DestinationEntry}

pub record Parsers : Type 0 where
  pub split : String → String → List String
  pub parse_addr : String → Option Addr
  pub parse_mac : String → Option (List ℕ)

-- What `parseDest` returns, or the panic of `MustParseAddr`.
pub data Parsed : Type 0 where
  dests : List DestinationEntry → Parsed
  invalid_entry : String → Parsed
  not_ipv4 : Addr → Parsed
  invalid_mac : String → Parsed
  panic : Parsed

-- The destination in front of those of the rest.
abbrev pub before : DestinationEntry → Parsed → Parsed
before e (dests es) = dests (e ∷ es)
before e (invalid_entry c) = invalid_entry c
before e (not_ipv4 ip) = not_ipv4 ip
before e (invalid_mac s) = invalid_mac s
before e panic = panic

module _ (p : Parsers) where
  -- One entry, from its two parts.
  unfoldable pub parse_parts : String → String → Parsed → Parsed
  parse_parts ip mac rest = elim (p.parse_addr ip) [
    | none ↦ panic
    | some ip4 ↦ if is6 ip4 then not_ipv4 ip4 else elim (p.parse_mac mac) [
      | none ↦ invalid_mac mac
      | some hardware_addr ↦ before (record { ip_addr = ip4; hardware_addr = hardware_addr }) rest
    ]
  ]

  -- An entry must have two parts.
  unfoldable pub parse_entry : String → List String → Parsed → Parsed
  unfolding parse_parts
  parse_entry c [] rest = invalid_entry c
  parse_entry c (ip ∷ []) rest = invalid_entry c
  parse_entry c (ip ∷ mac ∷ []) rest = parse_parts ip mac rest
  parse_entry c (ip ∷ mac ∷ _ ∷ _) rest = invalid_entry c

  -- The loop over the entries. What follows an entry counts only when the entry is right.
  unfoldable pub parse_entries : List String → Parsed
  unfolding parse_entry
  parse_entries [] = dests []
  parse_entries (c ∷ cs) =
      let rest = parse_entries cs in
      if str_eq c "" then rest else parse_entry c (p.split c ";") rest

  -- `parseDest`
  unfoldable pub parse_dest : String → Parsed
  unfolding parse_entries
  parse_dest s = parse_entries (p.split s ",")
