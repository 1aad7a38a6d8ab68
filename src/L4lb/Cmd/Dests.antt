-- ===== src/L4lb/Cmd/Dests.antt =====
-- What `parseDest` accepts can be marshalled.
use Prim.Native.String.{String}
use text.Mathlib.Text.{◌==◌ as str_eq}
use ncdn.Base.{
  ℕ, ◌*◌, length, subst, ◌≡◌, ◌≢◌, refl, Bool-cases, some, Option-cases, List, [], ◌∷◌, inl, inr,
}
use ncdn.Netip.{unset, v4, v6}
use ncdn.L4lb.Driver.{DestinationEntry}
use ncdn.L4lb.Bindings.{bytes, marshal_binary}
use ncdn.L4lb.Bindings.Layout.{AllIpv4, marshal_binary-layout}
use ncdn.L4lb.Cmd.{
  Parsers, Parsed, dests, invalid_entry, not_ipv4, invalid_mac, panic, before, parse_parts,
  parse_entry, parse_entries, parse_dest,
}

-- `ParseAddr` returns no zero address.
abbrev pub ParsesSet : Parsers → Type 0
ParsesSet p = (s : String) → p.parse_addr s ≢ some unset

-- If a list is returned, it is of IPv4.
abbrev pub Ipv4Parsed : Parsed → Type 0
Ipv4Parsed (dests es) = AllIpv4 es
Ipv4Parsed (invalid_entry _) = Unit {0}
Ipv4Parsed (not_ipv4 _) = Unit {0}
Ipv4Parsed (invalid_mac _) = Unit {0}
Ipv4Parsed panic = Unit {0}

before-Ipv4Parsed :
    (a : ℕ) (mac : List ℕ) (rest : Parsed)
    → Ipv4Parsed rest
    → Ipv4Parsed (before (record { ip_addr = v4 a; hardware_addr = mac }) rest)
before-Ipv4Parsed a mac (dests es) h = ((a, refl), h)
before-Ipv4Parsed a mac (invalid_entry c) h = tt
before-Ipv4Parsed a mac (not_ipv4 ip) h = tt
before-Ipv4Parsed a mac (invalid_mac s) h = tt
before-Ipv4Parsed a mac panic h = tt

module _ (p : Parsers) (set : ParsesSet p) where
  parse_parts-Ipv4Parsed :
      (ip mac : String) (rest : Parsed) → Ipv4Parsed rest → Ipv4Parsed (parse_parts p ip mac rest)
  unfolding parse_parts
  parse_parts-Ipv4Parsed ip mac rest h = elim (Option-cases (p.parse_addr ip)) [
    | inl bad ↦ rw (bad, parse_parts) tt
    | inr (unset, parsed) ↦ absurd (set ip parsed)
    | inr (v6 a z, parsed) ↦ rw (parsed, parse_parts) tt
    | inr (v4 a, parsed) ↦ elim (Option-cases (p.parse_mac mac)) [
      | inl bad ↦ rw (parsed, bad, parse_parts) tt
      | inr (hw, good) ↦ rw (parsed, good, parse_parts) (before-Ipv4Parsed a hw rest h)
    ]
  ]

  parse_entry-Ipv4Parsed :
      (c : String) (parts : List String) (rest : Parsed)
      → Ipv4Parsed rest
      → Ipv4Parsed (parse_entry p c parts rest)
  unfolding parse_entry
  parse_entry-Ipv4Parsed c [] rest h = tt
  parse_entry-Ipv4Parsed c (ip ∷ []) rest h = tt
  parse_entry-Ipv4Parsed c (ip ∷ mac ∷ []) rest h = parse_parts-Ipv4Parsed ip mac rest h
  parse_entry-Ipv4Parsed c (ip ∷ mac ∷ _ ∷ _) rest h = tt

  parse_entries-Ipv4Parsed : (cs : List String) → Ipv4Parsed (parse_entries p cs)
  unfolding parse_entries
  parse_entries-Ipv4Parsed [] = tt
  parse_entries-Ipv4Parsed (c ∷ cs) =
      let rest = parse_entries-Ipv4Parsed cs in
      elim (Bool-cases (str_eq c "")) [
        | inl empty ↦ rw (empty, parse_entries) rest
        | inr full ↦ rw (full, parse_entries) (parse_entry-Ipv4Parsed c (p.split c ";") _ rest)
      ]

  parse_dest-Ipv4Parsed : (s : String) → Ipv4Parsed (parse_dest p s)
  unfolding parse_dest
  parse_dest-Ipv4Parsed s = parse_entries-Ipv4Parsed (p.split s ",")

  -- The destinations that `parseDest` returns, as long as `ParseAddr` returns no zero address, are
  -- those that `MarshalBinary` accepts, and it makes ten bytes of each.
  pub parse_dest-marshal_binary :
      (s : String) (es : List DestinationEntry)
      → parse_dest p s ≡ dests es
      → (buf : List ℕ) × (marshal_binary es ≡ bytes buf) × (length buf ≡ 10 * length es)
  parse_dest-marshal_binary s es e =
      let all : AllIpv4 es = subst Ipv4Parsed e (parse_dest-Ipv4Parsed s) in
      let (buf, made, long, _) = marshal_binary-layout es all in (buf, made, long)
