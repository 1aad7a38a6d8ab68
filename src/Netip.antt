-- ===== src/Netip.antt =====
-- The parts of Go's net/netip that gslb, l4lb and types use. An IPv4 address is its 32-bit number
-- and an IPv6 address its 128-bit number with a zone; the zero `Addr` is `unset`.
use Prim.Native.String.{String}
use text.Mathlib.Text.{◌==◌ as str_eq}
use text.Mathlib.TextEquality.{eq_iff}
use ncdn.Base.{
  ℕ, ◌-◌, ◌/◌, ◌%◌, ◌^◌, ◌≡◌, Bool, true, false, ◌&&◌, Option, none, some, List, [], ◌∷◌, arith,
  ◌==◌, if◌then◌else◌,
}

pub data Addr : Type 0 where
  unset : Addr
  v4 : ℕ → Addr
  v6 : ℕ → String → Addr

-- `Is4`, and `Is6`, which holds of IPv4-mapped addresses too.
abbrev pub is4 : Addr → Bool
is4 (v4 _) = true
is4 _ = false

abbrev pub is6 : Addr → Bool
is6 (v6 _ _) = true
is6 _ = false

-- The four bytes of a 32-bit number, the first the most significant.
unfoldable pub bytes4 : ℕ → List ℕ
bytes4 a = a / 2 ^ 24 % 256 ∷ a / 2 ^ 16 % 256 ∷ a / 2 ^ 8 % 256 ∷ a % 256 ∷ []

-- Is the 128-bit number an IPv4 address mapped to IPv6, ::ffff:a.b.c.d?
abbrev pub is_mapped : ℕ → Bool
is_mapped a = a / 2 ^ 32 == 0xffff

-- `As4`; `none` is its panic, on the zero `Addr` and on an IPv6 address that is not mapped.
unfoldable pub as4 : Addr → Option (List ℕ)
as4 unset = none
as4 (v4 a) = some (bytes4 a)
as4 (v6 a _) = if is_mapped a then some (bytes4 (a % 2 ^ 32)) else none

-- `Unmap`
unfoldable pub unmap : Addr → Addr
unmap unset = unset
unmap (v4 a) = v4 a
unmap (v6 a z) = if is_mapped a then v4 (a % 2 ^ 32) else v6 a z

-- `a.Compare(b) == 0`
unfoldable pub same_addr : Addr → Addr → Bool
same_addr unset unset = true
same_addr (v4 a) (v4 b) = a == b
same_addr (v6 a y) (v6 b z) = a == b && str_eq y z
same_addr _ _ = false

pub same_addr_refl : (a : Addr) → same_addr a a ≡ true
unfolding same_addr
same_addr_refl unset = ground arith
same_addr_refl (v4 a) = ground arith
same_addr_refl (v6 a z) = ground (arith, eq_iff z z)

pub eq_of_same_addr : (a b : Addr) → same_addr a b ≡ true → a ≡ b
unfolding same_addr
eq_of_same_addr (v4 a) (v4 b) h = ground arith
eq_of_same_addr (v6 a y) (v6 b z) h = ground (arith, eq_iff y z)
eq_of_same_addr unset b h = ground arith
eq_of_same_addr a b h = ground arith

-- A prefix that `ParsePrefix` returns: an address without a zone, and at most as many bits as it has.
pub record Prefix : Type 0 where
  pub addr : Addr
  pub bits : ℕ

-- `p.Contains(ip)`: the same family, and the same first `bits` bits. An address with a zone is in no
-- prefix.
unfoldable pub contains : Prefix → Addr → Bool
contains p ip = inside p.addr p.bits ip
  where
    inside : Addr → ℕ → Addr → Bool
    inside (v4 a) bits (v4 b) = a / 2 ^ (32 - bits) == b / 2 ^ (32 - bits)
    inside (v6 a _) bits (v6 b z) = str_eq z "" && a / 2 ^ (128 - bits) == b / 2 ^ (128 - bits)
    inside _ bits _ = false
