-- ===== src/Gslb/Setup/Tests.antt =====
-- A small Corefile, and the theorem of the parser at it.
use Prim.Native.String.{String}
use text.Mathlib.Text.{◌==◌ as str_eq}
use ncdn.Base.{
  ◌<◌, ◌≤◌, ◌≡◌, refl, Bool, true, false, Bool-cases, none, some, List, [], ◌∷◌, ◌⊎◌, inl, inr,
  arith, if◌then◌else◌, length,
}
use ncdn.Netip.{Addr, v4}
use ncdn.Gslb.Core.{Config}
use ncdn.Gslb.Setup.{Controller, Parsers, done, failed, setup}
use ncdn.Gslb.Setup.Cursor.{Consumes}
use ncdn.Gslb.Setup.Total.{setup-total}

-- A Corefile as the list of its tokens: a cursor is what is left, its first token the current one.
abbrev tail_of : List String → List String
tail_of [] = []
tail_of (_ ∷ ts) = ts

abbrev some_left : List String → Bool
some_left [] = false
some_left (_ ∷ []) = false
some_left (_ ∷ _ ∷ _) = true

abbrev current : List String → String
current [] = ""
current (t ∷ _) = t

abbrev advance : List String → List String × Bool
advance ts = (if some_left ts then tail_of ts else ts, some_left ts)

abbrev tokens : Controller
tokens = record {
  Cursor = List String;
  next = advance;
  next_arg = advance;
  next_block = λ ts. if str_eq (current (tail_of ts)) "}" then (tail_of ts, false) else advance ts;
  val = current;
}

abbrev file : List String
file = "" ∷ "ncdn" ∷ "ns_a_addr" ∷ "192.0.2.53" ∷ "}" ∷ []

abbrev address_parsers : Parsers
address_parsers = record {
  parse_addr = λ s. some (v4 0xc000_0235);
  resolve = λ s. none;
  parse_prefix = λ s. none;
  parse_ip = λ s. some (v4 0xc000_0235);
}

advance-le : (ts : List String) → length (advance ts).0 ≤ length ts
advance-le [] = omega arith
advance-le (_ ∷ []) = omega arith
advance-le (_ ∷ _ ∷ _) = omega arith

advance-lt : (ts : List String) → (advance ts).1 ≡ true → length (advance ts).0 < length ts
advance-lt [] e = absurd (cc)
advance-lt (_ ∷ []) e = absurd (cc)
advance-lt (_ ∷ _ ∷ _) e = omega arith

tail_of-le : (ts : List String) → length (tail_of ts) ≤ length ts
tail_of-le [] = omega arith
tail_of-le (_ ∷ ts) = omega arith

block-le : (ts : List String) → length (tokens.next_block ts).0 ≤ length ts
block-le ts = elim (Bool-cases (str_eq (current (tail_of ts)) "}")) [
  | inl closed ↦ rw closed (tail_of-le ts)
  | inr open_still ↦ rw open_still (advance-le ts)
]

abbrev tokens-Consumes : Consumes tokens
tokens-Consumes = record {
  left = λ ts. length ts;
  next_le = advance-le;
  next_lt = advance-lt;
  next_arg_le = advance-le;
  next_arg_lt = advance-lt;
  next_block_le = block-le;
}

setup-total_example :
    ((zone : String) × (cfg : Config) × (ip : Addr) × (("cdn.example." ∷ []) ≡ zone ∷ [])
      × (setup tokens address_parsers 9 ("cdn.example." ∷ []) file ≡ done (zone, cfg, ip)))
    ⊎ ((e : String) × (setup tokens address_parsers 9 ("cdn.example." ∷ []) file ≡ failed e))
setup-total_example =
    setup-total tokens tokens-Consumes address_parsers 9 ("cdn.example." ∷ []) file (omega arith)

file_accepted :
    setup tokens address_parsers 9 ("cdn.example." ∷ []) file
    ≡ done (
      "cdn.example.",
      record { pops = []; regions = []; prober_secret = ""; http_server = "" },
      v4 0xc000_0235,
    )
unfolding setup
file_accepted = refl
