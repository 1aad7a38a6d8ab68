-- ===== src/L4lb/Bindings/Layout.antt =====
-- The bytes of the destinations: ten for each, four of the address and six of the hardware address.
use ncdn.Base.{
  ℕ, zero, suc, ◌*◌, ◌≡◌, refl, sym, ap, ap₂, ◌∙◌, arith, some, List, [], ◌∷◌, ◌++◌, length,
  length-append, get_elem?, drop,
}
use ncdn.Netip.{v4, as4, bytes4}
use ncdn.L4lb.Driver.{DestinationEntry}
use ncdn.L4lb.Bindings.{copy, bytes, marshal_binary}

-- The bytes of entry `i`.
abbrev pub entry_at : ℕ → List ℕ → List ℕ
entry_at zero buf = copy 10 buf
entry_at (suc i) buf = entry_at i (drop 10 buf)

length-copy : (n : ℕ) (bs : List ℕ) → length (copy n bs) ≡ n
unfolding copy
length-copy zero bs = refl
length-copy (suc n) [] = ap suc (length-copy n [])
length-copy (suc n) (b ∷ bs) = ap suc (length-copy n bs)

drop-append : (xs ys : List ℕ) → drop (length xs) (xs ++ ys) ≡ ys
drop-append [] ys = refl
drop-append (x ∷ xs) ys = drop-append xs ys

copy-append : (xs ys : List ℕ) → copy (length xs) (xs ++ ys) ≡ xs
unfolding copy
copy-append [] ys = refl
copy-append (x ∷ xs) ys = ap (◌∷◌ x) (copy-append xs ys)

-- The bytes of one destination.
abbrev pub entry_bytes : ℕ → List ℕ → List ℕ
entry_bytes a mac = bytes4 a ++ copy 6 mac

length-entry_bytes : (a : ℕ) (mac : List ℕ) → length (entry_bytes a mac) ≡ 10
unfolding bytes4
length-entry_bytes a mac = omega (arith, length-copy 6 mac)

entry_at-first :
    (a : ℕ) (mac rest : List ℕ) → entry_at 0 (entry_bytes a mac ++ rest) ≡ entry_bytes a mac
entry_at-first a mac rest =
    ap (λ n. copy n (entry_bytes a mac ++ rest)) (sym (length-entry_bytes a mac))
    ∙ copy-append (entry_bytes a mac) rest

entry_at-later :
    (a : ℕ) (mac rest : List ℕ) (i : ℕ)
    → entry_at (suc i) (entry_bytes a mac ++ rest) ≡ entry_at i rest
entry_at-later a mac rest i =
    ap (λ n. entry_at i (drop n (entry_bytes a mac ++ rest))) (sym (length-entry_bytes a mac))
    ∙ ap (entry_at i) (drop-append (entry_bytes a mac) rest)

-- The destinations are all of IPv4.
abbrev pub AllIpv4 : List DestinationEntry → Type 0
AllIpv4 [] = Unit {0}
AllIpv4 (e ∷ es) = ((a : ℕ) × (e.ip_addr ≡ v4 a)) × AllIpv4 es

-- Destinations that are all of IPv4 are marshalled, into ten bytes each: at ten times its index, entry
-- `e` has the four bytes of its address and then its hardware address, cut or filled with zeros to
-- six bytes.
pub marshal_binary-layout :
    (es : List DestinationEntry)
    → AllIpv4 es
    → (buf : List ℕ) × (marshal_binary es ≡ bytes buf)
      × (length buf ≡ 10 * length es)
      × ((i : ℕ) (e : DestinationEntry) (a : ℕ)
          → get_elem? es i ≡ some e
          → e.ip_addr ≡ v4 a
          → entry_at i buf ≡ bytes4 a ++ copy 6 e.hardware_addr)
unfolding marshal_binary as4
marshal_binary-layout [] all = ([], refl, refl, λ i e a at ip. absurd (cc))
marshal_binary-layout (e ∷ es) ((a, ip), all) =
    let (rest, made, long, laid) = marshal_binary-layout es all in
    let mac = e.hardware_addr in
    let ten = length-entry_bytes a mac in
    let appended = length-append (entry_bytes a mac) rest in
    (entry_bytes a mac ++ rest, rw (ip, made, marshal_binary) refl, omega arith, entries rest laid)
  where
    entries :
        (rest : List ℕ)
        → ((i : ℕ) (d : DestinationEntry) (b : ℕ)
            → get_elem? es i ≡ some d
            → d.ip_addr ≡ v4 b
            → entry_at i rest ≡ entry_bytes b d.hardware_addr)
        → (i : ℕ) (d : DestinationEntry) (b : ℕ) → get_elem? (e ∷ es) i ≡ some d
        → d.ip_addr ≡ v4 b
        → entry_at i (entry_bytes a e.hardware_addr ++ rest) ≡ entry_bytes b d.hardware_addr
    entries rest laid zero d b at ip' =
        let same : e ≡ d = cc in
        let address : a ≡ b = cc in
        entry_at-first a e.hardware_addr rest
        ∙ ap₂ entry_bytes address (ap (λ (t : DestinationEntry). t.hardware_addr) same)
    entries rest laid (suc i) d b at ip' =
        entry_at-later a e.hardware_addr rest i ∙ laid i d b at ip'
