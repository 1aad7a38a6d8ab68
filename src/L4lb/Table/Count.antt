-- ===== src/L4lb/Table/Count.antt =====
-- Counting the entries of a lookup table: how many slots are taken, and by which destination.
use ncdn.Base.{
  ℕ, zero, suc, ◌+◌, ◌≤◌, ◌<◌, ◌≡◌, refl, Bool, true, false, List, [], ◌∷◌, arith, ◌==◌, get_or,
  set, replicate, length,
}
use ncdn.Base.Int.{ℤ, pos, negsuc}
use ncdn.L4lb.Table.{taken}

-- Is the slot taken by destination `j`?
abbrev pub holds : ℕ → ℤ → Bool
holds j (pos v) = v == j
holds j (negsuc v) = false

abbrev pub bit : Bool → ℕ
bit true = 1
bit false = 0

abbrev pub used : List ℤ → ℕ
used [] = 0
used (x ∷ xs) = bit (taken x) + used xs

abbrev pub count : ℕ → List ℤ → ℕ
count j [] = 0
count j (x ∷ xs) = bit (holds j x) + count j xs

pub used-replicate : (n : ℕ) → used (replicate n (negsuc 0)) ≡ 0
used-replicate zero = refl
used-replicate (suc n) = omega (arith, used-replicate n)

pub count-replicate : (j n : ℕ) → count j (replicate n (negsuc 0)) ≡ 0
count-replicate j zero = refl
count-replicate j (suc n) = omega (arith, count-replicate j n)

holds-taken : (j : ℕ) (x : ℤ) → bit (holds j x) ≤ bit (taken x)
holds-taken j (pos v) = ground arith
holds-taken j (negsuc v) = omega arith

pub count-le-used : (j : ℕ) (xs : List ℤ) → count j xs ≤ used xs
count-le-used j [] = omega arith
count-le-used j (x ∷ xs) = omega (arith, holds-taken j x, count-le-used j xs)

-- A write to a free slot.
pub used-set :
    (xs : List ℤ) (c i : ℕ)
    → c < length xs
    → taken (get_or xs c (negsuc 0)) ≡ false
    → used (set xs c (pos i)) ≡ used xs + 1
used-set [] c i h free = absurd (omega arith)
used-set (x ∷ xs) zero i h free = ground arith
used-set (x ∷ xs) (suc c) i h free = omega (arith, used-set xs c i (omega arith) free)

pub count-set :
    (xs : List ℤ) (c i j : ℕ)
    → c < length xs
    → taken (get_or xs c (negsuc 0)) ≡ false
    → count j (set xs c (pos i)) ≡ count j xs + bit (i == j)
count-set [] c i j h free = absurd (omega arith)
count-set (pos v ∷ xs) zero i j h free = cc
count-set (negsuc v ∷ xs) zero i j h free = omega arith
count-set (x ∷ xs) (suc c) i j h free = omega (arith, count-set xs c i j (omega arith) free)

-- While fewer slots are taken than there are, some slot is free.
pub free_slot :
    (xs : List ℤ)
    → used xs < length xs
    → (f : ℕ) × (f < length xs) × (taken (get_or xs f (negsuc 0)) ≡ false)
free_slot [] h = absurd (omega arith)
free_slot (negsuc v ∷ xs) h = (0, omega arith, refl)
free_slot (pos v ∷ xs) h =
    let (f, lt, free) = free_slot xs (omega arith) in (suc f, omega arith, free)

-- An entry is counted.
pub count-pos :
    (xs : List ℤ) (k v : ℕ) → k < length xs → get_or xs k (negsuc 0) ≡ pos v → 0 < count v xs
count-pos [] k v h e = absurd (omega arith)
count-pos (x ∷ xs) zero v h e = ground arith
count-pos (x ∷ xs) (suc k) v h e = omega (arith, count-pos xs k v (omega arith) e)

used-le-length : (xs : List ℤ) → used xs ≤ length xs
used-le-length [] = omega arith
used-le-length (pos v ∷ xs) = omega (arith, used-le-length xs)
used-le-length (negsuc v ∷ xs) = omega (arith, used-le-length xs)

-- In a full table every entry names a destination.
pub entry_of_full :
    (xs : List ℤ) (k : ℕ)
    → used xs ≡ length xs
    → k < length xs
    → (v : ℕ) × (get_or xs k (negsuc 0) ≡ pos v)
entry_of_full [] k e h = absurd (omega arith)
entry_of_full (pos v ∷ xs) zero e h = (v, refl)
entry_of_full (negsuc v ∷ xs) k e h = absurd (omega (arith, used-le-length xs))
entry_of_full (pos v ∷ xs) (suc k) e h = entry_of_full xs k (omega arith) (omega arith)
