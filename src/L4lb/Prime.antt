-- ===== src/L4lb/Prime.antt =====
-- Arithmetic behind the lookup table of l4lb/l4lbdrv/drv.go: steps of a fixed skip around a table of
-- prime size reach every slot, and MAGLEV_TABLE_SIZE is prime.
use native.Mathlib.Nat.{
  mod-lt, mod-eq_of_lt, mul-le-mul, div-add-mod, add-mul-mod_self_right, mul-mod_left,
}
use ncdn.Base.{
  ℕ, zero, suc, ◌+◌, ◌-◌, ◌*◌, ◌/◌, ◌%◌, ◌<◌, ◌≤◌, ◌≡◌, ◌≢◌, refl, sym, ap, ◌∙◌, Bool, true, ◌&&◌,
  ◌||◌, arith, ◌==◌, not, dec_lt,
}

-- `t` undoes a multiplication by `s` modulo `p`; the quotient is kept, so that no `%` is left.
abbrev pub Inverse : ℕ → ℕ → Type 0
Inverse p s = (t q : ℕ) × (t * s ≡ q * p + 1)

-- No number strictly between 1 and `p` divides `p`.
abbrev pub IsPrime : ℕ → Type 0
IsPrime p = (1 < p) × ((s : ℕ) → 1 < s → s < p → p % s ≢ 0)

-- One Euclidean step: an inverse of the remainder gives one of the divisor.
Inverse-step :
    (p s r d k u q : ℕ) → d * suc s + r ≡ p → k + d ≡ p → u * r ≡ q * p + 1 → Inverse p (suc s)
Inverse-step p s r d k u q e split h = (
  u * k,
  u * s + q,
  omega (
    arith,
    h,
    ap (λ (t : ℕ). u * t) e,
    ap (λ (t : ℕ). u * suc s * t) split,
    ap (λ (t : ℕ). u * t) split,
  ),
)

-- Euclid's descent, on a bound of the number.
Inverse-below : (p : ℕ) → IsPrime p → (n s : ℕ) → s < n → 0 < s → s < p → Inverse p s
Inverse-below p prime zero s h pos lt = absurd (omega arith)
Inverse-below p prime (suc n) zero h pos lt = absurd (omega arith)
Inverse-below p prime (suc n) (suc zero) h pos lt = (1, 0, omega arith)
Inverse-below p prime (suc n) (suc (suc s)) h pos lt =
    let r = p % suc (suc s) in
    let r_lt : r < suc (suc s) = mod-lt p (omega arith) in
    let r_pos : r ≢ 0 = prime.1 (suc (suc s)) (omega arith) lt in
    let (u, q, e) = Inverse-below p prime n r (omega arith) (omega arith) (omega arith) in
    let d = p / suc (suc s) in
    let whole : d * suc (suc s) + r ≡ p = omega (arith, div-add-mod p (suc (suc s))) in
    Inverse-step p (suc s) r d (p - d) u q whole (omega (arith, whole)) e

-- Every number between 0 and a prime has an inverse modulo it.
pub inverse : (p : ℕ) → IsPrime p → (s : ℕ) → 0 < s → s < p → Inverse p s
inverse p prime s pos lt = Inverse-below p prime (suc s) s (omega arith) pos lt

pub mod_cancel : (a b x y p : ℕ) → a + x * p ≡ b + y * p → a % p ≡ b % p
mod_cancel a b x y p e =
    sym (add-mul-mod_self_right a x p) ∙ ap (λ t. t % p) e ∙ add-mul-mod_self_right b y p

reach_eq :
    (p o s f g t q : ℕ)
    → g + o ≡ f + p
    → t * s ≡ q * p + 1
    → o + g * t % p * s + g * t / p * s * p ≡ f + (g * q + 1) * p
reach_eq p o s f g t q hg ht =
    omega (arith, hg, ap (λ (n : ℕ). g * n) ht, ap (λ (n : ℕ). n * s) (div-add-mod (g * t) p))

-- From any slot `o`, some number of steps below `p` leads to any slot `f`.
pub reaches :
    (p : ℕ)
    → IsPrime p
    → (o s f : ℕ) → o < p
    → 0 < s
    → s < p
    → f < p
    → (k : ℕ) × (k < p) × ((o + k * s) % p ≡ f)
reaches p prime o s f ho hs hp hf =
    let (t, q, ht) = inverse p prime s hs hp in
    let g = f + p - o in
    let e = reach_eq p o s f g t q (omega arith) ht in
    (
      g * t % p,
      mod-lt (g * t) (omega arith),
      mod_cancel (o + g * t % p * s) f (g * t / p * s) (g * q + 1) p e ∙ mod-eq_of_lt hf,
    )

-- No number from 2 up to `n` divides `p`.
no_divisor : ℕ → ℕ → Bool
no_divisor p zero = true
no_divisor p (suc n) = (not (p % suc n == 0) || n == 0) && no_divisor p n

no_divisor_sound : (p n s : ℕ) → no_divisor p n ≡ true → 1 < s → s ≤ n → p % s ≢ 0
unfolding no_divisor
no_divisor_sound p zero s h lo le = absurd (omega arith)
no_divisor_sound p (suc n) s h lo le = elim (dec_lt s (suc n)) [
  | yes below ↦ no_divisor_sound p n s (ground arith) lo (omega arith)
  | no top ↦ let e : s ≡ suc n = omega arith in rw e (ground arith)
]

small_factors : no_divisor 65537 256 ≡ true
unfolding no_divisor
small_factors = refl

cofactor-gt : (s d : ℕ) → s * d ≡ 65537 → s < 65537 → 1 < d
cofactor-gt s zero e lt = absurd (omega arith)
cofactor-gt s (suc zero) e lt = absurd (omega arith)
cofactor-gt s (suc (suc d)) e lt = omega arith

cofactor-le : (s d : ℕ) → s * d ≡ 65537 → 256 < s → d ≤ 256
cofactor-le s d e lo = elim (dec_lt 256 d) [
  | yes big ↦ let many : 257 * 257 ≤ s * d = mul-le-mul lo big in absurd (omega (arith, many))
  | no small ↦ omega arith
]

-- A divisor above 256 comes with a cofactor below it.
large_factors : (s : ℕ) → 256 < s → s < 65537 → 65537 % s ≢ 0
large_factors s lo lt e =
    let d = 65537 / s in
    let whole : s * d ≡ 65537 = omega (arith, div-add-mod 65537 s) in
    let above : ◌<◌ 1 d = cofactor-gt s d whole lt in
    let under : d ≤ 256 = cofactor-le s d whole lo in
    no_divisor_sound 65537 256 d small_factors above under
      (ap (λ t. t % d) (sym whole) ∙ mul-mod_left s d)

pub IsPrime-65537 : IsPrime 65537
IsPrime-65537 = (
  omega arith,
  λ s lo lt. elim (dec_lt 256 s) [
    | yes large ↦ large_factors s large lt
    | no small ↦ no_divisor_sound 65537 256 s small_factors lo (omega arith)
  ],
)
