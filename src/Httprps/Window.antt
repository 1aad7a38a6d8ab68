-- ===== src/Httprps/Window.antt =====
-- The total is that of the last 60 turns of the ticker, and no request is lost or counted twice.
use ncdn.Base.{
  ℕ, zero, suc, ◌+◌, ◌-◌, ◌%◌, ◌^◌, ◌<◌, ◌≡◌, refl, sym, ap, ◌∙◌, Option, none, some, List, [], ◌∷◌,
  length, length-set, get_or, set, get_or-set_self, get_or-set_ne, get_or-replicate, arith,
}
use ncdn.Httprps.{window_size, Middleware, Runs, starts, serves, swaps, updates}

-- The sum of the first `k` elements.
abbrev pub sum_first : ℕ → List ℕ → ℕ
sum_first zero h = 0
sum_first (suc k) [] = 0
sum_first (suc k) (c ∷ h) = c + sum_first k h

abbrev pub sum : List ℕ → ℕ
sum [] = 0
sum (c ∷ h) = c + sum h

abbrev pub held : Option ℕ → ℕ
held none = 0
held (some c) = c

sum_first-suc : (k : ℕ) (h : List ℕ) → sum_first (suc k) h ≡ sum_first k h + get_or h k 0
sum_first-suc zero [] = refl
sum_first-suc zero (c ∷ h) = omega arith
sum_first-suc (suc k) [] = refl
sum_first-suc (suc k) (c ∷ h) = omega (arith, sum_first-suc k h)

-- The ring holds the last 60 counts, and the total is their sum.
record IsWindow (m : Middleware) (p : Option ℕ) (h : List ℕ) : Type 0 where
  in_ring : m.current_idx < window_size
  whole : length m.counts ≡ window_size
  small : (i : ℕ) → get_or h i 0 < 2 ^ 64
  small_held : held p < 2 ^ 64
  small_curr : m.curr < 2 ^ 64
  ring :
      (k : ℕ)
      → k < window_size
      → get_or m.counts ((m.current_idx + 59 - k) % window_size) 0 ≡ get_or h k 0
  sums : m.total ≡ sum_first window_size h % (2 ^ 64)

total-update :
    (total old c w w' : ℕ)
    → old < 2 ^ 64
    → total ≡ w % (2 ^ 64)
    → w' + old ≡ c + w
    → ((total + (2 ^ 64 - old)) % (2 ^ 64) + c) % (2 ^ 64) ≡ w' % (2 ^ 64)
total-update total old c w w' small e shift = omega arith

ring-update :
    (m : Middleware) (c : ℕ) (p : Option ℕ) (h : List ℕ)
    → IsWindow m p h
    → (k : ℕ) → k < window_size
    → get_or
        (set m.counts m.current_idx c)
        (((m.current_idx + 1) % window_size + 59 - k) % window_size)
        0
      ≡ get_or (c ∷ h) k 0
ring-update m c p h w zero few =
    let i = w.in_ring in
    let l = w.whole in
    let here : ((m.current_idx + 1) % window_size + 59 - 0) % window_size ≡ m.current_idx =
      omega arith in
    rw here (get_or-set_self m.counts m.current_idx c 0 (omega arith))
ring-update m c p h w (suc k) few =
    let i = w.in_ring in
    let here : ((m.current_idx + 1) % window_size + 59 - suc k) % window_size
        ≡ (m.current_idx + 59 - k) % window_size =
      omega arith in
    rw here (get_or-set_ne m.counts m.current_idx _ c 0 (omega arith) ∙ w.ring k (omega arith))

small-cons :
    (c : ℕ) (h : List ℕ)
    → c < 2 ^ 64
    → ((i : ℕ) → get_or h i 0 < 2 ^ 64)
    → (i : ℕ) → get_or (c ∷ h) i 0 < 2 ^ 64
small-cons c h few all zero = few
small-cons c h few all (suc i) = all i

Runs-IsWindow : {m : Middleware} {p : Option ℕ} {h : List ℕ} {n : ℕ} → Runs m p h n → IsWindow m p h
Runs-IsWindow starts = record {
  in_ring = omega arith;
  whole = refl;
  small = λ i. omega arith;
  small_held = omega arith;
  small_curr = omega arith;
  ring = λ k few. get_or-replicate window_size ((0 + 59 - k) % window_size) 0;
  sums = refl;
}
Runs-IsWindow (serves m p h n run) =
    let w = Runs-IsWindow run in
    record {
      in_ring = w.in_ring;
      whole = w.whole;
      small = w.small;
      small_held = w.small_held;
      small_curr = omega arith;
      ring = w.ring;
      sums = w.sums;
    }
Runs-IsWindow (swaps m h n run) =
    let w = Runs-IsWindow run in
    record {
      in_ring = w.in_ring;
      whole = w.whole;
      small = w.small;
      small_held = w.small_curr;
      small_curr = omega arith;
      ring = w.ring;
      sums = w.sums;
    }
Runs-IsWindow (updates m c h n run) =
    let w = Runs-IsWindow run in
    let i = w.in_ring in
    let at : (m.current_idx + 59 - 59) % window_size ≡ m.current_idx = omega arith in
    let old : get_or m.counts m.current_idx 0 ≡ get_or h 59 0 =
      ap (λ i. get_or m.counts i 0) (sym at) ∙ w.ring 59 (omega arith) in
    record {
      in_ring = omega arith;
      whole = length-set m.counts m.current_idx c ∙ w.whole;
      small = small-cons c h w.small_held w.small;
      small_held = omega arith;
      small_curr = w.small_curr;
      ring = ring-update m c (some c) h w;
      sums = rw old (
          total-update m.total (get_or h 59 0) c (sum_first window_size h)
            (sum_first window_size (c ∷ h)) (w.small 59) w.sums
            (omega (arith, sum_first-suc 59 h)));
    }

-- At every point of every run, between the ticker's two steps as well, the total is the sum of what the
-- last 60 turns counted, as an int64.
pub Runs-total :
    {m : Middleware} {p : Option ℕ} {h : List ℕ} {n : ℕ}
    → Runs m p h n
    → m.total ≡ sum_first window_size h % (2 ^ 64)
Runs-total run = (Runs-IsWindow run).sums

-- At every point of every run, the requests so far are those that the turns counted, those that the
-- ticker holds and those that wait for it, modulo 2^64.
pub Runs-counted :
    {m : Middleware} {p : Option ℕ} {h : List ℕ} {n : ℕ}
    → Runs m p h n
    → n % (2 ^ 64) ≡ (sum h + held p + m.curr) % (2 ^ 64)
Runs-counted starts = refl
Runs-counted (serves m p h n run) = let before = Runs-counted run in omega arith
Runs-counted (swaps m h n run) = let before = Runs-counted run in omega arith
Runs-counted (updates m c h n run) = let before = Runs-counted run in omega arith
