-- ===== src/Gslb/Setup/Cursor.antt =====
-- What the loops of the parser leave of the tokens.
use Prim.Native.String.{String}
use text.Mathlib.Text.{◌==◌ as str_eq}
use ncdn.Base.{
  ℕ, zero, suc, ◌+◌, ◌<◌, ◌≤◌, ◌≡◌, arith, true, Bool-cases, Option, Option-cases, inl, inr,
}
use ncdn.Gslb.Setup.{
  Controller, Result, done, failed, out_of_fuel, bind, argument, brace, each_arg, properties,
}

-- The tokens that are left: `Next` and `NextArg` take one when they return true, and no call puts one
-- back.
pub record Consumes (c : Controller) : Type 0 where
  pub left : c.Cursor → ℕ
  pub next_le : (s : c.Cursor) → left (c.next s).0 ≤ left s
  pub next_lt : (s : c.Cursor) → (c.next s).1 ≡ true → left (c.next s).0 < left s
  pub next_arg_le : (s : c.Cursor) → left (c.next_arg s).0 ≤ left s
  pub next_arg_lt : (s : c.Cursor) → (c.next_arg s).1 ≡ true → left (c.next_arg s).0 < left s
  pub next_block_le : (s : c.Cursor) → left (c.next_block s).0 ≤ left s

module _ (c : Controller) (l : Consumes c) where
  open c use {Cursor, next, next_arg, next_block, val}
  open l use {left}

  -- A result that did not meet its fuel, with fewer than `n` tokens left.
  abbrev pub Below : {A : Type 0} → ℕ → Result (Cursor × A) → Type 0
  Below n (done r) = left r.0 < n
  Below n (failed _) = Unit {0}
  Below n out_of_fuel = ⊥

  pub Below-weaken :
      {A : Type 0} (m n : ℕ) (r : Result (Cursor × A)) → m ≤ n → Below m r → Below n r
  Below-weaken m n (done r) le h = omega arith
  Below-weaken m n (failed e) le h = tt
  Below-weaken m n out_of_fuel le h = absurd h

  pub Below-bind :
      {A B : Type 0} (m n : ℕ) (r : Result (Cursor × A)) (k : Cursor × A → Result (Cursor × B))
      → Below m r
      → ((t : Cursor × A) → left t.0 < m → Below n (k t))
      → Below n (bind r k)
  unfolding bind
  Below-bind m n (done t) k h rest = rest t h
  Below-bind m n (failed e) k h rest = tt
  Below-bind m n out_of_fuel k h rest = absurd h

  argument-Below : (s : Cursor) → Below (left s) (argument c s)
  unfolding argument
  argument-Below s = elim (Bool-cases (next_arg s).1) [
    | inl more ↦ rw (more, argument) (l.next_arg_lt s more)
    | inr stop ↦ rw (stop, argument) tt
  ]

  pub each_arg-Below :
      {A : Type 0} (step : A → String → Option A) (what : String) (fuel : ℕ) (s : Cursor) (a : A)
      → left s < fuel
      → Below (left s + 1) (each_arg c step what fuel s a)
  unfolding each_arg
  each_arg-Below step what zero s a lt = absurd (omega arith)
  each_arg-Below step what (suc fuel) s a lt = elim (Bool-cases (next_arg s).1) [
    | inl more ↦ elim (Option-cases (step a (val (next_arg s).0))) [
      | inl bad ↦ rw (more, bad, each_arg) tt
      | inr (a', good) ↦
          let shorter = l.next_arg_lt s more in
          rw (more, good, each_arg)
            (Below-weaken (left (next_arg s).0 + 1) (left s + 1) _ (omega arith)
              (each_arg-Below step what fuel (next_arg s).0 a' (omega arith)))
    ]
    | inr stop ↦ let shorter = l.next_arg_le s in rw (stop, each_arg) (omega arith)
  ]

  abbrev pub PropertyBelow : {A : Type 0} → (String → ℕ → Cursor → A → Result (Cursor × A)) → Type 0
  PropertyBelow {A} property =
      (key : String) (fuel : ℕ) (s : Cursor) (a : A)
      → left s < fuel
      → Below (left s + 1) (property key fuel s a)

  pub properties-Below :
      {A : Type 0} (property : String → ℕ → Cursor → A → Result (Cursor × A))
      → PropertyBelow property
      → (fuel : ℕ) (s : Cursor) (a : A) → left s < fuel
      → Below (left s + 1) (properties c property fuel s a)
  unfolding properties
  properties-Below property good zero s a lt = absurd (omega arith)
  properties-Below property good (suc fuel) s a lt = elim (Bool-cases (next s).1) [
    | inl more ↦
        let shorter = l.next_lt s more in
        elim (Bool-cases (str_eq (val (next s).0) "}")) [
          | inl closed ↦ rw (more, closed, properties) (omega arith)
          | inr open_still ↦
              rw (more, open_still, properties)
                (Below-bind (left (next s).0 + 1) (left s + 1) _ _
                  (good (val (next s).0) fuel (next s).0 a (omega arith))
                  (λ t fewer.
                    Below-weaken (left t.0 + 1) (left s + 1) _ (omega arith)
                      (properties-Below property good fuel t.0 t.1 (omega arith))))
        ]
    | inr stop ↦ let shorter = l.next_le s in rw (stop, properties) (omega arith)
  ]

  -- An argument, and then what keeps its tokens.
  pub argument-bind :
      {B : Type 0} (s : Cursor) (k : Cursor × String → Result (Cursor × B))
      → ((t : Cursor × String) → left t.0 < left s → Below (left s) (k t))
      → Below (left s) (bind (argument c s) k)
  argument-bind s k h = Below-bind (left s) (left s) (argument c s) k (argument-Below s) h

  pub brace-bind :
      {B : Type 0} (what : String) (n : ℕ) (s : Cursor) (k : Cursor → Result (Cursor × B))
      → ((t : Cursor) → left t < left s → Below n (k t))
      → Below n (bind (brace c what s) k)
  unfolding brace bind
  brace-bind what n s k h = elim (Bool-cases (next_arg s).1) [
    | inl more ↦ elim (Bool-cases (str_eq (val (next_arg s).0) "{")) [
      | inl opened ↦ rw (more, opened, brace, bind) (h (next_arg s).0 (l.next_arg_lt s more))
      | inr other ↦ rw (more, other, brace, bind) tt
    ]
    | inr stop ↦ rw (stop, brace, bind) tt
  ]
