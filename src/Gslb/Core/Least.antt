-- ===== src/Gslb/Core/Least.antt =====
-- The search for the least latency, which `getMostAveragePop` and `Query` share.
use ncdn.Base.{
  ℕ, zero, suc, ◌+◌, ◌≡◌, refl, ap, ◌∙◌, true, false, some, List, [], ◌∷◌, ◌⊎◌, inl, inr, arith,
  get_elem?, Bool-cases,
}
use ncdn.Float.{Float, IsOrdered}
use ncdn.Gslb.Core.{least}

module _ (fl : Float) where
  open fl use {F, ltf, default_latency}

  -- No entry is below `l`.
  abbrev pub NoneBelow : List F → F → Type 0
  NoneBelow xs l = (k : ℕ) (y : F) → get_elem? xs k ≡ some y → ltf y l ≡ false

  -- Entry `i` is below `l`, and no entry is below it.
  abbrev pub IsLeast : List F → F → ℕ → Type 0
  IsLeast xs l i =
      (x : F) × (get_elem? xs i ≡ some x)
      × (ltf x l ≡ true)
      × ((k : ℕ) (y : F) → get_elem? xs k ≡ some y → ltf y x ≡ false)

  module _ (o : IsOrdered fl) where
    not_below : (a b c : F) → ltf b c ≡ true → ltf a c ≡ false → ltf a b ≡ false
    not_below a b c h k = elim (Bool-cases (ltf a b)) [
      | inl below ↦ absurd (cc (o.lt_trans a b c below h))
      | inr fine ↦ fine
    ]

    NoneBelow-cons :
        (x l : F) (xs : List F) → ltf x l ≡ false → NoneBelow xs l → NoneBelow (x ∷ xs) l
    NoneBelow-cons x l xs h rest zero y e = cc
    NoneBelow-cons x l xs h rest (suc k) y e = rest k y e

    -- The new minimum is the head.
    IsLeast-head : (x l : F) (xs : List F) → ltf x l ≡ true → NoneBelow xs x → IsLeast (x ∷ xs) l 0
    IsLeast-head x l xs h rest = (x, refl, h, NoneBelow-cons x x xs (o.lt_irrefl x) rest)

    -- A minimum of the tail below the bound `m`, which the head is not below.
    IsLeast-tail :
        (x l m : F) (xs : List F) (j : ℕ)
        → ((y : F) → ltf y m ≡ true → (ltf y l ≡ true) × (ltf x y ≡ false))
        → IsLeast xs m j
        → IsLeast (x ∷ xs) l (suc j)
    IsLeast-tail x l m xs j h (y, at, below, rest) =
        (y, at, (h y below).0, NoneBelow-cons x y xs (h y below).1 rest)

    lower :
        (x l : F) → ltf x l ≡ true → (y : F) → ltf y x ≡ true → (ltf y l ≡ true) × (ltf x y ≡ false)
    lower x l below y h = (o.lt_trans y x l h below, not_below x y x h (o.lt_irrefl x))

    -- The search ends with what it began with if no entry is below the bound, and otherwise with an
    -- entry that is, and that no entry is below.
    pub least_lem :
        {I : Type 0} (found : ℕ → I) (idx : ℕ) (l : F) (best : I) (xs : List F)
        → NoneBelow xs l × (least fl found idx l best xs ≡ best)
          ⊎ ((j : ℕ) × IsLeast xs l j × (least fl found idx l best xs ≡ found (idx + j)))
    unfolding least
    least_lem found idx l best [] = inl ((λ k y e. absurd (cc)), refl)
    least_lem found idx l best (x ∷ xs) = elim (Bool-cases (ltf x l)) [
      | inl below ↦
          rw (below, least)
            (elim (least_lem found (idx + 1) x (found idx) xs) [
              | inl (rest, e) ↦ inr (0, IsLeast-head x l xs below rest, e ∙ ap found (omega arith))
              | inr (j, m, e) ↦
                  inr
                    (suc j, IsLeast-tail x l x xs j (lower x l below) m, e ∙ ap found (omega arith))
            ])
      | inr above ↦
          rw (above, least)
            (elim (least_lem found (idx + 1) l best xs) [
              | inl (rest, e) ↦ inl (NoneBelow-cons x l xs above rest, e)
              | inr (j, m, e) ↦ inr (
                suc j,
                IsLeast-tail x l l xs j (λ y h. (h, not_below x y l h above)) m,
                e ∙ ap found (omega arith),
              )
            ])
    ]
