-- ===== src/Base/Maps.antt =====
-- Maps with texts as keys, as lists of their entries, a key once.
use Prim.Native.String.{String}
use text.Mathlib.Text.{◌==◌ as str_eq}
use text.Mathlib.TextEquality.{eq_iff}
use ncdn.Base.{
  ◌≡◌, refl, Option, none, some, List, [], ◌∷◌, arith, if◌then◌else◌, All, Bool-cases, inl, inr,
}

-- `m[key] = value`
unfoldable pub put {ℓ} : {V : Type ℓ} → String → V → List (String × V) → List (String × V)
put k v [] = (k, v) ∷ []
put k v ((j, w) ∷ m) = if str_eq j k then (k, v) ∷ m else (j, w) ∷ put k v m

unfoldable pub find_entry {ℓ} : {V : Type ℓ} → String → List (String × V) → Option V
find_entry k [] = none
find_entry k ((j, w) ∷ m) = if str_eq j k then some w else find_entry k m

pub find_entry-put {ℓ} :
    {V : Type ℓ} (j k : String) (v : V) (m : List (String × V))
    → find_entry j (put k v m) ≡ (if str_eq k j then some v else find_entry j m)
unfolding find_entry put
find_entry-put j k v [] = refl
find_entry-put j k v ((i, w) ∷ m) =
    ground (arith, eq_iff k j, eq_iff i k, eq_iff i j, find_entry-put j k v m)

pub All-put :
    {V : Type 0} (P : String → Type 0) (k : String) (v : V) (m : List (String × V))
    → P k
    → All (λ entry. P entry.0) m
    → All (λ entry. P entry.0) (put k v m)
unfolding put
All-put P k v [] p h = (p, tt)
All-put P k v ((j, w) ∷ m) p h = elim (Bool-cases (str_eq j k)) [
  | inl same ↦ rw (same, put) (p, h.1)
  | inr other ↦ rw (other, put) (h.0, All-put P k v m p h.1)
]
