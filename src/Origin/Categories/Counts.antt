-- ===== src/Origin/Categories/Counts.antt =====
-- The count of a category is the number of images that its page shows.
use Prim.Native.String.{String}
use text.Mathlib.Text.{◌==◌ as str_eq}
use text.Mathlib.TextEquality.{eq_iff}
use ncdn.Base.{
  ℕ, ◌+◌, ◌<◌, ◌≡◌, refl, sym, subst, ◌∙◌, arith, false, Bool-cases, none, some, Option-cases, List,
  [], ◌∷◌, ◌++◌, inl, inr, if◌then◌else◌,
}
use ncdn.Base.Maps.{put, find_entry, find_entry-put}
use ncdn.Origin.Site.{ImageInfo, Category}
use ncdn.Origin.Categories.{Tally, first_of, tally_one, tally}

-- How often `s` stands in a list.
abbrev pub occurs : String → List String → ℕ
occurs s [] = 0
occurs s (t ∷ ts) = (if str_eq t s then 1 else 0) + occurs s ts

-- The counts of the categories with a slug, summed.
abbrev pub count_of : String → List Category → ℕ
count_of s [] = 0
count_of s (c ∷ cs) = (if str_eq c.slug s then c.count else 0) + count_of s cs

-- The images that are counted for `s`: the empty slug is left out.
abbrev pub counted : String → List ImageInfo → ℕ
counted s [] = 0
counted s (img ∷ images) =
    (if str_eq img.category_slug "" then 0 else if str_eq img.category_slug s then 1 else 0)
    + counted s images

-- What the tally says of `s` after `n` images with it.
pub data Tallied (s : String) (n : ℕ) (t : Tally) : Type 0 where
  absent : n ≡ 0 → find_entry s t.0 ≡ none → occurs s t.1 ≡ 0 → Tallied s n t
  present :
      (c : Category)
      → find_entry s t.0 ≡ some c
      → c.slug ≡ s
      → c.count ≡ n
      → 0 < n
      → occurs s t.1 ≡ 1
      → Tallied s n t

occurs-append :
    (s : String) (xs : List String) (y : String)
    → occurs s (xs ++ (y ∷ [])) ≡ occurs s xs + (if str_eq y s then 1 else 0)
occurs-append s [] y = omega arith
occurs-append s (x ∷ xs) y = omega (arith, occurs-append s xs y)

-- An image of another slug.
tally_one-other :
    (s : String) (n : ℕ) (t : Tally) (img : ImageInfo)
    → str_eq img.category_slug s ≡ false
    → Tallied s n t
    → Tallied s n (tally_one t img)
unfolding tally_one
tally_one-other s n (counts, order) img e h = elim (Bool-cases (str_eq img.category_slug "")) [
  | inl empty ↦ rw (empty, tally_one) h
  | inr full ↦ elim (Option-cases (find_entry img.category_slug counts)) [
    | inl new ↦ rw (full, new, tally_one) (keeps _ _ (find_same _) (order_same order) h)
    | inr (c, old) ↦ rw (full, old, tally_one) (keeps _ _ (find_same _) refl h)
  ]
]
  where
    find_same : (c : Category) → find_entry s (put img.category_slug c counts) ≡ find_entry s counts
    find_same c = find_entry-put s img.category_slug c counts ∙ rw e refl

    order_same : (ss : List String) → occurs s (ss ++ (img.category_slug ∷ [])) ≡ occurs s ss
    order_same ss = occurs-append s ss img.category_slug ∙ rw e (omega arith)

    keeps :
        (counts' : List (String × Category)) (order' : List String)
        → find_entry s counts' ≡ find_entry s counts
        → occurs s order' ≡ occurs s order
        → Tallied s n (counts, order)
        → Tallied s n (counts', order')
    keeps counts' order' f o (absent zero_yet none_yet no_slug) =
        absent zero_yet (f ∙ none_yet) (o ∙ no_slug)
    keeps counts' order' f o (present c found slug count some_n once) =
        present c (f ∙ found) slug count some_n (o ∙ once)

-- An image of this slug.
tally_one-same :
    (n : ℕ) (t : Tally) (img : ImageInfo)
    → str_eq img.category_slug "" ≡ false
    → Tallied img.category_slug n t
    → Tallied img.category_slug (n + 1) (tally_one t img)
unfolding tally_one
tally_one-same n (counts, order) img full (absent zero_yet none_yet no_slug) =
    rw (full, none_yet, tally_one)
      (present (first_of img)
        (find_entry-put img.category_slug img.category_slug (first_of img) counts
          ∙ (ground (arith, eq_iff img.category_slug img.category_slug)))
        refl (omega arith) (omega arith)
        (occurs-append img.category_slug order img.category_slug
          ∙ (ground (arith, eq_iff img.category_slug img.category_slug, no_slug))))
tally_one-same n (counts, order) img full (present c found slug count some_n once) =
    rw (full, found, tally_one)
      (present (record c { count = c.count + 1 })
        (find_entry-put img.category_slug img.category_slug (record c { count = c.count + 1 })
            counts
          ∙ (ground (arith, eq_iff img.category_slug img.category_slug)))
        slug (omega arith) (omega arith) once)

tally_one-Tallied :
    (s : String) (n : ℕ) (t : Tally) (img : ImageInfo)
    → Tallied s n t
    → Tallied s (n + counted s (img ∷ [])) (tally_one t img)
unfolding tally_one
tally_one-Tallied s n t img h = elim (Bool-cases (str_eq img.category_slug "")) [
  | inl empty ↦
      let none_more : n + counted s (img ∷ []) ≡ n = rw empty (omega arith) in
      rw (none_more, empty, tally_one) h
  | inr full ↦ elim (Bool-cases (str_eq img.category_slug s)) [
    | inl same ↦
        let slug : s ≡ img.category_slug = sym ((eq_iff img.category_slug s).0 same) in
        let one_more : n + counted s (img ∷ []) ≡ n + 1 = rw (full, same) (omega arith) in
        rw one_more (
          subst (λ z. Tallied z (n + 1) (tally_one t img)) (sym slug)
            (tally_one-same n t img full (subst (λ z. Tallied z n t) slug h)))
    | inr other ↦
        let none_more : n + counted s (img ∷ []) ≡ n = rw (full, other) (omega arith) in
        rw none_more (tally_one-other s n t img other h)
  ]
]

pub tally-Tallied :
    (s : String) (images : List ImageInfo) (n : ℕ) (t : Tally)
    → Tallied s n t
    → Tallied s (n + counted s images) (tally t images)
unfolding tally
tally-Tallied s [] n t h = subst (λ m. Tallied s m t) (omega arith) h
tally-Tallied s (img ∷ images) n t h =
    subst (λ m. Tallied s m (tally (tally_one t img) images)) (omega arith)
      (tally-Tallied s images (n + counted s (img ∷ [])) (tally_one t img)
        (tally_one-Tallied s n t img h))
