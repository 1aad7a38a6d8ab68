-- ===== src/Origin/Categories/Pages.antt =====
-- A category has as many images as its page shows, and a page that shows none has no category.
use Prim.Native.String.{String}
use text.Mathlib.Text.{◌==◌ as str_eq}
use text.Mathlib.TextEquality.{eq_iff}
use ncdn.Base.{
  ℕ, ◌+◌, ◌*◌, ◌<◌, ◌≡◌, ◌≢◌, refl, sym, ap, ◌∙◌, arith, false, Bool-cases, some, List, [], ◌∷◌,
  inl, inr, length, if◌then◌else◌,
}
use ncdn.Base.Maps.{find_entry}
use ncdn.Origin.Site.{ImageInfo, Category}
use ncdn.Origin.Categories.{
  Tally, tally, str_le, insert_sorted, sort_strings, pick, build_categories, images_for_category,
}
use ncdn.Origin.Categories.Counts.{
  occurs, count_of, counted, Tallied, absent, present, tally-Tallied,
}

occurs-insert_sorted :
    (s t : String) (ss : List String)
    → occurs s (insert_sorted t ss) ≡ (if str_eq t s then 1 else 0) + occurs s ss
unfolding insert_sorted
occurs-insert_sorted s t [] = refl
occurs-insert_sorted s t (u ∷ ss) = elim (Bool-cases (str_le t u)) [
  | inl before ↦ rw (before, insert_sorted) refl
  | inr after ↦ rw (after, insert_sorted) (omega (arith, occurs-insert_sorted s t ss))
]

occurs-sort_strings : (s : String) (ss : List String) → occurs s (sort_strings ss) ≡ occurs s ss
unfolding sort_strings
occurs-sort_strings s [] = refl
occurs-sort_strings s (t ∷ ss) =
    occurs-insert_sorted s t (sort_strings ss) ∙ (omega (arith, occurs-sort_strings s ss))

-- Each key of the map is the slug of its category.
abbrev Keyed : List (String × Category) → Type 0
Keyed counts = (s : String) (c : Category) → find_entry s counts ≡ some c → c.slug ≡ s

count_of-pick :
    (counts : List (String × Category))
    → Keyed counts
    → (ss : List String)
    → ((s : String) → 0 < occurs s ss → (c : Category) × (find_entry s counts ≡ some c))
    → (cs : List Category) × (pick counts ss ≡ some cs)
      × ((s : String) (c : Category)
          → find_entry s counts ≡ some c
          → count_of s cs ≡ occurs s ss * c.count)
      × ((s : String) → occurs s ss ≡ 0 → count_of s cs ≡ 0)
unfolding pick
count_of-pick counts keyed [] there = ([], refl, (λ s c e. omega arith), (λ s e. refl))
count_of-pick counts keyed (t ∷ ss) there =
    let (d, found) = there t (ground (arith, eq_iff t t)) in
    let (cs, picked, counts_some, counts_none) =
      count_of-pick counts keyed ss (λ s h. there s (omega arith)) in
    let slug = keyed t d found in
    (
      d ∷ cs,
      rw (found, picked, pick) refl,
      (λ s c e. elim (Bool-cases (str_eq t s)) [
        | inl same ↦
            let eq : t ≡ s = (eq_iff t s).0 same in
            let one : d ≡ c = some-injective (sym found ∙ ap (λ z. find_entry z counts) eq ∙ e) in
            rw (slug, same) (omega (arith, counts_some s c e, ap (λ (z : Category). z.count) one))
        | inr other ↦ rw (slug, other) (omega (arith, counts_some s c e))
      ]),
      (λ s e. elim (Bool-cases (str_eq t s)) [
        | inl same ↦ absurd (ground (arith, e, same))
        | inr other ↦ rw (slug, other) (omega (arith, counts_none s (omega arith)))
      ]),
    )
  where
    some-injective : {a b : Category} → some a ≡ some b → a ≡ b
    some-injective e = cc

length-images_for_category :
    (s : String) (images : List ImageInfo)
    → s ≢ ""
    → length (images_for_category s images) ≡ counted s images
unfolding images_for_category
length-images_for_category s [] h = refl
length-images_for_category s (img ∷ images) h =
    let rest = length-images_for_category s images h in
    elim (Bool-cases (str_eq img.category_slug s)) [
      | inr other ↦
          rw (other, images_for_category)
            (elim (Bool-cases (str_eq img.category_slug "")) [
              | inl empty ↦ rw empty (omega arith)
              | inr full ↦ rw full (omega arith)
            ])
      | inl same ↦
          let full : str_eq img.category_slug "" ≡ false =
            ground (arith, eq_iff img.category_slug s, eq_iff img.category_slug "", h) in
          rw (same, full, images_for_category) (omega arith)
    ]

Tallied-slug :
    {s : String} {n : ℕ} {t : Tally}
    → Tallied s n t
    → (c : Category) → find_entry s t.0 ≡ some c
    → (c.slug ≡ s) × (c.count ≡ n) × (occurs s t.1 ≡ 1)
Tallied-slug (absent zero_yet none_yet no_slug) c e = cc
Tallied-slug (present d found slug count some_n once) c e =
    let same : d ≡ c = cc in
    (
      ap (λ (z : Category). z.slug) (sym same) ∙ slug,
      ap (λ (z : Category). z.count) (sym same) ∙ count,
      once,
    )

Tallied-occurs :
    {s : String} {n : ℕ} {t : Tally}
    → Tallied s n t
    → 0 < occurs s t.1
    → (c : Category) × (find_entry s t.0 ≡ some c)
Tallied-occurs (absent zero_yet none_yet no_slug) h = absurd (omega arith)
Tallied-occurs (present d found slug count some_n once) h = (d, found)

Tallied-count :
    {s : String} {n : ℕ} {t : Tally} (cs : List Category)
    → Tallied s n t
    → ((c : Category) → find_entry s t.0 ≡ some c → count_of s cs ≡ occurs s t.1 * c.count)
    → (occurs s t.1 ≡ 0 → count_of s cs ≡ 0)
    → count_of s cs ≡ n
Tallied-count cs (absent zero_yet none_yet no_slug) f g = g no_slug ∙ sym zero_yet
Tallied-count cs (present d found slug count some_n once) f g =
    f d found ∙ (rw (once, count) (omega arith))

-- For every slug but the empty one, the counts of the categories with it add up to the number of images
-- that its page shows: a page without images has no category, and no image is left out. Building the
-- categories does not panic.
pub build_categories-counts :
    (images : List ImageInfo)
    → (cs : List Category) × (build_categories images ≡ some cs)
      × ((s : String) → s ≢ "" → count_of s cs ≡ length (images_for_category s images))
unfolding build_categories find_entry
build_categories-counts images =
    let t = tally ([], []) images in
    let all = λ (s : String). tally-Tallied s images 0 ([], []) (absent refl refl refl) in
    let (cs, picked, counts_some, counts_none) =
      count_of-pick t.0 (λ s c e. (Tallied-slug (all s) c e).0) (sort_strings t.1)
        (λ s h. Tallied-occurs (all s) (rw (← occurs-sort_strings s t.1) h)) in
    (
      cs,
      picked,
      λ s named.
          Tallied-count cs (all s)
            (λ c e. counts_some s c e ∙ ap (λ k. k * c.count) (occurs-sort_strings s t.1))
            (λ e. counts_none s (occurs-sort_strings s t.1 ∙ e))
          ∙ (omega (arith, length-images_for_category s images named)),
    )
