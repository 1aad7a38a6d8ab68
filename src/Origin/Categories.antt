-- ===== src/Origin/Categories.antt =====
-- `buildCategories` and `imagesForCategory` of origin/site.go. A count is at most the number of images.
pub mod Counts
pub mod Pages
use Prim.Native.String.{String}
use Prim.Native.String
use Prim.Native.Nat.{lt, eq, gt}
use text.Mathlib.Text.{◌==◌ as str_eq}
use ncdn.Base.{ℕ, ◌+◌, Bool, true, false, Option, none, some, List, [], ◌∷◌, ◌++◌, if◌then◌else◌}
use ncdn.Base.Maps.{put, find_entry}
use ncdn.Origin.Site.{ImageInfo, Category}

-- `counts` and `order`
abbrev pub Tally : Type 0
Tally = List (String × Category) × List String

abbrev pub first_of : ImageInfo → Category
first_of img = record { slug = img.category_slug; name = img.category; count = 1 }

-- A round of the loop over the images.
unfoldable pub tally_one : Tally → ImageInfo → Tally
tally_one (counts, order) img =
    if str_eq img.category_slug ""
    then (counts, order)
    else elim (find_entry img.category_slug counts) [
      | none ↦ (put img.category_slug (first_of img) counts, order ++ (img.category_slug ∷ []))
      | some c ↦ (put img.category_slug (record c { count = c.count + 1 }) counts, order)
    ]

unfoldable pub tally : Tally → List ImageInfo → Tally
tally t [] = t
tally t (img ∷ images) = tally (tally_one t img) images

-- `s <= t`, by their bytes.
abbrev pub str_le : String → String → Bool
str_le s t = elim (String.compare s t) [ lt ↦ true | eq ↦ true | gt ↦ false ]

-- `sort.Strings`
unfoldable pub insert_sorted : String → List String → List String
insert_sorted s [] = s ∷ []
insert_sorted s (t ∷ ts) =
    let rest = insert_sorted s ts in if str_le s t then s ∷ t ∷ ts else t ∷ rest

unfoldable pub sort_strings : List String → List String
sort_strings [] = []
sort_strings (s ∷ ss) = insert_sorted s (sort_strings ss)

-- The loop over the sorted slugs; `none` is a nil dereference.
unfoldable pub pick : List (String × Category) → List String → Option (List Category)
pick counts [] = some []
pick counts (s ∷ ss) = elim (find_entry s counts) [
  | none ↦ none
  | some c ↦ elim (pick counts ss) [ none ↦ none | some cs ↦ some (c ∷ cs) ]
]

-- `buildCategories`
unfoldable pub build_categories : List ImageInfo → Option (List Category)
build_categories images =
    let counted = tally ([], []) images in pick counted.0 (sort_strings counted.1)

-- `imagesForCategory`
unfoldable pub images_for_category : String → List ImageInfo → List ImageInfo
images_for_category slug [] = []
images_for_category slug (img ∷ images) =
    let rest = images_for_category slug images in
    if str_eq img.category_slug slug then img ∷ rest else rest
