-- ===== src/Origin/Site/Pages.antt =====
-- The pages of a catalog.
use native.Mathlib.Nat.{le-div_iff_mul-le, div-mul-le_self, lt-div-mul-add}
use ncdn.Base.{
  ℕ, zero, suc, ◌+◌, ◌-◌, ◌*◌, ◌/◌, ◌%◌, ◌^◌, ◌<◌, ◌≤◌, ◌≡◌, refl, sym, ap, ◌∙◌, arith, Option,
  none, some, List, [], ◌∷◌, ◌++◌, length, take, drop, take-add, take_all, length-take_le,
  length-drop, ltb, leb, true, false, if◌then◌else◌, Bool-cases, inl, inr,
}
use ncdn.Base.Int.{
  ℤ, pos, pos_part, ◌+ℤ◌, ◌-ℤ◌, ◌*ℤ◌, leb_ℤ, wrap64, wrap64-small, pos-sub_one, pos-add, pos-mul,
}
use ncdn.Origin.Site.{ImageInfo, slice_images, page_slice, images_for_page, page_count_of}

slice_images-eq :
    (images : List ImageInfo) (a b : ℕ)
    → a ≤ b
    → b ≤ length images
    → slice_images images (pos a) (pos b) ≡ some (take (b - a) (drop a images))
unfolding slice_images
slice_images-eq images a b below inside =
    let ab : leb a b ≡ true = ground arith in
    let bl : leb b (length images) ≡ true = ground arith in rw (ab, bl, slice_images) refl

-- A page that begins in the list.
slice_at :
    (images : List ImageInfo) (a n : ℕ)
    → a < length images
    → (if leb_ℤ (pos (length images)) (pos a)
        then some []
        else slice_images images (pos a) (
            if leb_ℤ (pos (a + n)) (pos (length images)) then pos (a + n) else pos (length images)))
      ≡ some (take n (drop a images))
slice_at images a n inside =
    let begins : leb_ℤ (pos (length images)) (pos a) ≡ false = ground arith in
    let left = length-drop a images in
    elim (Bool-cases (leb_ℤ (pos (a + n)) (pos (length images)))) [
      | inl whole ↦
          let below : a + n ≤ length images = ground arith in
          rw (begins, whole)
            (slice_images-eq images a (a + n) (omega arith) below
              ∙ ap (λ m. some (take m (drop a images))) (omega arith))
      | inr short ↦
          let above : length images ≤ a + n = ground arith in
          rw (begins, short)
            (slice_images-eq images a (length images) (omega arith) (omega arith)
              ∙ ap some (
                  take_all (length images - a) (drop a images) (omega arith)
                  ∙ sym (take_all n (drop a images) (omega arith))))
    ]

-- Page `k + 1` of pages of `n + 1` images.
images_for_page-eq :
    (images : List ImageInfo) (n k : ℕ)
    → length images + suc n < 2 ^ 63
    → k * suc n < length images
    → images_for_page images (pos (suc n)) (pos (suc k))
      ≡ some (take (suc n) (drop (k * suc n) images))
unfolding images_for_page page_slice
images_for_page-eq images n k few inside =
    let paged : leb_ℤ (pos (suc n)) (pos 0) ≡ false = ground arith in
    let index : wrap64 (pos (suc k) -ℤ pos 1) ≡ pos k =
      rw pos-sub_one (wrap64-small k (omega arith)) in
    let start : wrap64 (wrap64 (pos (suc k) -ℤ pos 1) *ℤ pos (suc n)) ≡ pos (k * suc n) =
      rw (index, pos-mul k (suc n)) (wrap64-small (k * suc n) (omega arith)) in
    let stop : wrap64 (pos (k * suc n) +ℤ pos (suc n)) ≡ pos (k * suc n + suc n) =
      rw (pos-add (k * suc n) (suc n)) (wrap64-small (k * suc n + suc n) (omega arith)) in
    rw (paged, start, stop, images_for_page, page_slice)
      (slice_at images (k * suc n) (suc n) inside)

-- The pages 1 to `k`, one after another.
abbrev pub first_pages : List ImageInfo → ℤ → ℕ → Option (List ImageInfo)
first_pages images per_page zero = some []
first_pages images per_page (suc k) = elim (first_pages images per_page k) [
  | none ↦ none
  | some before ↦ elim (images_for_page images per_page (pos (suc k))) [
    | none ↦ none
    | some page ↦ some (before ++ page)
  ]
]

first_pages-take :
    (images : List ImageInfo) (n k : ℕ)
    → length images + suc n < 2 ^ 63
    → k * suc n < length images + suc n
    → first_pages images (pos (suc n)) k ≡ some (take (k * suc n) images)
first_pages-take images n zero few inside =
    let none_yet : zero * suc n ≡ 0 = omega arith in rw none_yet refl
first_pages-take images n (suc k) few inside =
    let before = first_pages-take images n k few (omega arith) in
    let page = images_for_page-eq images n k few (omega arith) in
    let sum : suc k * suc n ≡ k * suc n + suc n = omega arith in
    rw (before, page, sum, take-add (k * suc n) (suc n) images) refl

pub page_count-eq :
    (images : List ImageInfo) (n : ℕ)
    → length images + suc n < 2 ^ 63
    → page_count_of images (pos (suc n)) ≡ pos ((length images + n) / suc n)
unfolding page_count_of
page_count-eq images n few =
    let sum : (length images + suc n - 1) % (2 ^ 64) ≡ length images + n = omega arith in
    let small : ltb (length images + n) (2 ^ 63) ≡ true = ground arith in
    rw (sum, small, page_count_of) refl

length-take_bounds :
    (n : ℕ) (xs : List ImageInfo)
    → 0 < length xs
    → (0 < length (take (suc n) xs)) × (length (take (suc n) xs) ≤ suc n)
length-take_bounds n [] h = absurd (omega arith)
length-take_bounds n (x ∷ xs) h = (omega arith, omega (arith, length-take_le n xs))

-- When the images and a page of them are fewer than 2^63, the pages from 1 to the page count are the
-- images, each once and in their order.
pub first_pages-page_count :
    (images : List ImageInfo) (n count : ℕ)
    → length images + suc n < 2 ^ 63
    → page_count_of images (pos (suc n)) ≡ pos count
    → first_pages images (pos (suc n)) count ≡ some images
first_pages-page_count images n count few e =
    let q : count ≡ (length images + n) / suc n =
      ap pos_part (sym e ∙ page_count-eq images n few) in
    let low = div-mul-le_self (length images + n) (suc n) in
    let high = lt-div-mul-add {a = length images + n} {b = suc n} (omega arith) in
    rw q (
      first_pages-take images n ((length images + n) / suc n) few (omega arith)
      ∙ ap some (take_all ((length images + n) / suc n * suc n) images (omega arith)))

-- Every page from 1 to the page count has at least one image and at most a page's number of them: no
-- page within these bounds is empty, or out of the bounds of the slice.
pub images_for_page-bounds :
    (images : List ImageInfo) (n count k : ℕ)
    → length images + suc n < 2 ^ 63
    → page_count_of images (pos (suc n)) ≡ pos count
    → k < count
    → (page : List ImageInfo) × (images_for_page images (pos (suc n)) (pos (suc k)) ≡ some page)
      × (0 < length page)
      × (length page ≤ suc n)
images_for_page-bounds images n count k few e within =
    let q : count ≡ (length images + n) / suc n =
      ap pos_part (sym e ∙ page_count-eq images n few) in
    let fits =
      (le-div_iff_mul-le {k = suc n} {x = suc k} {y = length images + n} (omega arith)).0
        (omega arith) in
    let rest = length-drop (k * suc n) images in
    let inside : k * suc n < length images = omega arith in
    (
      take (suc n) (drop (k * suc n) images),
      images_for_page-eq images n k few inside,
      (let (some_left, at_most) = length-take_bounds n (drop (k * suc n) images) (omega arith) in
          some_left),
      (let (some_left, at_most) = length-take_bounds n (drop (k * suc n) images) (omega arith) in
          at_most),
    )
