-- ===== src/Origin/Site.antt =====
-- origin/site.go: a site, what is built when it is loaded, and the lookups of its handlers. Bytes are
-- texts. Reading a file, `resizePNG` (Origin.Resize) and the printing of numbers are arguments.
pub mod Pages
use Prim.Native.String.{String}
use Prim.Native.String
use text.Mathlib.Text.{◌==◌ as str_eq}
use mathlib.Core.Option
use ncdn.Base.{
  ℕ, zero, suc, ◌+◌, ◌-◌, ◌/◌, ◌%◌, ◌^◌, Bool, true, false, ◌&&◌, ◌||◌, not, Option, none, some,
  List, [], ◌∷◌, ◌++◌, map, length, take, drop, ltb, leb, ◌==◌, if◌then◌else◌,
}
use ncdn.Base.Int.{ℤ, pos, negsuc, ◌+ℤ◌, ◌-ℤ◌, ◌*ℤ◌, leb_ℤ, ltb_ℤ, int64, wrap64}
use ncdn.Base.Maps.{put, find_entry}

abbrev pub concat : String → String → String
concat = String.◌++◌

-- `variantConfig`; a width of 0 is the original size.
pub record Variant : Type 0 where
  pub name : String
  pub width : ℤ
  pub label : String

pub record SiteConfig : Type 0 where
  pub id : String
  pub name : String
  pub host : String
  pub profile : String
  pub variants : List Variant
  pub per_page : ℤ
  pub allowed_widths : List ℤ

pub record ImageInfo : Type 0 where
  pub id : String
  pub title : String
  pub file : String
  pub bytes : ℕ
  pub category : String
  pub category_slug : String

pub record Category : Type 0 where
  pub slug : String
  pub name : String
  pub count : ℕ

pub record Site : Type 0 where
  pub cfg : SiteConfig
  pub images : List ImageInfo
  pub categories : List Category
  pub assets : List (String × String)
  pub derived : List (String × String)
  pub total_bytes : ℕ
  pub unique_urls : ℤ
  pub page_count : ℤ

-- `a == b` on integers.
abbrev pub eq_ℤ : ℤ → ℤ → Bool
eq_ℤ (pos a) (pos b) = a == b
eq_ℤ (negsuc a) (negsuc b) = a == b
eq_ℤ _ _ = false

-- `s.images[start:end]`, where `none` is the panic.
unfoldable pub slice_images : List ImageInfo → ℤ → ℤ → Option (List ImageInfo)
slice_images images (pos a) (pos b) =
    if leb a b && leb b (length images) then some (take (b - a) (drop a images)) else none
slice_images images _ _ = none

-- `imagesForPage` for a positive `PerPage`.
unfoldable pub page_slice : List ImageInfo → ℤ → ℤ → Option (List ImageInfo)
page_slice images per_page page =
    let start = wrap64 (wrap64 (page -ℤ pos 1) *ℤ per_page) in
    let stop = wrap64 (start +ℤ per_page) in
    if leb_ℤ (pos (length images)) start
    then some []
    else slice_images images start
        (if leb_ℤ stop (pos (length images)) then stop else pos (length images))

-- `imagesForPage`
unfoldable pub images_for_page : List ImageInfo → ℤ → ℤ → Option (List ImageInfo)
images_for_page images per_page page =
    if leb_ℤ per_page (pos 0) then some images else page_slice images per_page page

-- The quotient of int64, which is taken towards 0; the divisor is positive.
abbrev pub quotient : ℤ → ℕ → ℤ
quotient (pos a) n = pos (a / n)
quotient (negsuc a) n = if suc a / n == 0 then pos 0 else negsuc (suc a / n - 1)

-- `pageCount` of `loadSite`
unfoldable pub page_count_of : List ImageInfo → ℤ → ℤ
page_count_of images (pos (suc n)) =
    quotient (int64 ((length images + suc n - 1) % (2 ^ 64))) (suc n)
page_count_of images _ = pos 1
