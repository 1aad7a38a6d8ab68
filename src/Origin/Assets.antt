-- ===== src/Origin/Assets.antt =====
-- The assets of a site: `loadSite`, `buildAssets`, `buildMeterURLs`, `variantBytes`, `derivedBytes` and
-- `widthAllowed` of origin/site.go. The workers of `buildAssets` run one after another here, and in any
-- order in Origin.Workers.
pub mod Complete
pub mod Derived
pub mod Load
use Prim.Native.String.{String, len}
use text.Mathlib.Text.{◌==◌ as str_eq}
use ncdn.Base.{
  ℕ, ◌+◌, Bool, true, false, ◌||◌, Option, none, some, List, [], ◌∷◌, ◌++◌, map, length, ltb,
  if◌then◌else◌,
}
use ncdn.Base.Int.{ℤ, pos, ◌+ℤ◌}
use ncdn.Base.Maps.{put, find_entry}
use ncdn.Origin.Site.{concat, Variant, SiteConfig, ImageInfo, Category, Site, eq_ℤ, page_count_of}
use ncdn.Origin.Categories.{build_categories}

-- What the code calls outside of this file: reading an image, `resizePNG`, and the printing of an int.
pub record Tools : Type 0 where
  pub read_image : String → Option String
  pub resize : String → ℤ → Option String
  pub decimal : ℤ → String

-- A key of `assets`.
abbrev pub asset_key : String → String → String
asset_key variant file = concat variant (concat "/" file)

-- `variantBytes`
unfoldable pub variant_bytes : List (String × String) → String → String → Option String
variant_bytes assets variant file = find_entry (asset_key variant file) assets

-- What `buildAssets` has built so far.
pub record Built : Type 0 where
  pub images : List ImageInfo
  pub originals : List (String × String)
  pub assets : List (String × String)
  pub total_bytes : ℕ

abbrev pub bytes_of : Option String → String
bytes_of none = ""
bytes_of (some b) = b

module _ (t : Tools) where
  open t use {read_image, resize, decimal}

  -- A round of the loop over the originals.
  unfoldable pub load_image : Built → ImageInfo → Option Built
  load_image b info = elim (read_image info.file) [
    | none ↦ none
    | some orig ↦ some (record {
      images = b.images ++ (record info { bytes = len orig } ∷ []);
      originals = put info.file orig b.originals;
      assets = put (asset_key "full" info.file) orig b.assets;
      total_bytes = b.total_bytes + len orig;
    })
  ]

  unfoldable pub load_images : Built → List ImageInfo → Option Built
  load_images b [] = some b
  load_images b (info ∷ infos) = elim (load_image b info) [
    | none ↦ none
    | some b' ↦ load_images b' infos
  ]

  -- A worker.
  unfoldable pub resize_image : Variant → Built → ImageInfo → Option Built
  resize_image v b info = elim (resize (bytes_of (find_entry info.file b.originals)) v.width) [
    | none ↦ none
    | some resized ↦ some (record b {
      assets = put (asset_key v.name info.file) resized b.assets;
      total_bytes = b.total_bytes + len resized;
    })
  ]

  unfoldable pub resize_images : Variant → Built → List ImageInfo → Option Built
  resize_images v b [] = some b
  resize_images v b (info ∷ infos) = elim (resize_image v b info) [
    | none ↦ none
    | some b' ↦ resize_images v b' infos
  ]

  -- The loop over the variants.
  unfoldable pub add_variants : Built → List Variant → Option Built
  add_variants b [] = some b
  add_variants b (v ∷ vs) = elim (eq_ℤ v.width (pos 0)) [
    | true ↦ add_variants b vs
    | false ↦ elim (resize_images v b b.images) [ none ↦ none | some b' ↦ add_variants b' vs ]
  ]

  abbrev pub nothing_built : Built
  nothing_built = record { images = []; originals = []; assets = []; total_bytes = 0 }

  -- `buildAssets`
  unfoldable pub build_assets : List Variant → List ImageInfo → Option Built
  build_assets variants images = elim (load_images nothing_built images) [
    | none ↦ none
    | some b ↦ add_variants b variants
  ]

  -- The URLs of `buildMeterURLs`, by the loops of each profile.
  unfoldable pub image_urls : String → List ImageInfo → List String
  image_urls prefix [] = []
  image_urls prefix (img ∷ images) = concat prefix img.file ∷ image_urls prefix images

  unfoldable pub catalog_urls : List Variant → List ImageInfo → List String
  catalog_urls [] images = []
  catalog_urls (v ∷ vs) images =
      image_urls (concat "/img/" (concat v.name "/")) images ++ catalog_urls vs images

  unfoldable pub width_urls : String → List ℤ → List String
  width_urls file [] = []
  width_urls file (w ∷ ws) =
      concat "/img/" (concat file (concat "?w=" (decimal w))) ∷ width_urls file ws

  unfoldable pub dynamic_urls : List ℤ → List ImageInfo → List String
  dynamic_urls widths [] = []
  dynamic_urls widths (img ∷ images) =
      (concat "/img/" img.file ∷ width_urls img.file widths) ++ dynamic_urls widths images

  -- `buildMeterURLs`
  unfoldable pub build_meter_urls : SiteConfig → List ImageInfo → List String
  build_meter_urls cfg images =
      if str_eq cfg.profile "catalog"
      then catalog_urls cfg.variants images
      else if str_eq cfg.profile "dynamic"
      then dynamic_urls cfg.allowed_widths images
      else image_urls "/img/" images

  -- `cfg` with the variant that `loadSite` gives a site without variants.
  abbrev pub with_variants : SiteConfig → SiteConfig
  with_variants cfg = elim cfg.variants [
    | [] ↦ record cfg { variants = record { name = "full"; width = pos 0; label = "原寸" } ∷ [] }
    | v ∷ vs ↦ cfg
  ]

  -- The site that `loadSite` makes of what it has built.
  unfoldable pub site_of : SiteConfig → Built → List Category → Site
  site_of cfg b categories = record {
    cfg = cfg;
    images = b.images;
    categories = categories;
    assets = b.assets;
    derived = [];
    total_bytes = b.total_bytes;
    unique_urls =
        pos (length (build_meter_urls cfg b.images))
        +ℤ page_count_of b.images cfg.per_page
        +ℤ pos (length categories + 3);
    page_count = page_count_of b.images cfg.per_page;
  }

  -- `loadSite`, from site.json and images.json as they are decoded, but for the templates.
  unfoldable pub load_site : SiteConfig → List ImageInfo → Option Site
  load_site cfg [] = none
  load_site cfg (img ∷ images) = elim (build_assets (with_variants cfg).variants (img ∷ images)) [
    | none ↦ none
    | some b ↦ elim (build_categories b.images) [
      | none ↦ none
      | some categories ↦ some (site_of (with_variants cfg) b categories)
    ]
  ]

  -- The key of `derived`: "%d/%s".
  abbrev pub derived_key : ℤ → String → String
  derived_key width file = concat (decimal width) (concat "/" file)

  -- `derivedBytes` between its locks: the original, resized.
  unfoldable pub make_derived : List (String × String) → String → ℤ → Option String
  make_derived assets file width = elim (variant_bytes assets "full" file) [
    | none ↦ none
    | some orig ↦ resize orig width
  ]

  -- `derivedBytes` up to the write lock, with what it is going to return.
  unfoldable pub derived_look : Site → String → ℤ → Option String
  derived_look s file width = elim (find_entry (derived_key width file) s.derived) [
    | some b ↦ some b
    | none ↦ make_derived s.assets file width
  ]

  -- `derivedBytes` under the write lock, when the look-up has missed.
  unfoldable pub derived_keep : Site → String → ℤ → Site
  derived_keep s file width = elim (make_derived s.assets file width) [
    | none ↦ s
    | some resized ↦ record s { derived = put (derived_key width file) resized s.derived }
  ]

  -- `derivedBytes` with nothing between its parts.
  unfoldable pub derived_bytes : Site → String → ℤ → Site × Option String
  derived_bytes s file width = elim (find_entry (derived_key width file) s.derived) [
    | some b ↦ (s, some b)
    | none ↦ (derived_keep s file width, make_derived s.assets file width)
  ]

-- `widthAllowed`
unfoldable pub width_allowed : List ℤ → ℤ → Bool
width_allowed [] w = false
width_allowed (allowed ∷ widths) w = eq_ℤ allowed w || width_allowed widths w
