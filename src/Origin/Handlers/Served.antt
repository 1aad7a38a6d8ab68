-- ===== src/Origin/Handlers/Served.antt =====
-- The images that the pages of a catalog link to.
use Prim.Native.String.{String}
use ncdn.Base.{◌≡◌, refl, sym, subst, false, some, List, ◌⊎◌, inl, inr, All, All-map}
use ncdn.Base.Int.{pos}
use ncdn.Origin.Site.{SiteConfig, Variant, ImageInfo, Site, eq_ℤ}
use ncdn.Origin.Assets.{Tools, with_variants, load_site, site_of, variant_bytes, asset_key}
use ncdn.Origin.Assets.Complete.{Has, HasAll, Resized, build_assets_complete}
use ncdn.Origin.Assets.Load.{load_site-Parts}
use ncdn.Origin.Views.{Views, RequestInfo}
use ncdn.Origin.Handlers.{serve_png, catalog_image}

-- A variant in the original size under its name, or in another.
abbrev pub IsMade : Variant → Type 0
IsMade variant = (variant.name ≡ "full") ⊎ (eq_ℤ variant.width (pos 0) ≡ false)

module _ (t : Tools) (v : Views) (node : RequestInfo) where
  -- An image under a variant gets a PNG.
  abbrev pub IsServed : Site → Variant → ImageInfo → Type 0
  IsServed s variant img =
      (body : String) × (catalog_image t v node s variant.name img.file
        ≡ serve_png t v node body 300)

  Has-IsServed :
      (s : Site) (variant : Variant) (img : ImageInfo)
      → Has s.assets (asset_key variant.name img.file)
      → IsServed s variant img
  unfolding catalog_image variant_bytes
  Has-IsServed s variant img (body, there) = (body, rw (there, catalog_image, variant_bytes) refl)

  HasAll-IsServed :
      (s : Site) (variant : Variant)
      → HasAll s.assets variant.name s.images
      → All (IsServed s variant) s.images
  HasAll-IsServed s variant h =
      All-map _ _ (λ img there. Has-IsServed s variant img there) s.images h

  variants-IsServed :
      (s : Site) (vs : List Variant)
      → HasAll s.assets "full" s.images
      → Resized vs s.assets s.images
      → All (λ variant. IsMade variant → All (IsServed s variant) s.images) vs
  variants-IsServed s vs full resized =
      All-map _ _
        (λ variant made_if made. elim made [
          | inl named ↦
              HasAll-IsServed s variant
                (subst (λ name. HasAll s.assets name s.images) (sym named) full)
          | inr smaller ↦ HasAll-IsServed s variant (made_if smaller)
        ])
        vs resized

  -- In a loaded site, every image is served as a PNG under every variant that is called "full" or has
  -- another width than 0.
  pub catalog_image-IsServed :
      (cfg : SiteConfig) (images : List ImageInfo) (s : Site)
      → load_site t cfg images ≡ some s
      → All (λ variant. IsMade variant → All (IsServed s variant) s.images) s.cfg.variants
  unfolding site_of
  catalog_image-IsServed cfg images s e =
      let (b, categories, built, same, _, _) = load_site-Parts t cfg images s e in
      let (full, resized) = build_assets_complete t (with_variants t cfg).variants images b built in
      subst
        (λ (z : Site).
          All (λ variant. IsMade variant → All (IsServed z variant) z.images) z.cfg.variants)
        (sym same)
        (variants-IsServed (site_of t (with_variants t cfg) b categories)
          (with_variants t cfg).variants full resized)
