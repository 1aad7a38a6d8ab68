-- ===== src/Origin/Assets/Load.antt =====
-- What a loaded site is made of.
use ncdn.Base.{
  ◌+◌, ◌<◌, ◌≡◌, sym, ap, ◌∙◌, some-injective, arith, some, Option-cases, List, [], ◌∷◌, length,
  length-append, inl, inr, arith,
}
use ncdn.Origin.Site.{SiteConfig, ImageInfo, Category, Site}
use ncdn.Origin.Categories.{build_categories}
use ncdn.Origin.Assets.{
  Tools, Built, load_image, load_images, nothing_built, build_assets, with_variants, site_of,
  load_site,
}
use ncdn.Origin.Assets.Complete.{add_variants-Resized}

module _ (t : Tools) where
  load_images-length :
      (infos : List ImageInfo) (b b' : Built)
      → load_images t b infos ≡ some b'
      → length b'.images ≡ length b.images + length infos
  unfolding load_images load_image
  load_images-length [] b b' e =
      let same = ap (λ (z : Built). length z.images) (some-injective e) in omega arith
  load_images-length (info ∷ infos) b b' e = elim (Option-cases (t.read_image info.file)) [
    | inl missing ↦ absurd (cc (rw (missing, load_images, load_image) at e))
    | inr (orig, read) ↦
        let rest = load_images-length infos _ b' (rw (read, load_images, load_image) at e) in
        omega (arith, length-append b.images)
  ]

  build_assets-length :
      (cfg : SiteConfig) (images : List ImageInfo) (b : Built)
      → build_assets t cfg.variants images ≡ some b
      → length b.images ≡ length images
  unfolding build_assets
  build_assets-length cfg images b e =
      elim (Option-cases (load_images t (nothing_built t) images)) [
        | inl bad ↦ absurd (cc (rw (bad, build_assets) at e))
        | inr (b1, loaded) ↦
            let (grows, same, all) =
              add_variants-Resized t cfg.variants b1 b (rw (loaded, build_assets) at e) in
            ap length same ∙ load_images-length images (nothing_built t) b1 loaded ∙ omega arith
      ]

  -- The parts of a loaded site.
  abbrev pub Parts : SiteConfig → List ImageInfo → Site → Type 0
  Parts cfg images s =
      (b : Built) × (categories : List Category) × (build_assets t (with_variants t cfg).variants
          images
        ≡ some b)
      × (s ≡ site_of t (with_variants t cfg) b categories)
      × (0 < length b.images)
      × (length b.images ≡ length images)

  pub load_site-Parts :
      (cfg : SiteConfig) (images : List ImageInfo) (s : Site)
      → load_site t cfg images ≡ some s
      → Parts cfg images s
  unfolding load_site
  load_site-Parts cfg [] s e = absurd (cc e)
  load_site-Parts cfg (img ∷ images) s e =
      elim (Option-cases (build_assets t (with_variants t cfg).variants (img ∷ images))) [
        | inl bad ↦ absurd (cc (rw (bad, load_site) at e))
        | inr (b, built) ↦ elim (Option-cases (build_categories b.images)) [
          | inl bad ↦ absurd (cc (rw (built, bad, load_site) at e))
          | inr (categories, counted) ↦
              let same = build_assets-length (with_variants t cfg) (img ∷ images) b built in
              (
                b,
                categories,
                built,
                sym (some-injective (rw (built, counted, load_site) at e)),
                omega arith,
                same,
              )
        ]
      ]
