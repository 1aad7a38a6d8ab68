-- ===== src/Origin/Assets/Complete.antt =====
-- What `buildAssets` leaves: every image in its original size and in the width of every variant.
use Prim.Native.String.{String, len}
use text.Mathlib.Text.{◌==◌ as str_eq}
use text.Mathlib.TextEquality.{eq_iff}
use ncdn.Base.{
  ◌+◌, some-injective, ◌≡◌, refl, sym, subst, ◌∙◌, arith, false, Bool-cases, some, Option-cases,
  List, [], ◌∷◌, inl, inr, All, All-append, All-map,
}
use ncdn.Base.Int.{pos}
use ncdn.Base.Maps.{put, find_entry, find_entry-put}
use ncdn.Origin.Site.{Variant, ImageInfo, eq_ℤ}
use ncdn.Origin.Assets.{
  Tools, Built, asset_key, load_image, load_images, resize_image, resize_images, add_variants,
  nothing_built, build_assets, bytes_of,
}

-- The key has an entry.
abbrev pub Has : List (String × String) → String → Type 0
Has m k = (b : String) × (find_entry k m ≡ some b)

Has-put : (m : List (String × String)) (k j v : String) → Has m k → Has (put j v m) k
Has-put m k j v (b, e) = elim (Bool-cases (str_eq j k)) [
  | inl same ↦ (v, find_entry-put k j v m ∙ rw same refl)
  | inr other ↦ (b, find_entry-put k j v m ∙ rw other e)
]

Has-put_self : (m : List (String × String)) (k v : String) → Has (put k v m) k
Has-put_self m k v = (v, find_entry-put k k v m ∙ (ground (arith, eq_iff k k)))

-- Every image is there under `variant`.
abbrev pub HasAll : List (String × String) → String → List ImageInfo → Type 0
HasAll assets variant = All (λ img. Has assets (asset_key variant img.file))

-- Nothing is taken away.
abbrev Grows : Built → Built → Type 0
Grows b b' = (k : String) → Has b.assets k → Has b'.assets k

HasAll-Grows :
    (b b' : Built) (variant : String) (images : List ImageInfo)
    → Grows b b'
    → HasAll b.assets variant images
    → HasAll b'.assets variant images
HasAll-Grows b b' variant images g = All-map _ _ (λ img h. g (asset_key variant img.file) h) images

abbrev with_asset : Built → Variant → ImageInfo → String → Built
with_asset b v info resized = record b {
  assets = put (asset_key v.name info.file) resized b.assets;
  total_bytes = b.total_bytes + len resized;
}

-- The variants that are resized.
abbrev pub Resized : List Variant → List (String × String) → List ImageInfo → Type 0
Resized vs assets images = All (λ v. eq_ℤ v.width (pos 0) ≡ false → HasAll assets v.name images) vs

module _ (t : Tools) where
  load_image-full :
      (b b' : Built) (info : ImageInfo)
      → load_image t b info ≡ some b'
      → HasAll b.assets "full" b.images
      → HasAll b'.assets "full" b'.images
  unfolding load_image
  load_image-full b b' info e h = elim (Option-cases (t.read_image info.file)) [
    | inl missing ↦ absurd (cc (rw (missing, load_image) at e))
    | inr (orig, read) ↦
        let same = some-injective (rw (read, load_image) at e) in
        subst (λ (z : Built). HasAll z.assets "full" z.images) same
          (All-append _ b.images _ (All-map _ _ (λ img k. Has-put b.assets _ _ orig k) b.images h)
            (Has-put_self b.assets (asset_key "full" info.file) orig, tt))
  ]

  load_images-full :
      (infos : List ImageInfo) (b b' : Built)
      → load_images t b infos ≡ some b'
      → HasAll b.assets "full" b.images
      → HasAll b'.assets "full" b'.images
  unfolding load_images
  load_images-full [] b b' e h =
      subst (λ (z : Built). HasAll z.assets "full" z.images) (some-injective e) h
  load_images-full (info ∷ infos) b b' e h = elim (Option-cases (load_image t b info)) [
    | inl missing ↦ absurd (cc (rw (missing, load_images) at e))
    | inr (b1, loaded) ↦
        load_images-full infos b1 b' (rw (loaded, load_images) at e)
          (load_image-full b b1 info loaded h)
  ]

  resize_images-HasAll :
      (v : Variant) (infos : List ImageInfo) (b b' : Built)
      → resize_images t v b infos ≡ some b'
      → Grows b b' × (b'.images ≡ b.images) × HasAll b'.assets v.name infos
  unfolding resize_images resize_image
  resize_images-HasAll v [] b b' e =
      subst (λ (z : Built). Grows b z × (z.images ≡ b.images) × HasAll z.assets v.name [])
        (some-injective e) ((λ k h. h), refl, tt)
  resize_images-HasAll v (info ∷ infos) b b' e =
      elim (Option-cases (t.resize (bytes_of (find_entry info.file b.originals)) v.width)) [
        | inl bad ↦ absurd (cc (rw (bad, resize_images, resize_image) at e))
        | inr (resized, made) ↦
            let (grows, same, all) =
              resize_images-HasAll v infos (with_asset b v info resized) b'
                (rw (made, resize_images, resize_image) at e) in
            (
              (λ k h. grows k (Has-put b.assets k (asset_key v.name info.file) resized h)),
              same,
              (
                grows (asset_key v.name info.file)
                    (Has-put_self b.assets (asset_key v.name info.file) resized),
                all,
              ),
            )
      ]

  pub add_variants-Resized :
      (vs : List Variant) (b b' : Built)
      → add_variants t b vs ≡ some b'
      → Grows b b' × (b'.images ≡ b.images) × Resized vs b'.assets b.images
  unfolding add_variants
  add_variants-Resized [] b b' e =
      subst (λ (z : Built). Grows b z × (z.images ≡ b.images) × Resized [] z.assets b.images)
        (some-injective e) ((λ k h. h), refl, tt)
  add_variants-Resized (v ∷ vs) b b' e = elim (Bool-cases (eq_ℤ v.width (pos 0))) [
    | inl original ↦
        let (grows, same, all) = add_variants-Resized vs b b' (rw (original, add_variants) at e) in
        (grows, same, ((λ resized. absurd (cc)), all))
    | inr smaller ↦ elim (Option-cases (resize_images t v b b.images)) [
      | inl bad ↦ absurd (cc (rw (smaller, bad, add_variants) at e))
      | inr (b1, done) ↦
          let (grows1, same1, all1) = resize_images-HasAll v b.images b b1 done in
          let (grows, same, all) =
            add_variants-Resized vs b1 b' (rw (smaller, done, add_variants) at e) in
          (
            (λ k h. grows k (grows1 k h)),
            same ∙ same1,
            (
              (λ resized. HasAll-Grows b1 b' v.name b.images grows all1),
              subst (λ images. Resized vs b'.assets images) same1 all,
            ),
          )
    ]
  ]

  -- What is built has every image in its original size, and in every variant whose width is not 0.
  pub build_assets_complete :
      (vs : List Variant) (images : List ImageInfo) (b : Built)
      → build_assets t vs images ≡ some b
      → HasAll b.assets "full" b.images × Resized vs b.assets b.images
  unfolding build_assets
  build_assets_complete vs images b e =
      elim (Option-cases (load_images t (nothing_built t) images)) [
        | inl bad ↦ absurd (cc (rw (bad, build_assets) at e))
        | inr (b1, loaded) ↦
            let (grows, same, all) =
              add_variants-Resized vs b1 b (rw (loaded, build_assets) at e) in
            (
              subst (λ infos. HasAll b.assets "full" infos) (sym same)
                  (HasAll-Grows b1 b "full" b1.images grows
                    (load_images-full images (nothing_built t) b1 loaded tt)),
              subst (λ infos. Resized vs b.assets infos) (sym same) all,
            )
      ]
