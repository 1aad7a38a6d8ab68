-- ===== src/Origin/Handlers/Keyed.antt =====
-- What requests can make a site keep: the cache of resized images.
use Prim.Native.String.{String}
use text.Mathlib.Text.{◌==◌ as str_eq}
use ncdn.Base.{
  ◌≡◌, refl, sym, subst, true, Bool-cases, some, Option-cases, List, [], ◌∷◌, inl, inr, All,
}
use ncdn.Base.Int.{ℤ}
use ncdn.Base.Maps.{find_entry, All-put}
use ncdn.Origin.Site.{SiteConfig, ImageInfo, Site}
use ncdn.Origin.Assets.{
  Tools, variant_bytes, derived_key, derived_bytes, derived_keep, make_derived, width_allowed,
  load_site, site_of, asset_key,
}
use ncdn.Origin.Assets.Complete.{Has}
use ncdn.Origin.Assets.Load.{load_site-Parts}
use ncdn.Origin.Views.{
  Views, RequestInfo, Endpoint, healthz, json, cache_meter, base_css, manifest, root, image,
  variant_image, page, category, random, live_now,
}
use ncdn.Origin.Handlers.{
  dynamic_image, resized_reply, gallery_routes, catalog_routes, dynamic_routes, profile_routes,
  serve,
}

-- The site after requests.
unfoldable pub site_after : Tools → Views → RequestInfo → Site → List Endpoint → Site
site_after t v node s [] = s
site_after t v node s (e ∷ es) = site_after t v node (serve t v node s e).0 es

module _ (t : Tools) (v : Views) (node : RequestInfo) where
  -- The key is that of a width that is allowed and of a file that the site has.
  abbrev pub IsAllowedKey : Site → String → Type 0
  IsAllowedKey s key =
      (width : ℤ) × (file : String) × (key ≡ derived_key t width file)
      × (width_allowed s.cfg.allowed_widths width ≡ true)
      × Has s.assets (asset_key "full" file)

  abbrev pub AllowedOnly : Site → Type 0
  AllowedOnly s = All (λ entry. IsAllowedKey s entry.0) s.derived

  derived_keep-AllowedOnly :
      (s : Site) (file : String) (width : ℤ)
      → width_allowed s.cfg.allowed_widths width ≡ true
      → AllowedOnly s
      → AllowedOnly (derived_keep t s file width)
  unfolding derived_keep make_derived variant_bytes
  derived_keep-AllowedOnly s file width allowed h =
      elim (Option-cases (find_entry (asset_key "full" file) s.assets)) [
        | inl gone ↦ rw (gone, derived_keep, make_derived, variant_bytes) h
        | inr (orig, there) ↦ elim (Option-cases (t.resize orig width)) [
          | inl bad ↦ rw (there, bad, derived_keep, make_derived, variant_bytes) h
          | inr (b, made) ↦
              rw (there, made, derived_keep, make_derived, variant_bytes)
                (All-put (IsAllowedKey s) (derived_key t width file) b s.derived
                  (width, file, refl, allowed, (orig, there)) h)
        ]
      ]

  derived_bytes-AllowedOnly :
      (s : Site) (file : String) (width : ℤ)
      → width_allowed s.cfg.allowed_widths width ≡ true
      → AllowedOnly s
      → AllowedOnly (derived_bytes t s file width).0
  unfolding derived_bytes
  derived_bytes-AllowedOnly s file width allowed h =
      elim (Option-cases (find_entry (derived_key t width file) s.derived)) [
        | inr (b, found) ↦ rw (found, derived_bytes) h
        | inl missing ↦
            rw (missing, derived_bytes) (derived_keep-AllowedOnly s file width allowed h)
      ]

  dynamic_image-AllowedOnly :
      (s : Site) (file q : String) → AllowedOnly s → AllowedOnly (dynamic_image t v node s file q).0
  unfolding dynamic_image resized_reply
  dynamic_image-AllowedOnly s file q h = elim (Bool-cases (str_eq q "")) [
    | inl none_given ↦ rw (none_given, dynamic_image) h
    | inr given ↦ elim (Option-cases (v.atoi q)) [
      | inl bad ↦ rw (given, bad, dynamic_image) h
      | inr (width, parsed) ↦ elim (Bool-cases (width_allowed s.cfg.allowed_widths width)) [
        | inr refused ↦ rw (given, parsed, refused, dynamic_image, resized_reply) h
        | inl allowed ↦
            rw (given, parsed, allowed, dynamic_image, resized_reply)
              (derived_bytes-AllowedOnly s file width allowed h)
      ]
    ]
  ]

  gallery_routes-same : (s : Site) (e : Endpoint) → (gallery_routes t v node s e).0 ≡ s
  unfolding gallery_routes
  gallery_routes-same s root = refl
  gallery_routes-same s (image file q) = refl
  gallery_routes-same s _ = refl

  catalog_routes-same : (s : Site) (e : Endpoint) → (catalog_routes t v node s e).0 ≡ s
  unfolding catalog_routes
  catalog_routes-same s root = refl
  catalog_routes-same s (page value) = refl
  catalog_routes-same s (category slug) = refl
  catalog_routes-same s (variant_image variant file) = refl
  catalog_routes-same s _ = refl

  dynamic_routes-AllowedOnly :
      (s : Site) (e : Endpoint) → AllowedOnly s → AllowedOnly (dynamic_routes t v node s e).0
  unfolding dynamic_routes
  dynamic_routes-AllowedOnly s (image file q) h = dynamic_image-AllowedOnly s file q h
  dynamic_routes-AllowedOnly s _ h = h

  profile_routes-AllowedOnly :
      (s : Site) (e : Endpoint) → AllowedOnly s → AllowedOnly (profile_routes t v node s e).0
  unfolding profile_routes
  profile_routes-AllowedOnly s e h = elim (Bool-cases (str_eq s.cfg.profile "gallery")) [
    | inl gallery ↦
        rw (gallery, profile_routes) (subst AllowedOnly (sym (gallery_routes-same s e)) h)
    | inr other ↦ elim (Bool-cases (str_eq s.cfg.profile "catalog")) [
      | inl catalog ↦
          rw (other, catalog, profile_routes) (subst AllowedOnly (sym (catalog_routes-same s e)) h)
      | inr neither ↦ elim (Bool-cases (str_eq s.cfg.profile "dynamic")) [
        | inl dynamic ↦
            rw (other, neither, dynamic, profile_routes) (dynamic_routes-AllowedOnly s e h)
        | inr unknown ↦ rw (other, neither, unknown, profile_routes) h
      ]
    ]
  ]

  serve-AllowedOnly : (s : Site) (e : Endpoint) → AllowedOnly s → AllowedOnly (serve t v node s e).0
  unfolding serve
  serve-AllowedOnly s healthz h = h
  serve-AllowedOnly s json h = h
  serve-AllowedOnly s cache_meter h = h
  serve-AllowedOnly s base_css h = h
  serve-AllowedOnly s manifest h = h
  serve-AllowedOnly s root h = profile_routes-AllowedOnly s root h
  serve-AllowedOnly s (image file q) h = profile_routes-AllowedOnly s (image file q) h
  serve-AllowedOnly s (variant_image variant file) h =
      profile_routes-AllowedOnly s (variant_image variant file) h
  serve-AllowedOnly s (page value) h = profile_routes-AllowedOnly s (page value) h
  serve-AllowedOnly s (category slug) h = profile_routes-AllowedOnly s (category slug) h
  serve-AllowedOnly s random h = profile_routes-AllowedOnly s random h
  serve-AllowedOnly s live_now h = profile_routes-AllowedOnly s live_now h

  site_after-kept :
      (es : List Endpoint) (s : Site) → AllowedOnly s → AllowedOnly (site_after t v node s es)
  unfolding site_after
  site_after-kept [] s h = h
  site_after-kept (e ∷ es) s h = site_after-kept es (serve t v node s e).0 (serve-AllowedOnly s e h)

  -- From a loaded site and any sequence of requests, every entry of the cache of resized images is
  -- under the key of a width that the site allows and of a file that it has an original of.
  pub site_after-AllowedOnly :
      (cfg : SiteConfig) (images : List ImageInfo) (s : Site) (es : List Endpoint)
      → load_site t cfg images ≡ some s
      → AllowedOnly (site_after t v node s es)
  unfolding site_of
  site_after-AllowedOnly cfg images s es e =
      let (b, categories, built, same, _, _) = load_site-Parts t cfg images s e in
      site_after-kept es s (subst AllowedOnly (sym same) tt)
