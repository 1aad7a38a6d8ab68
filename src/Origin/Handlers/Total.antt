-- ===== src/Origin/Handlers/Total.antt =====
-- No request makes a handler of a loaded site panic.
use Prim.Native.String.{String}
use text.Mathlib.Text.{◌==◌ as str_eq}
use ncdn.Base.{
  Bool, ◌||◌, ℕ, zero, suc, ◌+◌, ◌^◌, ◌<◌, ◌≡◌, refl, sym, subst, arith, Bool-cases, true, some,
  Option-cases, List, [], ◌∷◌, length, get_elem?-lt, inl, inr, All,
}
use ncdn.Base.Int.{ℤ, pos, negsuc, pos_part, leb_ℤ}
use ncdn.Popcache.Http.{Object, Outcome, ok}
use ncdn.Origin.Site.{SiteConfig, ImageInfo, Site, images_for_page, page_count_of}
use ncdn.Origin.Site.Pages.{images_for_page-bounds, page_count-eq}
use ncdn.Base.Maps.{find_entry}
use ncdn.Origin.Assets.{
  Tools, make_derived, derived_keep, derived_key, width_allowed, derived_bytes, with_variants,
  load_site, site_of,
}
use ncdn.Origin.Assets.Load.{load_site-Parts}
use ncdn.Origin.Views.{
  Views, RequestInfo, Endpoint, healthz, json, cache_meter, base_css, manifest, root, image,
  variant_image, page, category, random, live_now,
}
use ncdn.Origin.Handlers.{
  render_page, numbered_page, dynamic_image, resized_reply, pick_images, random_picks,
  gallery_routes, catalog_routes, dynamic_routes, profile_routes, serve,
}

-- There is a reply.
abbrev pub Answered : Outcome Object → Type 0
Answered o = (reply : Object) × (o ≡ ok reply)

-- `rand.Intn(n)` is below `n`.
abbrev pub IsIntn : (ℕ → ℕ → ℕ) → Type 0
IsIntn intn = (i n : ℕ) → 0 < n → intn i n < n

-- A profile that has routes.
abbrev pub is_known : String → Bool
is_known profile = str_eq profile "gallery" || str_eq profile "catalog" || str_eq profile "dynamic"

-- What the handlers rely on.
pub record Ready (s : Site) : Type 0 where
  nonempty : 0 < length s.images
  known : is_known s.cfg.profile ≡ true
  counted : s.page_count ≡ page_count_of s.images s.cfg.per_page
  few : length s.images + pos_part s.cfg.per_page < 2 ^ 63

-- The requests of a site, one after another.
unfoldable pub serve_all :
    Tools → Views → RequestInfo → Site → List Endpoint → List (Outcome Object)
serve_all t v node s [] = []
serve_all t v node s (e ∷ es) =
    let done = serve t v node s e in done.1 ∷ serve_all t v node done.0 es

images_for_page-some :
    (images : List ImageInfo) (per_page : ℤ) (n : ℤ)
    → length images + pos_part per_page < 2 ^ 63
    → leb_ℤ (pos 1) n ≡ true
    → leb_ℤ n (page_count_of images per_page) ≡ true
    → (found : List ImageInfo) × (images_for_page images per_page n ≡ some found)
unfolding images_for_page
images_for_page-some images (negsuc m) n few low high =
    let whole : leb_ℤ (negsuc m) (pos 0) ≡ true = ground arith in
    rw (whole, images_for_page) (images, refl)
images_for_page-some images (pos zero) n few low high = (images, refl)
images_for_page-some images (pos (suc m)) (negsuc k) few low high = absurd (ground arith)
images_for_page-some images (pos (suc m)) (pos zero) few low high = absurd (ground arith)
images_for_page-some images (pos (suc m)) (pos (suc k)) few low high =
    let count = page_count-eq images m few in
    let within = rw (count) at high in
    let (found, made, _, _) = images_for_page-bounds images m _ k few count (ground arith) in
    (found, made)

module _ (t : Tools) (v : Views) (node : RequestInfo) where
  render_page-Answered : (s : Site) (n : ℤ) → Ready s → Answered (render_page t v node s n)
  unfolding render_page
  render_page-Answered s n r = elim (Bool-cases (leb_ℤ (pos 1) n)) [
    | inr low ↦ rw (low, render_page) (_, refl)
    | inl low ↦ elim (Bool-cases (leb_ℤ n s.page_count)) [
      | inr high ↦ rw (low, high, render_page) (_, refl)
      | inl high ↦
          let (found, made) =
            images_for_page-some s.images s.cfg.per_page n r.few low (rw (r.counted) at high) in
          rw (low, high, made, render_page) (_, refl)
    ]
  ]

  pick_images-some :
      (images : List ImageInfo) (n i : ℕ)
      → IsIntn v.intn
      → 0 < length images
      → (picks : List ImageInfo) × (pick_images t v node images i n ≡ some picks)
  unfolding pick_images
  pick_images-some images zero i intn h = ([], refl)
  pick_images-some images (suc n) i intn h =
      let (img, there) =
        get_elem?-lt images (v.intn i (length images)) (intn i (length images) h) in
      let (rest, made) = pick_images-some images n (suc i) intn h in
      rw (there, made, pick_images) (_, refl)

  random_picks-Answered : (s : Site) → IsIntn v.intn → Ready s → Answered (random_picks t v node s)
  unfolding random_picks
  random_picks-Answered s intn r =
      let (picks, made) = pick_images-some s.images 6 0 intn r.nonempty in
      rw (made, random_picks) (_, refl)

  derived_keep-Ready :
      (s : Site) (file : String) (width : ℤ) → Ready s → Ready (derived_keep t s file width)
  unfolding derived_keep
  derived_keep-Ready s file width r = elim (Option-cases (make_derived t s.assets file width)) [
    | inl bad ↦ rw (bad, derived_keep) r
    | inr (b, made) ↦
        rw (made, derived_keep)
          (record { nonempty = r.nonempty; known = r.known; counted = r.counted; few = r.few })
  ]

  derived_bytes-Ready :
      (s : Site) (file : String) (width : ℤ) → Ready s → Ready (derived_bytes t s file width).0
  unfolding derived_bytes
  derived_bytes-Ready s file width r =
      elim (Option-cases (find_entry (derived_key t width file) s.derived)) [
        | inr (b, found) ↦ rw (found, derived_bytes) r
        | inl missing ↦ rw (missing, derived_bytes) (derived_keep-Ready s file width r)
      ]

  dynamic_image-Ready :
      (s : Site) (file q : String) → Ready s → Ready (dynamic_image t v node s file q).0
  unfolding dynamic_image resized_reply
  dynamic_image-Ready s file q r = elim (Bool-cases (str_eq q "")) [
    | inl none_given ↦ rw (none_given, dynamic_image) r
    | inr given ↦ elim (Option-cases (v.atoi q)) [
      | inl bad ↦ rw (given, bad, dynamic_image) r
      | inr (width, parsed) ↦ elim (Bool-cases (width_allowed s.cfg.allowed_widths width)) [
        | inr refused ↦ rw (given, parsed, refused, dynamic_image, resized_reply) r
        | inl allowed ↦
            rw (given, parsed, allowed, dynamic_image, resized_reply)
              (derived_bytes-Ready s file width r)
      ]
    ]
  ]

  -- A reply, from a site that stays ready.
  abbrev pub Good : Site × Outcome Object → Type 0
  Good done = Answered done.1 × Ready done.0

  numbered_page-Answered :
      (s : Site) (value : String) → Ready s → Answered (numbered_page t v node s value)
  unfolding numbered_page
  numbered_page-Answered s value r = elim (Option-cases (v.atoi value)) [
    | inl bad ↦ rw (bad, numbered_page) (_, refl)
    | inr (n, parsed) ↦ rw (parsed, numbered_page) (render_page-Answered s n r)
  ]

  gallery_routes-Good : (s : Site) (e : Endpoint) → Ready s → Good (gallery_routes t v node s e)
  unfolding gallery_routes
  gallery_routes-Good s root r = ((_, refl), r)
  gallery_routes-Good s (image file q) r = ((_, refl), r)
  gallery_routes-Good s _ r = ((_, refl), r)

  catalog_routes-Good : (s : Site) (e : Endpoint) → Ready s → Good (catalog_routes t v node s e)
  unfolding catalog_routes
  catalog_routes-Good s root r = (render_page-Answered s (pos 1) r, r)
  catalog_routes-Good s (page value) r = (numbered_page-Answered s value r, r)
  catalog_routes-Good s (category slug) r = ((_, refl), r)
  catalog_routes-Good s (variant_image variant file) r = ((_, refl), r)
  catalog_routes-Good s _ r = ((_, refl), r)

  dynamic_routes-Good :
      (s : Site) (e : Endpoint) → IsIntn v.intn → Ready s → Good (dynamic_routes t v node s e)
  unfolding dynamic_routes
  dynamic_routes-Good s root intn r = ((_, refl), r)
  dynamic_routes-Good s (image file q) intn r = ((_, refl), dynamic_image-Ready s file q r)
  dynamic_routes-Good s random intn r = (random_picks-Answered s intn r, r)
  dynamic_routes-Good s live_now intn r = ((_, refl), r)
  dynamic_routes-Good s _ intn r = ((_, refl), r)

  profile_routes-Good :
      (s : Site) (e : Endpoint) → IsIntn v.intn → Ready s → Good (profile_routes t v node s e)
  unfolding profile_routes
  profile_routes-Good s e intn r = elim (Bool-cases (str_eq s.cfg.profile "gallery")) [
    | inl gallery ↦ rw (gallery, profile_routes) (gallery_routes-Good s e r)
    | inr other ↦ elim (Bool-cases (str_eq s.cfg.profile "catalog")) [
      | inl catalog ↦ rw (other, catalog, profile_routes) (catalog_routes-Good s e r)
      | inr neither ↦ elim (Bool-cases (str_eq s.cfg.profile "dynamic")) [
        | inl dynamic ↦
            rw (other, neither, dynamic, profile_routes) (dynamic_routes-Good s e intn r)
        | inr unknown ↦ absurd (cc (rw (other, neither, unknown) at r.known))
      ]
    ]
  ]

  pub serve-Good : (s : Site) (e : Endpoint) → IsIntn v.intn → Ready s → Good (serve t v node s e)
  unfolding serve
  serve-Good s healthz intn r = ((_, refl), r)
  serve-Good s json intn r = ((_, refl), r)
  serve-Good s cache_meter intn r = ((_, refl), r)
  serve-Good s base_css intn r = ((_, refl), r)
  serve-Good s manifest intn r = ((_, refl), r)
  serve-Good s root intn r = profile_routes-Good s root intn r
  serve-Good s (image file q) intn r = profile_routes-Good s (image file q) intn r
  serve-Good s (variant_image variant file) intn r =
      profile_routes-Good s (variant_image variant file) intn r
  serve-Good s (page value) intn r = profile_routes-Good s (page value) intn r
  serve-Good s (category slug) intn r = profile_routes-Good s (category slug) intn r
  serve-Good s random intn r = profile_routes-Good s random intn r
  serve-Good s live_now intn r = profile_routes-Good s live_now intn r

  serve_all-Good :
      (es : List Endpoint) (s : Site)
      → IsIntn v.intn
      → Ready s
      → All Answered (serve_all t v node s es)
  unfolding serve_all
  serve_all-Good [] s intn r = tt
  serve_all-Good (e ∷ es) s intn r =
      let (answered, ready) = serve-Good s e intn r in
      (answered, serve_all-Good es (serve t v node s e).0 intn ready)

  pub load_site-Ready :
      (cfg : SiteConfig) (images : List ImageInfo) (s : Site)
      → load_site t cfg images ≡ some s
      → is_known s.cfg.profile ≡ true
      → length images + pos_part (with_variants t cfg).per_page < 2 ^ 63
      → Ready s
  unfolding site_of
  load_site-Ready cfg images s e known few =
      let (b, categories, built, same, nonempty, sized) = load_site-Parts t cfg images s e in
      subst Ready (sym same) (record {
        nonempty = nonempty;
        known = subst (λ (x : Site). is_known x.cfg.profile ≡ true) same known;
        counted = refl;
        few = omega (arith, few, sized);
      })

  -- When a site with a known profile was loaded, its images and a page of them are fewer than 2^63, and `rand.Intn` is
  -- within its bound, then every request of any sequence gets a reply: no slice is out of its bounds
  -- and no random number is asked of an empty range.
  pub serve_all-Answered :
      (cfg : SiteConfig) (images : List ImageInfo) (s : Site) (es : List Endpoint)
      → load_site t cfg images ≡ some s
      → is_known (with_variants t cfg).profile ≡ true
      → length images + pos_part (with_variants t cfg).per_page < 2 ^ 63
      → IsIntn v.intn
      → All Answered (serve_all t v node s es)
  unfolding site_of
  serve_all-Answered cfg images s es e known few intn =
      let (b, categories, built, same, nonempty, sized) = load_site-Parts t cfg images s e in
      serve_all-Good es s intn (
        subst Ready (sym same) (record {
          nonempty = nonempty;
          known = known;
          counted = refl;
          few = omega (arith, few, sized);
        }))
