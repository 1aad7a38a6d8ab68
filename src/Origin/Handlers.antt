-- ===== src/Origin/Handlers.antt =====
-- The handlers of origin/handlers.go for a site, and `dumpRequestInfo` and `serveJson` of
-- origin/main.go. A request is what the mux makes of it: its pattern with the path values and the
-- query. The templates, encoding/json, `strconv.Atoi`, the clock and math/rand are parameters.
pub mod Total
pub mod Served
pub mod Keyed
use Prim.Native.String.{String, len}
use text.Mathlib.Text.{◌==◌ as str_eq}
use ncdn.Base.{
  ℕ, zero, suc, Bool, true, false, ◌||◌, not, Option, none, some, List, [], ◌∷◌, length, get_elem?,
  ◌⊎◌, inl, inr, if◌then◌else◌,
}
use ncdn.Base.Int.{ℤ, pos, leb_ℤ}
use ncdn.Popcache.Http.{Header, Object, Outcome, ok, panic, fatal, get, set, http_error}
use ncdn.Origin.Site.{concat, Variant, SiteConfig, ImageInfo, Category, Site, images_for_page}
use ncdn.Origin.Categories.{images_for_category}
use ncdn.Origin.Views.{
  RequestInfo, PageStats, PageData, Manifest, Picks, Views, Endpoint, healthz, json, cache_meter,
  base_css, manifest, root, image, variant_image, page, category, random, live_now,
}
use ncdn.Origin.Assets.{Tools, variant_bytes, derived_bytes, width_allowed, build_meter_urls}

-- A reply whose status nobody sets.
abbrev pub reply : Header → String → Object
reply header body = record { status_code = 200; header = header; body = body }

-- `http.NotFound`
abbrev pub not_found : Object
not_found = http_error [] "404 page not found" 404

abbrev pub typed : String → String → Header
typed content_type cache_control =
    set (set [] "Content-Type" content_type) "Cache-Control" cache_control

module _ (t : Tools) (v : Views) (node : RequestInfo) where
  -- `newPageData`
  abbrev pub new_page_data : Site → String → PageData
  new_page_data s heading = record {
    site = s.cfg;
    node = node;
    heading = heading;
    images = [];
    variants = s.cfg.variants;
    categories = s.categories;
    page = pos 1;
    page_count = s.page_count;
    active_cat = "";
    meter_urls = v.urls_json (build_meter_urls t s.cfg s.images);
    stats = record {
      image_count = length s.images;
      asset_count = length s.assets;
      unique_urls = s.unique_urls;
      total_bytes = s.total_bytes;
      page_count = s.page_count;
    };
  }

  -- `render`
  unfoldable pub render : String → PageData → Object
  render name d = elim (v.execute name d) [
    | none ↦ http_error [] "Internal Server Error" 500
    | some body ↦ reply (typed "text/html; charset=utf-8" "public, max-age=10") body
  ]

  -- `servePNG`
  unfoldable pub serve_png : String → ℕ → Object
  serve_png body max_age =
      reply
        (set (set (set [] "Content-Type" "image/png") "Content-Length" (t.decimal (pos (len body))))
          "Cache-Control" (concat "public, max-age=" (t.decimal (pos max_age))))
        body

  -- `serveJSON` for what `json.MarshalIndent` returned.
  unfoldable pub serve_json : Option String → String → Object
  serve_json none cache_control = http_error [] "Internal Server Error" 500
  serve_json (some bs) cache_control = reply (typed "application/json" cache_control) bs

  -- `serveJson`; marshalling gives the text or an error.
  unfoldable pub serve_info : Object
  serve_info = elim (v.info_json node) [
    | inr e ↦ http_error [] e 500
    | inl bs ↦ reply (set [] "Content-Type" "application/json") bs
  ]

  abbrev pub manifest_of : Site → Manifest
  manifest_of s = record {
    site = s.cfg.id;
    host = s.cfg.host;
    profile = s.cfg.profile;
    variants = s.cfg.variants;
    page_count = s.page_count;
    unique_urls = s.unique_urls;
    images = s.images;
  }

  -- "GET /{$}" of the gallery and of the dynamic site.
  unfoldable pub index_page : Site → Object
  index_page s = render "index" (record (new_page_data s s.cfg.name) { images = s.images })

  -- "GET /img/{file}" of the gallery.
  unfoldable pub full_image : Site → String → Object
  full_image s file = elim (variant_bytes s.assets "full" file) [
    | none ↦ not_found
    | some body ↦ serve_png body 60
  ]

  -- `renderPage`; a slice out of bounds panics.
  unfoldable pub render_page : Site → ℤ → Outcome Object
  render_page s n =
      if not (leb_ℤ (pos 1) n) || not (leb_ℤ n s.page_count)
      then ok not_found
      else elim (images_for_page s.images s.cfg.per_page n) [
        | none ↦ panic
        | some images ↦
            let heading = concat s.cfg.name (
              concat " — "
                (concat (t.decimal n) (concat " / " (concat (t.decimal s.page_count) " ページ")))) in
            ok (render "index" (record (new_page_data s heading) { images = images; page = n }))
      ]

  -- "GET /p/{page}"
  unfoldable pub numbered_page : Site → String → Outcome Object
  numbered_page s value = elim (v.atoi value) [ none ↦ ok not_found | some n ↦ render_page s n ]

  -- The loop for the name of a category.
  unfoldable pub category_name : String → String → List Category → String
  category_name slug name [] = name
  category_name slug name (c ∷ cs) =
      category_name slug (if str_eq c.slug slug then c.name else name) cs

  -- "GET /c/{slug}" once the images are picked.
  unfoldable pub show_category : Site → String → List ImageInfo → Object
  show_category s slug [] = not_found
  show_category s slug (img ∷ images) =
      let heading = concat s.cfg.name (concat " — " (category_name slug slug s.categories)) in
      render "index" (record (new_page_data s heading) { images = img ∷ images; active_cat = slug })

  -- "GET /c/{slug}"
  unfoldable pub category_page : Site → String → Object
  category_page s slug = show_category s slug (images_for_category slug s.images)

  -- "GET /img/{variant}/{file}"
  unfoldable pub catalog_image : Site → String → String → Object
  catalog_image s variant file = elim (variant_bytes s.assets variant file) [
    | none ↦ not_found
    | some body ↦ serve_png body 300
  ]

  -- The answer to a width that is not allowed.
  abbrev pub bad_width : Site → Object
  bad_width s =
      http_error []
        (concat "w= には " (concat (v.widths_text s.cfg.allowed_widths) " のいずれかを指定してください")) 400

  -- "GET /img/{file}" of the dynamic site with a width.
  unfoldable pub resized_reply : Site → String → ℤ → Site × Object
  resized_reply s file width =
      if width_allowed s.cfg.allowed_widths width
      then (let done = derived_bytes t s file width in
          (done.0, (elim done.1 [ none ↦ not_found | some body ↦ serve_png body 60 ])))
      else (s, bad_width s)

  -- "GET /img/{file}" of the dynamic site, with the query's `w`.
  unfoldable pub dynamic_image : Site → String → String → Site × Object
  dynamic_image s file q =
      if str_eq q ""
      then (s, full_image s file)
      else elim (v.atoi q) [ none ↦ (s, bad_width s) | some width ↦ resized_reply s file width ]

  -- The loop of "GET /api/random": `intn` panics on no images.
  unfoldable pub pick_images : List ImageInfo → ℕ → ℕ → Option (List ImageInfo)
  pick_images images i zero = some []
  pick_images images i (suc n) = elim (get_elem? images (v.intn i (length images))) [
    | none ↦ none
    | some img ↦ elim (pick_images images (suc i) n) [ none ↦ none | some rest ↦ some (img ∷ rest) ]
  ]

  -- "GET /api/random"
  unfoldable pub random_picks : Site → Outcome Object
  random_picks s = elim (pick_images s.images 0 6) [
    | none ↦ panic
    | some picks ↦ ok (
        serve_json
          (v.picks_json (record { served_at = v.now; origin_id = node.origin_id; picks = picks }))
          "no-store")
  ]

  -- "GET /live/now"
  unfoldable pub live_reply : Object
  live_reply =
      reply (set (set [] "Cache-Control" "no-store") "Content-Type" "text/plain; charset=utf-8")
        (concat v.now (concat " origin=" (concat node.origin_id "\n")))

  -- `registerGalleryRoutes`
  unfoldable pub gallery_routes : Site → Endpoint → Site × Outcome Object
  gallery_routes s root = (s, ok (index_page s))
  gallery_routes s (image file q) = (s, ok (full_image s file))
  gallery_routes s _ = (s, ok not_found)

  -- `registerCatalogRoutes`
  unfoldable pub catalog_routes : Site → Endpoint → Site × Outcome Object
  catalog_routes s root = (s, render_page s (pos 1))
  catalog_routes s (page value) = (s, numbered_page s value)
  catalog_routes s (category slug) = (s, ok (category_page s slug))
  catalog_routes s (variant_image variant file) = (s, ok (catalog_image s variant file))
  catalog_routes s _ = (s, ok not_found)

  -- `registerDynamicRoutes`
  unfoldable pub dynamic_routes : Site → Endpoint → Site × Outcome Object
  dynamic_routes s root = (s, ok (index_page s))
  dynamic_routes s (image file q) = let done = dynamic_image s file q in (done.0, ok done.1)
  dynamic_routes s random = (s, random_picks s)
  dynamic_routes s live_now = (s, ok live_reply)
  dynamic_routes s _ = (s, ok not_found)

  -- The routes of the site's profile: with another one the process ends before it serves.
  unfoldable pub profile_routes : Site → Endpoint → Site × Outcome Object
  profile_routes s e =
      if str_eq s.cfg.profile "gallery"
      then gallery_routes s e
      else if str_eq s.cfg.profile "catalog"
      then catalog_routes s e
      else if str_eq s.cfg.profile "dynamic"
      then dynamic_routes s e
      else (s, fatal)

  -- `registerSiteRoutes`
  unfoldable pub serve : Site → Endpoint → Site × Outcome Object
  serve s healthz =
      (s, ok (reply (set [] "Cache-Control" "no-store") (concat "ok " (concat s.cfg.id "\n"))))
  serve s json = (s, ok serve_info)
  serve s cache_meter = (
    s,
    ok (reply (typed "text/javascript; charset=utf-8" "public, max-age=300") v.cache_meter_js),
  )
  serve s base_css =
      (s, ok (reply (typed "text/css; charset=utf-8" "public, max-age=300") v.base_css))
  serve s manifest = (s, ok (serve_json (v.manifest_json (manifest_of s)) "public, max-age=60"))
  serve s e = profile_routes s e
