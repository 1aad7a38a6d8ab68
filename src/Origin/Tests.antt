-- ===== src/Origin/Tests.antt =====
-- A site of two images, and runs of the origin's code on it.
use Prim.Native.Char.{code}
use Prim.Native.String.{String, len}
use text.Mathlib.TextLemmas.{head-eq_of_cons-eq, tail-eq_of_cons-eq, nil≢cons, cons≢nil}
use ncdn.Base.{
  ℕ, zero, suc, ◌≡◌, refl, sym, ap, arith, none, some, List, [], ◌∷◌, All, ◌-◌, ◌%◌, ◌^◌, true, inl,
}
use ncdn.Base.Int.{ℤ, pos, negsuc}
use ncdn.Origin.Site.{SiteConfig, Variant, ImageInfo, Site, page_count_of}
use ncdn.Origin.Site.Pages.{first_pages, first_pages-page_count}
use ncdn.Base.Maps.{put, find_entry}
use ncdn.Origin.Categories.{build_categories, pick, sort_strings, tally, tally_one, insert_sorted}
use ncdn.Origin.Assets.{
  Tools, load_site, build_assets, load_images, load_image, add_variants, resize_images,
  resize_image, site_of,
}
use ncdn.Httprps.{new_middleware}
use ncdn.Popcache.Http.{Object}
use ncdn.Origin.Handlers.{not_found}
use ncdn.Origin.Main.{
  Pages, asset, endpoint, no_route, Target, of_site, has_routes, origin_main, serve_requests,
}
use ncdn.Origin.Main.Total.{passed, origin_main-Answered}
use ncdn.Origin.Handlers.Total.{Answered}
use ncdn.Origin.Handlers.Served.{IsMade, IsServed, catalog_image-IsServed}
use ncdn.Origin.Handlers.Keyed.{AllowedOnly, site_after, site_after-AllowedOnly}
use ncdn.Origin.Assets.Derived.{
  NoSlash, IsDecimal, derived_answers, derived_answers-made, made_answers, Part, look, keep,
}
use ncdn.Origin.Views.{Views, RequestInfo, Endpoint, root, image, page, category, random}

-- Numbers as strokes.
abbrev strokes : ℕ → String
strokes zero = ""
strokes (suc n) = String.◌∷◌ "1" (strokes n)

abbrev decimal : ℤ → String
decimal (pos n) = strokes n
decimal (negsuc n) = String.◌∷◌ "-" (strokes n)

one≢slash : ◌≡◌ {A = ℕ} 49 47 → ⊥
one≢slash e = omega arith

minus≢slash : ◌≡◌ {A = ℕ} 45 47 → ⊥
minus≢slash e = omega arith

one≢minus : ◌≡◌ {A = ℕ} 49 45 → ⊥
one≢minus e = omega arith

strokes-NoSlash : (n : ℕ) → NoSlash (strokes n)
strokes-NoSlash zero = tt
strokes-NoSlash (suc n) = (one≢slash, strokes-NoSlash n)

decimal-NoSlash : (n : ℤ) → NoSlash (decimal n)
decimal-NoSlash (pos n) = strokes-NoSlash n
decimal-NoSlash (negsuc n) = (minus≢slash, strokes-NoSlash n)

strokes-injective : (m n : ℕ) → strokes m ≡ strokes n → m ≡ n
strokes-injective zero zero e = refl
strokes-injective zero (suc n) e = absurd (nil≢cons e)
strokes-injective (suc m) zero e = absurd (cons≢nil e)
strokes-injective (suc m) (suc n) e = ap suc (strokes-injective m n (tail-eq_of_cons-eq e))

strokes≢minus : (m : ℕ) (s : String) → strokes m ≡ String.◌∷◌ "-" s → ⊥
strokes≢minus zero s e = nil≢cons e
strokes≢minus (suc m) s e = one≢minus (ap code (head-eq_of_cons-eq e))

decimal-injective : (m n : ℤ) → decimal m ≡ decimal n → m ≡ n
decimal-injective (pos m) (pos n) e = ap pos (strokes-injective m n e)
decimal-injective (negsuc m) (negsuc n) e = ap negsuc (strokes-injective m n (tail-eq_of_cons-eq e))
decimal-injective (pos m) (negsuc n) e = absurd (strokes≢minus m (strokes n) e)
decimal-injective (negsuc m) (pos n) e = absurd (strokes≢minus n (strokes m) (sym e))

decimal-IsDecimal : IsDecimal decimal
decimal-IsDecimal = record { no_slash = decimal-NoSlash; injective = decimal-injective }

-- A file is its name, and resizing leaves it.
abbrev tools : Tools
tools = record { read_image = λ f. some f; resize = λ b w. some b; decimal = decimal }

abbrev cat_image : ImageInfo
cat_image = record {
  id = "1";
  title = "cat";
  file = "cat.png";
  bytes = 0;
  category = "Animals";
  category_slug = "animals";
}

abbrev sea_image : ImageInfo
sea_image = record {
  id = "2";
  title = "sea";
  file = "sea.png";
  bytes = 0;
  category = "Places";
  category_slug = "places";
}

abbrev images : List ImageInfo
images = cat_image ∷ sea_image ∷ []

abbrev small : Variant
small = record { name = "small"; width = pos 8; label = "S" }

abbrev full : Variant
full = record { name = "full"; width = pos 0; label = "L" }

abbrev config : String → SiteConfig
config profile = record {
  id = "s";
  name = "S";
  host = "s.example";
  profile = profile;
  variants = small ∷ full ∷ [];
  per_page = pos 1;
  allowed_widths = pos 2 ∷ [];
}

abbrev no_site : Site
no_site = record {
  cfg = config "";
  images = [];
  categories = [];
  assets = [];
  derived = [];
  total_bytes = 0;
  unique_urls = pos 0;
  page_count = pos 0;
}

abbrev loaded : String → Site
loaded profile = elim (load_site tools (config profile) images) [ none ↦ no_site | some s ↦ s ]

abbrev views : Views
views = record {
  execute = λ name d. some name;
  urls_json = λ urls. "[]";
  info_json = λ info. inl "{}";
  manifest_json = λ m. some "{}";
  picks_json = λ p. some "{}";
  atoi = λ s. elim (len s) [ zero ↦ none | suc n ↦ some (pos (suc n)) ];
  widths_text = λ ws. "[]";
  now = "now";
  intn = λ i n. n - 1;
  cache_meter_js = "";
  base_css = "";
}

abbrev node : RequestInfo
node = record { remote_addr = "192.0.2.1:1"; pop_cache_id = ""; origin_id = "o" }

loaded-catalog : load_site tools (config "catalog") images ≡ some (loaded "catalog")
unfolding load_site build_assets load_images load_image add_variants resize_images resize_image
    build_categories pick sort_strings tally tally_one find_entry put insert_sorted
loaded-catalog = refl

loaded-dynamic : load_site tools (config "dynamic") images ≡ some (loaded "dynamic")
unfolding load_site build_assets load_images load_image add_variants resize_images resize_image
    build_categories pick sort_strings tally tally_one find_entry put insert_sorted
loaded-dynamic = refl

loaded-empty : (loaded "dynamic").derived ≡ []
unfolding load_site build_assets load_images load_image add_variants resize_images resize_image
    build_categories pick sort_strings tally tally_one find_entry put insert_sorted site_of
loaded-empty = refl

first_pages-page_count_example : first_pages images (pos 1) 2 ≡ some images
unfolding page_count_of
first_pages-page_count_example = first_pages-page_count images 0 2 (omega arith) refl

-- Two requests for the cat miss before one of them stores it, and a third finds it.
abbrev parts : List Part
parts =
    look "cat.png" (pos 2)
    ∷ look "cat.png" (pos 2)
    ∷ keep "cat.png" (pos 2)
    ∷ look "cat.png" (pos 2)
    ∷ keep "cat.png" (pos 2)
    ∷ []

derived_answers-made_example :
    derived_answers tools (loaded "dynamic") parts
    ≡ made_answers tools (loaded "dynamic").assets parts
derived_answers-made_example =
    derived_answers-made tools decimal-IsDecimal parts (loaded "dynamic") loaded-empty

abbrev requests : List Endpoint
requests = root ∷ page "12" ∷ category "animals" ∷ image "cat.png" "12" ∷ random ∷ []

abbrev pages : Pages ℕ
pages = record {
  parse_error = none;
  execute = λ info. inl "<html>";
  static_file = λ w path. record { status_code = 200; header = w; body = path };
  site_file = λ w path. record { status_code = 200; header = w; body = path };
  redirect = λ path. record { status_code = 308; header = []; body = path };
  rate_text = λ n. "0.00";
}

loaded-routes : has_routes (loaded "dynamic").cfg.profile ≡ true
unfolding load_site build_assets load_images load_image add_variants resize_images resize_image
    build_categories pick sort_strings tally tally_one find_entry put insert_sorted site_of
loaded-routes = refl

starts_dynamic :
    origin_main true (load_site tools (config "dynamic") images) ≡ some (of_site (loaded "dynamic"))
unfolding origin_main
starts_dynamic = rw (loaded-dynamic, loaded-routes, origin_main) refl

-- The redirect of a path that is not clean.
abbrev moved : Object
moved = record { status_code = 301; header = ("Location", "/p/1" ∷ []) ∷ []; body = "" }

abbrev targets : List Target
targets =
    record { front = none; path = "/rps"; found = no_route not_found }
    ∷ record { front = none; path = "/assets/a.css"; found = asset "a.css" }
    ∷ record { front = none; path = "/p/12"; found = endpoint (page "12") }
    ∷ record { front = none; path = "/api/random"; found = endpoint random }
    ∷ record { front = some moved; path = "//p/1"; found = no_route not_found }
    ∷ []

origin_main-Answered_example :
    All Answered
      (serve_requests tools views pages
        (λ n d. n)
        node
        new_middleware
        (of_site (loaded "dynamic"))
        targets).1
    × ((serve_requests tools views pages
          (λ n d. n)
          node
          new_middleware
          (of_site (loaded "dynamic"))
          targets).0.curr
        ≡ 4 % (2 ^ 64))
unfolding passed
origin_main-Answered_example =
    origin_main-Answered tools views pages (λ n d. n) node true (config "dynamic") images
      (of_site (loaded "dynamic")) targets starts_dynamic (omega arith) (λ i n h. omega arith)

catalog_image-IsServed_example :
    All
      (λ variant.
        IsMade variant
        → All (IsServed tools views node (loaded "catalog") variant) (loaded "catalog").images)
      (loaded "catalog").cfg.variants
catalog_image-IsServed_example =
    catalog_image-IsServed tools views node (config "catalog") images (loaded "catalog")
      loaded-catalog

site_after-AllowedOnly_example :
    AllowedOnly tools views node (site_after tools views node (loaded "dynamic") requests)
site_after-AllowedOnly_example =
    site_after-AllowedOnly tools views node (config "dynamic") images (loaded "dynamic") requests
      loaded-dynamic
