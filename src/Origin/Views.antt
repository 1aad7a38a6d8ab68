-- ===== src/Origin/Views.antt =====
-- What the handlers of an origin show: the records of origin/handlers.go and `requestInfo` of
-- origin/main.go, and the calls of packages that make pages of them.
use Prim.Native.String.{String}
use ncdn.Base.{ℕ, Option, List, ◌⊎◌}
use ncdn.Base.Int.{ℤ}
use ncdn.Popcache.Http.{Header, get}
use ncdn.Origin.Site.{Variant, SiteConfig, ImageInfo, Category}

-- `requestInfo`
pub record RequestInfo : Type 0 where
  pub remote_addr : String
  pub pop_cache_id : String
  pub origin_id : String

-- `dumpRequestInfo`
abbrev pub dump_request_info : String → String → Header → RequestInfo
dump_request_info node_id remote header = record {
  remote_addr = remote;
  pop_cache_id = get header "X-NCDN-PoPCache-NodeId";
  origin_id = node_id;
}

pub record PageStats : Type 0 where
  pub image_count : ℕ
  pub asset_count : ℕ
  pub unique_urls : ℤ
  pub total_bytes : ℕ
  pub page_count : ℤ

pub record PageData : Type 0 where
  pub site : SiteConfig
  pub node : RequestInfo
  pub heading : String
  pub images : List ImageInfo
  pub variants : List Variant
  pub categories : List Category
  pub page : ℤ
  pub page_count : ℤ
  pub active_cat : String
  pub meter_urls : String
  pub stats : PageStats

-- What `/api/manifest` answers with.
pub record Manifest : Type 0 where
  pub site : String
  pub host : String
  pub profile : String
  pub variants : List Variant
  pub page_count : ℤ
  pub unique_urls : ℤ
  pub images : List ImageInfo

-- What `/api/random` answers with.
pub record Picks : Type 0 where
  pub served_at : String
  pub origin_id : String
  pub picks : List ImageInfo

-- The calls of packages: the templates of the site, JSON, `strconv.Atoi`, `%v` of a list of ints, the
-- time of a request and its random numbers, and the embedded files.
pub record Views : Type 0 where
  pub execute : String → PageData → Option String
  pub urls_json : List String → String
  pub info_json : RequestInfo → String ⊎ String
  pub manifest_json : Manifest → Option String
  pub picks_json : Picks → Option String
  pub atoi : String → Option ℤ
  pub widths_text : List ℤ → String
  pub now : String
  pub intn : ℕ → ℕ → ℕ
  pub cache_meter_js : String
  pub base_css : String

-- A pattern of the mux with what the request fills in.
pub data Endpoint : Type 0 where
  healthz : Endpoint
  json : Endpoint
  cache_meter : Endpoint
  base_css : Endpoint
  manifest : Endpoint
  root : Endpoint
  image : String → String → Endpoint
  variant_image : String → String → Endpoint
  page : String → Endpoint
  category : String → Endpoint
  random : Endpoint
  live_now : Endpoint
