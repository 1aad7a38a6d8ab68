-- ===== src/Popcache/Config.antt =====
-- The configuration of a cache server: `ParseBackends` of popcache/internal/helper.go after the YAML
-- decoder, the table of origins that the commands of popcache/cmd make of it, and their handlers of
-- /statusz and /latencyz. `netip.ParseAddr`, `strings.ToLower`, `url.Parse` and JSON are parameters.
pub mod Hosts
use Prim.Native.String.{String}
use ncdn.Base.{Option, none, some, List, [], ◌∷◌, ◌⊎◌, inl, inr}
use ncdn.Base.Maps.{put}
use ncdn.Netip.{Addr}
use ncdn.Popcache.Http.{Object, set, http_error}
use ncdn.Popcache.Upstream.{Backend, concat}
use ncdn.Types.{PopStatus}

-- An entry of the file.
pub record Entry : Type 0 where
  pub node_id : String
  pub ip4 : String
  pub hostname : String
  pub port : String

-- The calls of packages: `parse_url` gives the error.
pub record Parsers : Type 0 where
  pub parse_addr : String → Addr ⊎ String
  pub to_lower : String → String
  pub parse_url : String → Option String

module _ (p : Parsers) where
  abbrev pub url_of : Entry → String
  url_of e = concat "http://" (concat e.ip4 (concat ":" e.port))

  -- A round of the loop.
  unfoldable pub parse_backend : Entry → Backend ⊎ String
  parse_backend e = elim (p.parse_addr e.ip4) [
    | inr error ↦ inr error
    | inl ip4 ↦ elim (p.parse_url (url_of e)) [
      | some error ↦ inr error
      | none ↦ inl (record {
        node_id = e.node_id;
        ip4 = ip4;
        hostname = p.to_lower e.hostname;
        port = e.port;
      })
    ]
  ]

  -- `ParseBackends`
  unfoldable pub parse_backends : List Entry → List Backend ⊎ String
  parse_backends [] = inl []
  parse_backends (e ∷ es) = elim (parse_backend e) [
    | inr error ↦ inr error
    | inl b ↦ elim (parse_backends es) [ inr error ↦ inr error | inl bs ↦ inl (b ∷ bs) ]
  ]

-- The loop over the origins, from the table so far.
unfoldable pub add_origins : List (String × Backend) → List Backend → List (String × Backend)
add_origins table [] = table
add_origins table (b ∷ bs) = add_origins (put b.hostname b table) bs

-- `originLookup`
abbrev pub origin_lookup_of : List Backend → List (String × Backend)
origin_lookup_of = add_origins []

-- The handler of /statusz, for the time since the start in seconds, the rate of requests, and JSON.
unfoldable pub statusz : {F : Type 0} → (PopStatus F → Option String) → String → F → F → Object
statusz to_json node_id uptime load =
    elim (to_json (record { id = node_id; uptime = uptime; load = load; error = "" })) [
      | none ↦ http_error [] "Internal Server Error" 500
      | some bs ↦ record {
        status_code = 200;
        header = set [] "Content-Type" "application/json";
        body = bs;
      }
    ]

-- The handler of /latencyz.
abbrev pub latencyz : Object
latencyz = record { status_code = 204; header = []; body = "" }
