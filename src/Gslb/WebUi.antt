-- ===== src/Gslb/WebUi.antt =====
-- The lists of the map in the browser: types/format.go, and /pops.json and /regions.json of
-- gslbcore/httpsrv.go. encoding/json and the printing of addresses are parameters; `none` is the panic
-- of a failed marshalling.
pub mod Join
use Prim.Native.String.{String}
use ncdn.Base.{ℕ, zero, suc, Option, none, some, List, [], ◌∷◌, map}
use ncdn.Netip.{Addr, Prefix}
use ncdn.Types.{PopInfo, RegionInfo}
use ncdn.Prober.{concat}

-- What is marshalled of a PoP, and of a region.
pub record PopUi : Type 0 where
  pub id : String
  pub ip4 : String
  pub ui_popup_css : String

pub record RegionUi : Type 0 where
  pub id : String
  pub prefixes : List String
  pub ui_popup_css : String

pub record Format : Type 0 where
  pub addr_text : Addr → String
  pub prefix_text : Prefix → String
  pub pop_json : PopUi → Option String
  pub region_json : RegionUi → Option String

-- `FormatWebUIJson` of a PoP.
unfoldable pub format_pop : Format → PopInfo → Option String
format_pop f p =
    f.pop_json (record { id = p.id; ip4 = f.addr_text p.ip4; ui_popup_css = p.ui_popup_css })

-- `FormatWebUIJson` of a region.
unfoldable pub format_region : Format → RegionInfo → Option String
format_region f r = f.region_json (record {
  id = r.id;
  prefixes = map (λ p. f.prefix_text p) r.prefixes;
  ui_popup_css = r.ui_popup_css;
})

-- The comma before item `i`.
abbrev pub comma : ℕ → String
comma zero = ""
comma (suc i) = ","

module _ {A : Type 0} (format : A → Option String) where
  -- The loop of both handlers, from item `i` on, with the buffer so far.
  unfoldable pub write_items : String → ℕ → List A → Option String
  write_items buf i [] = some buf
  write_items buf i (x ∷ xs) = elim (format x) [
    | none ↦ none
    | some bs ↦ write_items (concat (concat buf (comma i)) bs) (suc i) xs
  ]

  -- The body of both handlers.
  unfoldable pub write_list : List A → Option String
  write_list xs = elim (write_items "[" 0 xs) [ none ↦ none | some buf ↦ some (concat buf "]") ]

-- The handler of /pops.json
abbrev pub pops_json : Format → List PopInfo → Option String
pops_json f = write_list (format_pop f)

-- The handler of /regions.json
abbrev pub regions_json : Format → List RegionInfo → Option String
regions_json f = write_list (format_region f)
