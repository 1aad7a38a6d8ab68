-- ===== src/Gslb/Setup.antt =====
-- gslb/corednsplugin/setup.go: the parser of the plugin's block of a Corefile. The controller of caddy,
-- a cursor over tokens, is a parameter, as are the parsers of addresses and the resolver. The loops of
-- the source run until the cursor ends them; here they have fuel.
pub mod Cursor
pub mod Total
mod Tests
use Prim.Native.String.{String}
use text.Mathlib.Text.{◌==◌ as str_eq}
use ncdn.Base.{
  ℕ, zero, suc, Bool, true, false, Option, none, some, List, [], ◌∷◌, ◌++◌, ◌⊎◌, inl, inr,
  if◌then◌else◌,
}
use ncdn.Netip.{Addr, Prefix, unset}
use ncdn.Types.{PopInfo, RegionInfo}
use ncdn.Gslb.Core.{Config}

-- `caddy.Controller`
pub record Controller : Type 1 where
  pub Cursor : Type 0
  pub next : Cursor → Cursor × Bool
  pub next_arg : Cursor → Cursor × Bool
  pub next_block : Cursor → Cursor × Bool
  pub val : Cursor → String

pub record Parsers : Type 0 where
  pub parse_addr : String → Option Addr
  -- `net.ResolveIPAddr("ip4", …)` and `netip.AddrFromSlice`
  pub resolve : String → Option Addr
  pub parse_prefix : String → Option Prefix
  -- `net.ParseIP`
  pub parse_ip : String → Option Addr

-- How a loop ends: with a value, with an error of the source, or with its fuel.
pub data Result (A : Type 0) : Type 0 where
  done : A → Result A
  failed : String → Result A
  out_of_fuel : Result A

unfoldable pub bind : {A B : Type 0} → Result A → (A → Result B) → Result B
bind (done a) k = k a
bind (failed e) k = failed e
bind out_of_fuel k = out_of_fuel

module _ (c : Controller) where
  open c use {Cursor, next, next_arg, next_block, val}

  -- `if !c.NextArg() { return c.ArgErr() }`, then `c.Val()`.
  unfoldable pub argument : Cursor → Result (Cursor × String)
  argument s = let (s', more) = next_arg s in if more then done (s', val s') else failed "argument"

  -- `!c.NextArg() || c.Val() != "{"`
  unfoldable pub brace : String → Cursor → Result Cursor
  brace what s =
      let (s', more) = next_arg s in
      if more then (if str_eq (val s') "{" then done s' else failed what) else failed what

  -- `for c.NextArg() { … }`, where the body makes a new value of the argument, or fails.
  unfoldable pub each_arg :
      {A : Type 0} → (A → String → Option A) → String → ℕ → Cursor → A → Result (Cursor × A)
  each_arg step what zero s a = out_of_fuel
  each_arg step what (suc fuel) s a = elim (next_arg s).1 [
    | false ↦ done ((next_arg s).0, a)
    | true ↦ elim (step a (val (next_arg s).0)) [
      | none ↦ failed what
      | some a' ↦ each_arg step what fuel (next_arg s).0 a'
    ]
  ]

  -- `LOOP: for c.Next() { switch c.Val() { … case "}": break LOOP } }`, over the cases of the switch.
  unfoldable pub properties :
      {A : Type 0}
      → (String → ℕ → Cursor → A → Result (Cursor × A))
      → ℕ
      → Cursor
      → A
      → Result (Cursor × A)
  unfolding bind
  properties property zero s a = out_of_fuel
  properties property (suc fuel) s a = elim (next s).1 [
    | false ↦ done ((next s).0, a)
    | true ↦
        if str_eq (val (next s).0) "}"
        then done ((next s).0, a)
        else bind (property (val (next s).0) fuel (next s).0 a)
            (λ r. properties property fuel r.0 r.1)
  ]

module _ (c : Controller) (p : Parsers) where
  open c use {Cursor, next, next_arg, next_block, val}

  abbrev pub set_ip4 : (String → Option Addr) → PopInfo → String → Option PopInfo
  set_ip4 parse pop s = elim (parse s) [ none ↦ none | some ip4 ↦ some (record pop { ip4 = ip4 }) ]

  abbrev pub add_prefix : RegionInfo → String → Option RegionInfo
  add_prefix r s = elim (p.parse_prefix s) [
    | none ↦ none
    | some prefix ↦ some (record r { prefixes = r.prefixes ++ prefix ∷ [] })
  ]

  -- The cases of `POP_LOOP`.
  unfoldable pub pop_property : String → ℕ → Cursor → PopInfo → Result (Cursor × PopInfo)
  unfolding argument each_arg bind
  pop_property key fuel s pop =
      if str_eq key "ip4"
      then each_arg c (set_ip4 p.parse_addr) "ip4" fuel s pop
      else if str_eq key "ip4_lookup"
      then each_arg c (set_ip4 p.resolve) "ip4_lookup" fuel s pop
      else if str_eq key "latency_endpoint_url"
      then bind (argument c s) (λ r. done (r.0, record pop { latency_endpoint_url = r.1 }))
      else if str_eq key "ui_popup_css"
      then bind (argument c s) (λ r. done (r.0, record pop { ui_popup_css = r.1 }))
      else failed "unknown pop property"

  -- The cases of `REGION_LOOP`.
  unfoldable pub region_property : String → ℕ → Cursor → RegionInfo → Result (Cursor × RegionInfo)
  unfolding argument each_arg bind
  region_property key fuel s r =
      if str_eq key "prefixes"
      then each_arg c add_prefix "prefix" fuel s r
      else if str_eq key "prefices"
      then each_arg c add_prefix "prefix" fuel s r
      else if str_eq key "prober_url"
      then bind (argument c s) (λ a. done (a.0, record r { prober_url = a.1 }))
      else if str_eq key "ui_popup_css"
      then bind (argument c s) (λ a. done (a.0, record r { ui_popup_css = a.1 }))
      else failed "unknown region property"

  -- `ccfg` and `nsA`.
  pub record Settings : Type 0 where
    pub ccfg : Config
    pub ns_a : Option Addr

  abbrev pub new_pop : String → PopInfo
  new_pop id = record { id = id; ip4 = unset; latency_endpoint_url = ""; ui_popup_css = "" }

  abbrev pub new_region : String → RegionInfo
  new_region id = record { id = id; prefixes = []; prober_url = ""; ui_popup_css = "" }

  abbrev pub add_pop : Settings → PopInfo → Settings
  add_pop t pop = record t { ccfg = record t.ccfg { pops = t.ccfg.pops ++ pop ∷ [] } }

  abbrev pub add_region : Settings → RegionInfo → Settings
  add_region t r = record t { ccfg = record t.ccfg { regions = t.ccfg.regions ++ r ∷ [] } }

  -- The case "pop".
  unfoldable pub pop_block : ℕ → Cursor → Settings → Result (Cursor × Settings)
  unfolding argument brace properties pop_property bind
  pop_block fuel s t = bind (argument c s) (λ id.
      bind (brace c "Expected '{' after pop id" id.0) (λ open_at.
        bind (properties c pop_property fuel open_at (new_pop id.1))
          (λ r. done (r.0, add_pop t r.1))))

  -- The case "region".
  unfoldable pub region_block : ℕ → Cursor → Settings → Result (Cursor × Settings)
  unfolding argument brace properties region_property bind
  region_block fuel s t = bind (argument c s) (λ id.
      bind (brace c "Expected '{' after region id" id.0) (λ open_at.
        bind (properties c region_property fuel open_at (new_region id.1))
          (λ r. done (r.0, add_region t r.1))))

  -- The cases of the outer switch.
  unfoldable pub setting : String → ℕ → Cursor → Settings → Result (Cursor × Settings)
  unfolding argument pop_block region_block bind
  setting key fuel s t =
      if str_eq key "http_server"
      then bind (argument c s)
          (λ a. done (a.0, record t { ccfg = record t.ccfg { http_server = a.1 } }))
      else if str_eq key "prober_secret"
      then bind (argument c s)
          (λ a. done (a.0, record t { ccfg = record t.ccfg { prober_secret = a.1 } }))
      else if str_eq key "pop"
      then pop_block fuel s t
      else if str_eq key "region"
      then region_block fuel s t
      else if str_eq key "ns_a_addr"
      then bind (argument c s) (λ a. elim (p.parse_ip a.1) [
        | none ↦ failed "Failed to parse ns_a_addr"
        | some ip ↦ done (a.0, record t { ns_a = some ip })
      ])
      else failed "unknown property"

  -- `for c.NextBlock() { … }`
  unfoldable pub block : ℕ → Cursor → Settings → Result (Cursor × Settings)
  unfolding setting bind
  block zero s t = out_of_fuel
  block (suc fuel) s t = elim (next_block s).1 [
    | false ↦ done ((next_block s).0, t)
    | true ↦ bind (setting (val (next_block s).0) fuel (next_block s).0 t) (λ r. block fuel r.0 r.1)
  ]

  -- `for c.Next() { … }`
  unfoldable pub blocks : ℕ → Cursor → Settings → Result Settings
  unfolding block bind
  blocks zero s t = out_of_fuel
  blocks (suc fuel) s t = elim (next s).1 [
    | false ↦ done t
    | true ↦ bind (block fuel (next s).0 t) (λ r. blocks fuel r.0 r.1)
  ]

  abbrev pub no_settings : Settings
  no_settings = record {
    ccfg = record { pops = []; regions = []; prober_secret = ""; http_server = "" };
    ns_a = none;
  }

  -- `setup` up to the making of the plugin: the zone, the configuration and the address of the name
  -- server. `origins` is what `OriginsFromArgsOrServerBlock` returns.
  unfoldable pub setup : ℕ → List String → Cursor → Result (String × Config × Addr)
  unfolding blocks bind
  setup fuel [] s = failed "Exactly one server block is required"
  setup fuel (_ ∷ _ ∷ _) s = failed "Exactly one server block is required"
  setup fuel (zone ∷ []) s = bind (blocks fuel s no_settings) (λ t. elim t.ns_a [
    | none ↦ failed "ns_a_addr is required."
    | some ip ↦ done (zone, t.ccfg, ip)
  ])
