-- ===== src/L4lb/Driver.antt =====
-- The driver of l4lb/l4lbdrv/drv.go: its state, the lookup table it writes, health checks and the
-- tick of l4lb/cmd/main.go. The maps of the XDP program belong to github.com/cilium/ebpf, and the
-- hash to github.com/dchest/siphash: both are parameters.
pub mod Lookup
pub mod Health
pub mod Tick
pub mod Kept
use Prim.Native.String.{String}
use ncdn.Base.{
  u32, ℕ, zero, suc, ◌+◌, ◌-◌, ◌*◌, ◌/◌, ◌%◌, ◌^◌, ◌<◌, ◌≡◌, ◌≢◌, Bool, true, false, Option, none,
  some, List, [], ◌∷◌, map, ◌++◌, length, replicate, set, ◌⊎◌, inl, inr, get_or, ltb, ◌==◌, ◌&&◌,
  ◌||◌, not, if◌then◌else◌,
}
use ncdn.Base.Int.{ℤ}
use mathlib.Core.Option
use ncdn.Netip.{Addr, is4, is6, as4}
use ncdn.L4lb.Table.{slot_value, alive_dests, build_table}

-- MAGLEV_TABLE_SIZE of bindings_generated.go
abbrev pub maglev_table_size : ℕ
maglev_table_size = 65537

pub record DestinationEntry : Type 0 where
  pub ip_addr : Addr
  pub hardware_addr : List ℕ

pub record LbConfig : Type 0 where
  pub vip_address : ℕ
  pub num_dests : ℕ

pub record Config : Type 0 where
  pub vip : Addr
  pub dests : List DestinationEntry

-- The errors that the driver returns. Those of its libraries are texts.
pub data Error : Type 0 where
  too_few_dests : ℕ → Error
  not_ipv4 : Error
  vip : Error → Error
  maglev_put : ℕ → String → Error
  update_config : String → Error
  update_dests : String → Error
  ebpf : String → Error

-- The maps of the balancer. What each call leaves in them after a failure is left open.
pub record Ebpf : Type 1 where
  pub Maps : Type 0
  -- `MaglevLookupTable.Put(key, value)`
  pub put : Maps → ℕ → ℕ → Maps × Option String
  pub slot : Maps → ℕ → Option ℕ
  -- `ConfigMap.Update(0, …)`
  pub put_config : Maps → LbConfig → Maps × Option String
  -- `DestinationArray.BatchUpdate(keys, dests)`
  pub put_dests : Maps → List ℕ → List DestinationEntry → Maps × Option String

module _ (e : Ebpf) where
  open e use {Maps, put, slot, put_config, put_dests}

  pub record L4lb : Type 0 where
    pub cfg : Config
    pub maps : Maps
    pub dead_dests : List Bool
    pub offsets : List ℕ
    pub skips : List ℕ

  -- `for i, v := range values { MaglevLookupTable.Put(uint32(i), v) }`, stopping at an error.
  pub put_values : Maps → ℕ → List ℕ → Maps × Option Error
  put_values ms i [] = (ms, none)
  put_values ms i (v ∷ vs) =
      let (ms', err) = put ms (u32 i) v in
      let rest = put_values ms' (i + 1) vs in
      elim err [ none ↦ rest | some t ↦ (ms', some (maglev_put i t)) ]

-- `binary.LittleEndian.Uint32`
unfoldable pub little_endian : List ℕ → ℕ
little_endian [] = 0
little_endian (b ∷ bs) = b + 256 * little_endian bs

-- `IPToUint32`; the address is in network order, so its first byte is the lowest.
unfoldable pub ip_to_uint32 : Addr → Option ℕ
ip_to_uint32 ip = if is4 ip then Option.map little_endian (as4 ip) else none

-- `[0, 1, …]`, the keys of `Sync`.
unfoldable pub keys_from : ℕ → List DestinationEntry → List ℕ
keys_from i [] = []
keys_from i (_ ∷ ds) = u32 i ∷ keys_from (i + 1) ds

-- One goroutine of `HealthCheckAll`: the answer of destination `i` to the request.
unfoldable pub check_one : List Bool × List ℕ → ℕ × Bool → List Bool × List ℕ
check_one (dead, changed) (i, ok) =
    if not ok && not (get_or dead i true)
    then (set dead i true, changed ++ i ∷ [])
    else if ok && get_or dead i true
    then (set dead i false, changed ++ i ∷ [])
    else (dead, changed)

-- The goroutines in the order in which they get their answers.
unfoldable pub check_all : List Bool × List ℕ → List (ℕ × Bool) → List Bool × List ℕ
check_all s [] = s
check_all s (a ∷ answers) = check_all (check_one s a) answers

module _ (hash : Addr → ℕ) where
  -- `generateOffsetsAndSkips`; `hash` is siphash.Hash(0xdeadbeef, 0, …) of the printed address.
  pub generate_offsets : List DestinationEntry → List ℕ
  generate_offsets ds = map (λ d. u32 (hash d.ip_addr / 2 ^ 32) % maglev_table_size) ds

  pub generate_skips : List DestinationEntry → List ℕ
  generate_skips ds = map (λ d. u32 (hash d.ip_addr % 2 ^ 32) % (maglev_table_size - 1) + 1) ds

module _ (e : Ebpf) where
  open e use {Maps, put_config, put_dests}

  -- `HealthCheckAll`, over the answers of `HealthCheck` in the order of their arrival.
  pub health_check_all : L4lb e → List (ℕ × Bool) → L4lb e × Bool
  health_check_all lb answers =
      let (dead, changed) = check_all (lb.dead_dests, []) answers in
      (record lb { dead_dests = dead }, ltb 0 (length changed))

  -- `Sync`
  pub sync : L4lb e → L4lb e × Option Error
  sync lb = elim (ip_to_uint32 lb.cfg.vip) [
    | none ↦ (lb, some (vip not_ipv4))
    | some vip4 ↦
        let (ms, err) =
          put_config lb.maps
            (record { vip_address = vip4; num_dests = u32 (length lb.cfg.dests - 1) }) in
        elim err [
          | some t ↦ (record lb { maps = ms }, some (update_config t))
          | none ↦
              let (ms', err') = put_dests ms (keys_from 0 lb.cfg.dests) lb.cfg.dests in
              (record lb { maps = ms' }, Option.map update_dests err')
        ]
  ]

  -- The driver before its first lookup table.
  abbrev pub initial : Config → Maps → L4lb e
  initial cfg ms = record {
    cfg = cfg;
    maps = ms;
    dead_dests = replicate (length cfg.dests) false;
    offsets = [];
    skips = [];
  }

  -- `New` after `PopulateLookupTable`: the errors on the way, or the driver.
  pub finish : Option String → L4lb e × Option Error → L4lb e ⊎ Error
  finish attached (lb, some err) = inr err
  finish (some t) (lb, none) = inr (ebpf t)
  finish none (lb, none) = let (lb', err) = sync lb in elim err [ none ↦ inl lb' | some t ↦ inr t ]

module _ (e : Ebpf) (hash : Addr → ℕ) where
  open e use {Maps}

  -- `PopulateLookupTable`; `none` would be loops that do not end.
  pub populate_lookup_table : L4lb e → Option (L4lb e × Option Error)
  populate_lookup_table lb =
      if alive_dests lb.dead_dests == 0
      then some (lb, none)
      else populate (generate_offsets hash lb.cfg.dests) (generate_skips hash lb.cfg.dests)
    where
      populate : List ℕ → List ℕ → Option (L4lb e × Option Error)
      populate offsets skips =
          Option.map
            (λ st.
              let (ms, err) = put_values e lb.maps 0 (map slot_value st.table) in
              (record lb { maps = ms; offsets = st.offsets; skips = skips }, err))
            (build_table maglev_table_size (length lb.cfg.dests) lb.dead_dests offsets skips)

  -- A tick of l4lb/cmd/main.go.
  pub tick : L4lb e → List (ℕ × Bool) → Option (L4lb e × Option Error)
  tick lb answers =
      let (lb', changed) = health_check_all e lb answers in
      if changed then populate_lookup_table lb' else some (lb', none)

  -- `New`. `bound` is what `PrepSystemForXDP` and `BindBalancer` give, `attached` the error of
  -- finding the interface and attaching to it, if there is one.
  pub new : Config → Maps ⊎ String → Option String → Option (L4lb e ⊎ Error)
  new cfg bound attached =
      if ltb (length cfg.dests) 2
      then some (inr (too_few_dests (length cfg.dests)))
      else elim bound [
        | inr t ↦ some (inr (ebpf t))
        | inl ms ↦ Option.map (finish e attached) (populate_lookup_table (initial e cfg ms))
      ]
