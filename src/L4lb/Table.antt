-- ===== src/L4lb/Table.antt =====
-- The lookup table of `PopulateLookupTable` in l4lb/l4lbdrv/drv.go, over the size of the table (the
-- driver takes MAGLEV_TABLE_SIZE). A destination is an index into `cfg.Dests`; 0 is the balancer.
-- The slices `offsets`, `skips` and `deadDests` are as long as `cfg.Dests` and are read at indices
-- below that length, so the default of `get_or` is never taken.
pub mod Count
pub mod Probe
pub mod Balance
use ncdn.Base.{
  u32, ℕ, zero, suc, ◌+◌, ◌-◌, ◌%◌, ◌^◌, Bool, true, false, Option, none, some, List, [], ◌∷◌, leb,
  ◌==◌, if◌then◌else◌, get_or, set, replicate,
}
use ncdn.Base.Int.{ℤ, pos, negsuc}

-- `table[c] >= 0`
abbrev pub taken : ℤ → Bool
taken (pos _) = true
taken (negsuc _) = false

-- `uint32(table[i])`, with the wrap of a negative number.
unfoldable pub slot_value : ℤ → ℕ
slot_value (pos v) = u32 v
slot_value (negsuc v) = 2 ^ 32 - 1 - u32 v

-- Counts of `PopulateLookupTable`: the destinations after the first that are not dead.
unfoldable pub count_alive : List Bool → ℕ
count_alive [] = 0
count_alive (true ∷ ds) = count_alive ds
count_alive (false ∷ ds) = count_alive ds + 1

unfoldable pub alive_dests : List Bool → ℕ
unfolding count_alive
alive_dests [] = 0
alive_dests (_ ∷ ds) = count_alive ds

-- What the loops change: the table, the offsets and the counter `n`.
pub record Fill : Type 0 where
  pub table : List ℤ
  pub offsets : List ℕ
  pub n : ℕ

-- How a pass over the destinations ends: with the table full, with slots left, or in a probe that
-- has used up its bound without a free slot.
pub data Pass : Type 0 where
  full : Fill → Pass
  more : Fill → Pass
  stuck : Pass

module _ (m : ℕ) where
  -- `nextOffset`: the offset, and the offsets with that of `i` advanced by its skip.
  unfoldable pub next_offset : List ℕ → List ℕ → ℕ → ℕ × List ℕ
  next_offset skips offsets i =
      let res = get_or offsets i 0 in
      let sum = u32 (res + get_or skips i 0) in
      (res, set offsets i (if leb m sum then sum - m else sum))

  -- `c := lb.nextOffset(i); for table[c] >= 0 { c = lb.nextOffset(i) }`, at most `fuel` probes.
  unfoldable pub find_slot : ℕ → List ℕ → List ℤ → List ℕ → ℕ → Option (ℕ × List ℕ)
  find_slot zero skips table offsets i = none
  find_slot (suc fuel) skips table offsets i =
      let (c, offsets') = next_offset skips offsets i in
      let rest = find_slot fuel skips table offsets' i in
      if taken (get_or table c (negsuc 0)) then rest else some (c, offsets')

  -- `table[c] = i; n++`
  unfoldable pub place : Fill → ℕ → ℕ → List ℕ → Fill
  place st i c offsets = record {
    table = set st.table c (pos i);
    offsets = offsets;
    n = u32 (st.n + 1);
  }

  -- The inner `for` over the destinations: `k` of them are left, from `i` on.
  unfoldable pub pass_from : ℕ → List Bool → List ℕ → ℕ → Fill → Pass
  pass_from zero dead skips i st = more st
  pass_from (suc k) dead skips i st = elim (get_or dead i true) [
    | true ↦ pass_from k dead skips (i + 1) st
    | false ↦ elim (find_slot m skips st.table st.offsets i) [
      | none ↦ stuck
      | some (c, offsets) ↦
          let st' = place st i c offsets in
          elim (st'.n == m) [ true ↦ full st' | false ↦ pass_from k dead skips (i + 1) st' ]
    ]
  ]

  -- The outer `for`, over `dests = len(lb.cfg.Dests)`, at most `fuel` passes.
  unfoldable pub fill : ℕ → ℕ → List Bool → List ℕ → Fill → Option Fill
  fill zero dests dead skips st = none
  fill (suc fuel) dests dead skips st = elim (pass_from (dests - 1) dead skips 1 st) [
    | full st' ↦ some st'
    | more st' ↦ fill fuel dests dead skips st'
    | stuck ↦ none
  ]

  -- The loops from the empty table, with a bound of `m` passes and `m` probes in a search.
  unfoldable pub build_table : ℕ → List Bool → List ℕ → List ℕ → Option Fill
  unfolding fill pass_from place find_slot next_offset
  build_table dests dead offsets skips =
      fill m dests dead skips (record { table = replicate m (negsuc 0); offsets = offsets; n = 0 })
