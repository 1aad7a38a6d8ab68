-- ===== src/L4lb/Driver/Lookup.antt =====
-- `PopulateLookupTable`: what the XDP program finds in the lookup table afterwards.
use native.Mathlib.Nat.{mod-eq_of_lt}
use Prim.Native.String.{String}
use ncdn.Base.{
  u32, ℕ, zero, suc, ◌+◌, ◌^◌, ◌≤◌, ◌<◌, ◌≡◌, ◌≢◌, refl, sym, ap, ◌∙◌, subst, Bool, true, false,
  Option, none, some, List, [], ◌∷◌, map, arith, ◌==◌, get_or, length, length-map, get_elem?,
}
use ncdn.Base.Int.{ℤ, pos, negsuc}
use ncdn.L4lb.Prime.{IsPrime-65537}
use ncdn.L4lb.Table.{slot_value, count_alive, alive_dests}
use ncdn.L4lb.Table.Count.{count, bit}
use ncdn.L4lb.Table.Balance.{alive, Skips, Fair, Fair-alive, Fair-balanced, build_table-Fair}
use ncdn.L4lb.Driver.{
  Ebpf, Error, L4lb, LbConfig, DestinationEntry, maglev_table_size, put_values, generate_offsets,
  generate_skips, populate_lookup_table,
}
use ncdn.Netip.{Addr}

-- An array map keeps what it is given: a put without an error stores its value, and touches no
-- other key.
pub record IsStore (e : Ebpf) : Type 0 where
  pub put_same : (ms ms' : e.Maps) (k v : ℕ) → e.put ms k v ≡ (ms', none) → e.slot ms' k ≡ some v
  pub put_other :
      (ms ms' : e.Maps) (k j v : ℕ)
      → e.put ms k v ≡ (ms', none)
      → k ≢ j
      → e.slot ms' j ≡ e.slot ms j
  -- The other two maps are maps of their own.
  pub slot_config :
      (ms : e.Maps) (c : LbConfig) (k : ℕ) → e.slot (e.put_config ms c).0 k ≡ e.slot ms k
  pub slot_dests :
      (ms : e.Maps) (keys : List ℕ) (ds : List DestinationEntry) (k : ℕ)
      → e.slot (e.put_dests ms keys ds).0 k ≡ e.slot ms k

-- A dead flag is read for every destination but the balancer; one that is not set makes the count
-- positive.
count_alive-pos : (ds : List Bool) (i : ℕ) → get_or ds i true ≡ false → 0 < count_alive ds
unfolding count_alive
count_alive-pos [] i h = cc
count_alive-pos (true ∷ ds) zero h = cc
count_alive-pos (false ∷ ds) zero h = omega arith
count_alive-pos (true ∷ ds) (suc i) h = count_alive-pos ds i h
count_alive-pos (false ∷ ds) (suc i) h = omega arith

pub alive_dests-pos :
    (dests : ℕ) (dead : List Bool) (a : ℕ) → alive dests dead a ≡ true → 0 < alive_dests dead
unfolding alive_dests
alive_dests-pos dests [] a h = ground arith
alive_dests-pos dests (d ∷ ds) zero h = ground arith
alive_dests-pos dests (d ∷ ds) (suc a) h = count_alive-pos ds a (ground arith)

-- The copy into `[]uint32` keeps an index below its width.
slot_value-at :
    (table : List ℤ) (k v : ℕ)
    → k < length table
    → v < 2 ^ 32
    → get_or table k (negsuc 0) ≡ pos v
    → get_elem? (map slot_value table) k ≡ some v
unfolding slot_value
slot_value-at [] k v lt small h = absurd (omega arith)
slot_value-at (x ∷ xs) zero v lt small h = rw h (ap some (mod-eq_of_lt small))
slot_value-at (x ∷ xs) (suc k) v lt small h = slot_value-at xs k v (omega arith) small h

module _ (e : Ebpf) where
  open e use {Maps, slot}

  -- The slots from `s` on, `n` of them, that name destination `i`.
  pub owned : Maps → ℕ → ℕ → ℕ → ℕ
  owned ms i s zero = 0
  owned ms i s (suc n) = bit (is i (slot ms s)) + owned ms i (s + 1) n
    where
      is : ℕ → Option ℕ → Bool
      is i none = false
      is i (some v) = v == i

  -- What the XDP program relies on: each slot names a destination that is alive, and the slots are
  -- dealt evenly among those.
  pub record Spreads (lb : L4lb e) : Type 0 where
    pub live :
        (k : ℕ)
        → k < maglev_table_size
        → (v : ℕ) × (slot lb.maps k ≡ some v) × (alive (length lb.cfg.dests) lb.dead_dests v ≡ true)
    pub even :
        (i j : ℕ)
        → alive (length lb.cfg.dests) lb.dead_dests i ≡ true
        → alive (length lb.cfg.dests) lb.dead_dests j ≡ true
        → owned lb.maps i 0 maglev_table_size ≤ owned lb.maps j 0 maglev_table_size + 1

  -- Only the lookup table, the destinations and the flags matter.
  owned-same :
      (ms ms' : Maps) (i s n : ℕ)
      → ((k : ℕ) → slot ms' k ≡ slot ms k)
      → owned ms' i s n ≡ owned ms i s n
  unfolding owned
  owned-same ms ms' i s zero h = refl
  owned-same ms ms' i s (suc n) h = rw (h s, owned-same ms ms' i (s + 1) n h) refl

  pub Spreads-same :
      (lb : L4lb e) (ms : Maps)
      → ((k : ℕ) → slot ms k ≡ slot lb.maps k)
      → Spreads lb
      → Spreads (record lb { maps = ms })
  Spreads-same lb ms h s = record {
    live = λ k lt. let (v, at, a) = s.live k lt in (v, h k ∙ at, a);
    even = λ i j hi hj.
        rw
          (
            owned-same lb.maps ms i 0 maglev_table_size h,
            owned-same lb.maps ms j 0 maglev_table_size h,
          )
          (s.even i j hi hj);
  }

module _ (e : Ebpf) (laws : IsStore e) where
  open e use {Maps, put, slot}

  -- A run of puts without an error starts with one.
  put_values-cons :
      (ms ms' : Maps) (i v : ℕ) (vs : List ℕ)
      → i < 2 ^ 32
      → put_values e ms i (v ∷ vs) ≡ (ms', none)
      → (mid : Maps) × (put ms i v ≡ (mid, none)) × (put_values e mid (i + 1) vs ≡ (ms', none))
  unfolding put_values
  put_values-cons ms ms' i v vs lt eq = split (put ms (u32 i) v) refl (mod-eq_of_lt lt)
    where
      split :
          (out : Maps × Option String)
          → put ms (u32 i) v ≡ out
          → u32 i ≡ i
          → (mid : Maps) × (put ms i v ≡ (mid, none)) × (put_values e mid (i + 1) vs ≡ (ms', none))
      split (mid, none) h same = (mid, rw (← same) h, ground arith)
      split (mid, some t) h same = absurd (ground arith)

  -- Writes from `i` on leave the keys below alone, and store the values in order.
  put_values-slots :
      (ms ms' : Maps) (i : ℕ) (vs : List ℕ)
      → put_values e ms i vs ≡ (ms', none)
      → i + length vs ≤ 2 ^ 32
      → ((j : ℕ) → j < i → slot ms' j ≡ slot ms j)
        × ((k : ℕ) → k < length vs → slot ms' (i + k) ≡ get_elem? vs k)
  unfolding put_values
  put_values-slots ms ms' i [] eq le = (
    (λ j lt. ap (λ (t : Maps × Option Error). slot t.0 j) (sym eq)),
    (λ k lt. absurd (omega arith)),
  )
  put_values-slots ms ms' i (v ∷ vs) eq le =
      let (mid, here, later) = put_values-cons ms ms' i v vs (omega arith) eq in
      let (low, high) = put_values-slots mid ms' (i + 1) vs later (omega arith) in
      (
        (λ j lt. low j (omega arith) ∙ laws.put_other ms mid i j v here (omega arith)),
        at mid (low i (omega arith) ∙ laws.put_same ms mid i v here) high,
      )
    where
      at :
          (mid : Maps)
          → slot ms' i ≡ some v
          → ((k : ℕ) → k < length vs → slot ms' (i + 1 + k) ≡ get_elem? vs k)
          → (k : ℕ) → k < length (v ∷ vs)
          → slot ms' (i + k) ≡ get_elem? (v ∷ vs) k
      at mid head tail zero lt = let z : i + 0 ≡ i = omega arith in rw z head
      at mid head tail (suc k) lt =
          let z : i + suc k ≡ i + 1 + k = omega arith in rw z (tail k (omega arith))

  owned_lem :
      (ms : Maps) (i s : ℕ) (xs : List ℤ)
      → ((k : ℕ)
          → k < length xs
          → (v : ℕ) × (get_or xs k (negsuc 0) ≡ pos v) × (slot ms (s + k) ≡ some v))
      → owned e ms i s (length xs) ≡ count i xs
  unfolding owned
  owned_lem ms i s [] h = refl
  owned_lem ms i s (x ∷ xs) h =
      let (v, e, at) = h 0 (omega arith) in
      let z : s + 0 ≡ s = omega arith in
      let here : slot ms s ≡ some v = rw (← z) at in
      let rest = owned_lem ms i (s + 1) xs (λ k lt.
        let (w, e', at') = h (suc k) (omega arith) in
        let z' : s + 1 + k ≡ s + suc k = omega arith in (w, e', rw z' at')) in
      ground (arith, rest, e, here)

  -- A fair table, written without an error.
  spread_table :
      (lb : L4lb e) (ms : Maps) (table : List ℤ)
      → length lb.cfg.dests ≤ 2 ^ 32
      → Fair maglev_table_size (length lb.cfg.dests) lb.dead_dests table
      → put_values e ms 0 (map slot_value table) ≡ (lb.maps, none)
      → Spreads e lb
  spread_table lb ms table le f eq = record { live = live; even = even }
    where
      entry :
          (k : ℕ)
          → k < maglev_table_size
          → (v : ℕ) × (get_or table k (negsuc 0) ≡ pos v)
            × (slot lb.maps k ≡ some v)
            × (alive (length lb.cfg.dests) lb.dead_dests v ≡ true)
      entry k lt =
          let (v, e, a) = Fair-alive f k lt in
          let z : 0 + k ≡ k = omega arith in
          let inside : k < length table = rw f.size lt in
          let stored =
            (put_values-slots ms lb.maps 0 (map slot_value table) eq
                (omega (arith, length-map table slot_value, f.size))).1
              k (rw length-map inside) in
          (v, e, rw z at stored ∙ slot_value-at table k v inside (ground arith) e, a)

      live :
          (k : ℕ)
          → k < maglev_table_size
          → (v : ℕ) × (slot lb.maps k ≡ some v)
            × (alive (length lb.cfg.dests) lb.dead_dests v ≡ true)
      live k lt = let (v, _, h, a) = entry k lt in (v, h, a)

      owns : (i : ℕ) → owned e lb.maps i 0 maglev_table_size ≡ count i table
      owns i =
          subst (λ n. owned e lb.maps i 0 n ≡ count i table) f.size
            (owned_lem lb.maps i 0 table (λ k lt.
              let (v, e, h, _) = entry k (rw (← f.size) lt) in
              let z : 0 + k ≡ k = omega arith in (v, e, rw z h)))

      even :
          (i j : ℕ)
          → alive (length lb.cfg.dests) lb.dead_dests i ≡ true
          → alive (length lb.cfg.dests) lb.dead_dests j ≡ true
          → owned e lb.maps i 0 maglev_table_size ≤ owned e lb.maps j 0 maglev_table_size + 1
      even i j hi hj = omega (arith, owns i, owns j, Fair-balanced f i j hi hj)

-- The skips are between 1 and the size less one, the offsets below the size.
generate_skips-Skips :
    (hash : Addr → ℕ) (ds : List DestinationEntry)
    → Skips maglev_table_size (length ds) (generate_skips hash ds)
unfolding generate_skips
generate_skips-Skips hash [] j lt = absurd (omega arith)
generate_skips-Skips hash (d ∷ ds) zero lt = omega arith
generate_skips-Skips hash (d ∷ ds) (suc j) lt = generate_skips-Skips hash ds j (omega arith)

generate_offsets-lt :
    (hash : Addr → ℕ) (ds : List DestinationEntry) (j : ℕ)
    → j < length ds
    → get_or (generate_offsets hash ds) j 0 < maglev_table_size
unfolding generate_offsets
generate_offsets-lt hash [] j lt = absurd (omega arith)
generate_offsets-lt hash (d ∷ ds) zero lt = omega arith
generate_offsets-lt hash (d ∷ ds) (suc j) lt = generate_offsets-lt hash ds j (omega arith)

length-generate_offsets :
    (hash : Addr → ℕ) (ds : List DestinationEntry) → length (generate_offsets hash ds) ≡ length ds
unfolding generate_offsets
length-generate_offsets hash ds = length-map ds _

-- Over maps that keep what is put, with at most 2^32 destinations, of which one is alive,
-- `PopulateLookupTable` ends, changes neither the configuration nor what is
-- known to be dead, and, if no put fails, leaves a lookup table in which every slot names a
-- destination that is alive, and any two of those have as many slots up to one.
pub populate_lookup_table-Spreads :
    (e : Ebpf)
    → IsStore e
    → (hash : Addr → ℕ) (lb : L4lb e) (a : ℕ) → length lb.cfg.dests ≤ 2 ^ 32
    → alive (length lb.cfg.dests) lb.dead_dests a ≡ true
    → (lb' : L4lb e) × (err : Option Error) × (populate_lookup_table e hash lb ≡ some (lb', err))
      × (lb'.cfg ≡ lb.cfg)
      × (lb'.dead_dests ≡ lb.dead_dests)
      × (err ≡ none → Spreads e lb')
unfolding populate_lookup_table
populate_lookup_table-Spreads e laws hash lb a le live =
    let offsets = generate_offsets hash lb.cfg.dests in
    let skips = generate_skips hash lb.cfg.dests in
    let (out, built, fair) =
      build_table-Fair maglev_table_size (length lb.cfg.dests) lb.dead_dests IsPrime-65537
        (omega arith) skips (generate_skips-Skips hash lb.cfg.dests) a live offsets
        (length-generate_offsets hash lb.cfg.dests) (generate_offsets-lt hash lb.cfg.dests) in
    let written = put_values e lb.maps 0 (map slot_value out.table) in
    let some_alive : (alive_dests lb.dead_dests == 0) ≡ false =
      ground (arith, alive_dests-pos (length lb.cfg.dests) lb.dead_dests a live) in
    (
      record lb { maps = written.0; offsets = out.offsets; skips = skips },
      written.1,
      rw (some_alive, built) refl,
      refl,
      refl,
      λ ok. spread_table e laws _ lb.maps out.table le fair (λ i. (written.0, ok i)),
    )
