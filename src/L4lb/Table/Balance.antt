-- ===== src/L4lb/Table/Balance.antt =====
-- The loops of `PopulateLookupTable` deal the slots in rounds: at every moment each destination that
-- is alive has as many slots as rounds are done, and one more if its turn in this round is over.
use ncdn.Base.{
  ℕ, zero, suc, ◌+◌, ◌-◌, ◌^◌, ◌≤◌, ◌<◌, ◌≡◌, refl, sym, ap, ◌∙◌, subst, Bool, true, false, some,
  List, [], ◌∷◌, arith, ltb, ◌==◌, ◌&&◌, not, if◌then◌else◌, get_or, set, length, length-set,
  length-replicate, inl, inr, get_or-set_self, get_or-set_ne, Bool-cases, ℕ_discrete, dec_lt,
}
use ncdn.Base.Int.{ℤ, pos, negsuc}
use ncdn.L4lb.Prime.{IsPrime}
use ncdn.L4lb.Table.{taken, Fill, Pass, full, more, stuck, place, pass_from, fill, build_table}
use ncdn.L4lb.Table.Count.{
  used, count, used-set, count-set, count-le-used, used-replicate, count-replicate, entry_of_full,
  count-pos,
}
use ncdn.L4lb.Table.Probe.{find_slot_total}

-- Destination `j` takes slots: it is not the balancer, it exists, and it is not dead.
abbrev pub alive : ℕ → List Bool → ℕ → Bool
alive dests dead j = ltb 0 j && ltb j dests && not (get_or dead j true)

-- The slots of `j` after `r` rounds, where destination `i` is next.
abbrev pub dealt : ℕ → List Bool → ℕ → ℕ → ℕ → ℕ
dealt dests dead r i j = if alive dests dead j then (if ltb j i then r + 1 else r) else 0

set_outside : (xs : List ℕ) (i o : ℕ) → ¬ (i < length xs) → set xs i o ≡ xs
set_outside [] i o h = refl
set_outside (x ∷ xs) zero o h = absurd (omega arith)
set_outside (x ∷ xs) (suc i) o h = ap (◌∷◌ x) (set_outside xs i o (omega arith))

set_below : (xs : List ℕ) (i o m j : ℕ) → get_or xs j 0 < m → o < m → get_or (set xs i o) j 0 < m
set_below xs i o m j h ho = elim (ℕ_discrete i j) [
  | yes e ↦ elim (dec_lt i (length xs)) [
    | yes lt ↦ rw (← e, get_or-set_self xs i o 0 lt) ho
    | no ge ↦ rw (set_outside xs i o ge) h
  ]
  | no ne ↦ rw (get_or-set_ne xs i j o 0 ne) h
]

-- Every skip is between 1 and the size less one.
abbrev pub Skips : ℕ → ℕ → List ℕ → Type 0
Skips m dests skips = (j : ℕ) → j < dests → (0 < get_or skips j 0) × (get_or skips j 0 < m)

module _ (m : ℕ) (dests : ℕ) (dead : List Bool) where
  pub record Dealt (r i : ℕ) (st : Fill) : Type 0 where
    pub size : length st.table ≡ m
    pub slots : length st.offsets ≡ dests
    pub in_range : (j : ℕ) → j < dests → get_or st.offsets j 0 < m
    pub counted : used st.table ≡ st.n
    pub shares : (j : ℕ) → count j st.table ≡ dealt dests dead r i j

  -- `place` at a free slot is the turn of `i`.
  place-Dealt :
      (r i : ℕ) (st : Fill) (c o : ℕ)
      → m ≤ 2 ^ 31
      → Dealt r i st
      → st.n < m
      → alive dests dead i ≡ true
      → c < m
      → o < m
      → taken (get_or st.table c (negsuc 0)) ≡ false
      → Dealt r (i + 1) (place m st i c (set st.offsets i o))
        × ((place m st i c (set st.offsets i o)).n ≡ st.n + 1)
  unfolding place
  place-Dealt r i st c o small d lt live hc ho free = (
    record {
      size = length-set st.table c (pos i) ∙ d.size;
      slots = length-set st.offsets i o ∙ d.slots;
      in_range = λ j lt'. set_below st.offsets i o m j (d.in_range j lt') ho;
      counted = omega (arith, used-set st.table c i (rw d.size hc) free, d.counted);
      shares = λ j. ground (arith, count-set st.table c i j (rw d.size hc) free, d.shares j);
    },
    omega arith,
  )

  -- The end of a round is the start of the next.
  next_round : (r : ℕ) (st : Fill) → Dealt r dests st → Dealt (r + 1) 1 st
  next_round r st d = record {
    size = d.size;
    slots = d.slots;
    in_range = d.in_range;
    counted = d.counted;
    shares = λ j. ground (arith, d.shares j);
  }

  -- Passing over a dead destination.
  skip-Dealt : (r i : ℕ) (st : Fill) → get_or dead i true ≡ true → Dealt r i st → Dealt r (i + 1) st
  skip-Dealt r i st gone d = record {
    size = d.size;
    slots = d.slots;
    in_range = d.in_range;
    counted = d.counted;
    shares = λ j. ground (arith, d.shares j);
  }

  -- What a pass leaves: a full table dealt fairly, or one more round and slots left.
  pub data PassEnds (r : ℕ) : Pass → Type 0 where
    ends_full : (st : Fill) (i : ℕ) → Dealt r i st → st.n ≡ m → PassEnds r (full st)
    ends_more : (st : Fill) → Dealt (r + 1) 1 st → st.n < m → PassEnds r (more st)

  pub pass_from_ends :
      IsPrime m
      → m ≤ 2 ^ 31
      → (skips : List ℕ) → Skips m dests skips
      → (r k i : ℕ) (st : Fill) → i + k ≡ dests
      → 0 < i
      → Dealt r i st
      → st.n < m
      → PassEnds r (pass_from m k dead skips i st)
  unfolding pass_from
  pass_from_ends prime small skips sk r zero i st e first d lt =
      let at_end : i ≡ dests = omega arith in
      ends_more st (next_round r st (subst (λ t. Dealt r t st) at_end d)) lt
  pass_from_ends prime small skips sk r (suc k) i st e first d lt =
      elim (Bool-cases (get_or dead i true)) [
        | inl gone ↦
            rw (gone, pass_from)
              (pass_from_ends prime small skips sk r k (i + 1) st (omega arith) (omega arith)
                (skip-Dealt r i st gone d) lt)
        | inr live ↦
            let (c, o, found, hc, ho, free) =
              find_slot_total m (omega arith) prime skips st.table st.offsets i
                (sk i (omega arith)).0 (sk i (omega arith)).1 (omega (arith, d.slots))
                (d.in_range i (omega arith)) d.size (omega (arith, d.counted)) in
            let st' = place m st i c (set st.offsets i o) in
            let (d', n_suc) = place-Dealt r i st c o small d lt (ground arith) hc ho free in
            elim (Bool-cases (st'.n == m)) [
              | inl end ↦ rw (live, found, end, pass_from) (ends_full st' (i + 1) d' (ground arith))
              | inr room ↦
                  rw (live, found, room, pass_from)
                    (pass_from_ends prime small skips sk r k (i + 1) st' (omega arith) (omega arith)
                      d' (ground arith))
            ]
      ]

  -- What is known of a table that the loops return.
  pub record Fair (table : List ℤ) : Type 0 where
    pub size : length table ≡ m
    pub filled : used table ≡ m
    pub round : ℕ
    pub next : ℕ
    pub shares : (j : ℕ) → count j table ≡ dealt dests dead round next j

  -- One destination alive is enough for `m` passes to fill the table.
  pub fill-Fair :
      IsPrime m
      → m ≤ 2 ^ 31
      → (skips : List ℕ) → Skips m dests skips
      → (a : ℕ) → alive dests dead a ≡ true
      → (fuel r : ℕ) (st : Fill) → r + fuel ≡ m
      → Dealt r 1 st
      → st.n < m
      → (out : Fill) × (fill m fuel dests dead skips st ≡ some out) × Fair out.table
  unfolding fill
  fill-Fair prime small skips sk a live zero r st e d lt =
      absurd (omega (arith, d.counted, count-le-used a st.table, used_up))
    where
      used_up : r ≤ count a st.table
      used_up = ground (arith, d.shares a)
  fill-Fair prime small skips sk a live (suc fuel) r st e d lt =
      after (pass_from m (dests - 1) dead skips 1 st) refl
        (pass_from_ends prime small skips sk r (dests - 1) 1 st (ground arith) (omega arith) d lt)
        (λ st' d' lt'. fill-Fair prime small skips sk a live fuel (r + 1) st' (omega arith) d' lt')
    where
      after :
          (p : Pass)
          → pass_from m (dests - 1) dead skips 1 st ≡ p
          → PassEnds r p
          → ((st' : Fill)
              → Dealt (r + 1) 1 st'
              → st'.n < m
              → (out : Fill) × (fill m fuel dests dead skips st' ≡ some out) × Fair out.table)
          → (out : Fill) × (fill m (suc fuel) dests dead skips st ≡ some out) × Fair out.table
      after (full st') eq (ends_full st'' i d' all) rec = (
        st',
        rw (eq, fill),
        record {
          size = d'.size;
          filled = d'.counted ∙ all;
          round = r;
          next = i;
          shares = d'.shares;
        },
      )
      after (more st') eq (ends_more st'' d' lt') rec = rw (eq, fill) (rec st' d' lt')
      after stuck eq ends rec = elim ends [ ]

  -- The loops from the empty table end with a full and fairly dealt one.
  pub build_table-Fair :
      IsPrime m
      → m ≤ 2 ^ 31
      → (skips : List ℕ) → Skips m dests skips
      → (a : ℕ) → alive dests dead a ≡ true
      → (offsets : List ℕ) → length offsets ≡ dests
      → ((j : ℕ) → j < dests → get_or offsets j 0 < m)
      → (out : Fill) × (build_table m dests dead offsets skips ≡ some out) × Fair out.table
  unfolding build_table
  build_table-Fair prime small skips sk a live offsets len below =
      fill-Fair prime small skips sk a live m 0 _ (omega arith)
        (record {
          size = length-replicate m (negsuc 0);
          slots = len;
          in_range = below;
          counted = used-replicate m;
          shares = λ j. ground (arith, count-replicate j m);
        })
        (omega (arith, prime.0))

module _ {m : ℕ} {dests : ℕ} {dead : List Bool} {table : List ℤ} (f : Fair m dests dead table) where
  -- Every slot of a fair table names a destination that is alive.
  pub Fair-alive :
      (k : ℕ) → k < m → (v : ℕ) × (get_or table k (negsuc 0) ≡ pos v) × (alive dests dead v ≡ true)
  Fair-alive k lt =
      let (v, e) = entry_of_full table k (f.filled ∙ sym f.size) (rw f.size lt) in
      let here = count-pos table k v (rw f.size lt) e in (v, e, ground (arith, f.shares v, here))

  -- Two destinations that are alive differ by one slot at most.
  pub Fair-balanced :
      (i j : ℕ)
      → alive dests dead i ≡ true
      → alive dests dead j ≡ true
      → count i table ≤ count j table + 1
  Fair-balanced i j hi hj = ground (arith, f.shares i, f.shares j)
