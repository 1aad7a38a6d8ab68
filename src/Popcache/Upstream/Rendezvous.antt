-- ===== src/Popcache/Upstream/Rendezvous.antt =====
-- `RendezvousSelect`: the first backend of the greatest weight, and what happens when a backend
-- leaves.
use Prim.Native.String.{String}
use ncdn.Base.{
  ℕ, ◌≤◌, ◌<◌, ◌≡◌, ◌≢◌, refl, sym, ap, ◌∙◌, true, Option, none, some, List, [], ◌∷◌, ◌++◌, ◌⊎◌,
  inl, inr, arith, ltb, Bool-cases, Option-cases,
}
use ncdn.Popcache.Http.{Request}
use ncdn.Popcache.Upstream.{Net, Backend, picked, request_key, weight, heaviest, rendezvous_select}

-- `bs'` is `bs` without one occurrence of `x`.
pub data Leaves (x : Backend) : List Backend → List Backend → Type 0 where
  first : (bs : List Backend) → Leaves x (x ∷ bs) bs
  later : (y : Backend) (bs bs' : List Backend) → Leaves x bs bs' → Leaves x (y ∷ bs) (y ∷ bs')

module _ (net : Net) (key : String) where
  abbrev pub AllBelow : ℕ → List Backend → Type 0
  AllBelow w [] = Unit {0}
  AllBelow w (b ∷ bs) = (weight net key b < w) × AllBelow w bs

  abbrev pub AllAtMost : ℕ → List Backend → Type 0
  AllAtMost w [] = Unit {0}
  AllAtMost w (b ∷ bs) = (weight net key b ≤ w) × AllAtMost w bs

  -- `b` is the first of the greatest weight, which is above `max`.
  pub record IsHeaviest (max : ℕ) (bs : List Backend) (b : Backend) : Type 0 where
    pub before : List Backend
    pub after : List Backend
    pub split : bs ≡ before ++ (b ∷ after)
    pub above : max < weight net key b
    pub lighter : AllBelow (weight net key b) before
    pub no_heavier : AllAtMost (weight net key b) after

  heaviest_none :
      (bs : List Backend) (max : ℕ) (res : Option Backend)
      → AllAtMost max bs
      → heaviest net key max res bs ≡ res
  unfolding heaviest
  heaviest_none [] max res h = refl
  heaviest_none (b ∷ bs) max res h = elim (Bool-cases (ltb max (weight net key b))) [
    | inl more ↦ absurd (ground arith)
    | inr less ↦ rw (less, heaviest) (heaviest_none bs max res h.1)
  ]

  heaviest_intro :
      (before after : List Backend) (b : Backend) (max : ℕ) (res : Option Backend)
      → max < weight net key b
      → AllBelow (weight net key b) before
      → AllAtMost (weight net key b) after
      → heaviest net key max res (before ++ (b ∷ after)) ≡ some b
  unfolding heaviest
  heaviest_intro [] after b max res above lighter heavier =
      let more : ltb max (weight net key b) ≡ true = ground arith in
      rw (more, heaviest) (heaviest_none after (weight net key b) (some b) heavier)
  heaviest_intro (a ∷ before) after b max res above lighter heavier =
      heaviest_intro before after b _ _ (ground arith) lighter.1 heavier

  -- A backend in front of the list does not change which one is the heaviest.
  IsHeaviest-skip :
      {bs : List Backend} {m max : ℕ} {c : Backend} (b : Backend)
      → weight net key b ≤ m
      → max ≤ m
      → IsHeaviest m bs c
      → IsHeaviest max (b ∷ bs) c
  IsHeaviest-skip b below raised h =
      let above = h.above in
      record {
        before = b ∷ h.before;
        after = h.after;
        split = ap (◌∷◌ b) h.split;
        above = omega arith;
        lighter = (omega arith, h.lighter);
        no_heavier = h.no_heavier;
      }

  pub heaviest_cases :
      (bs : List Backend) (max : ℕ) (res : Option Backend)
      → (AllAtMost max bs × (heaviest net key max res bs ≡ res))
        ⊎ ((b : Backend) × IsHeaviest max bs b × (heaviest net key max res bs ≡ some b))
  unfolding heaviest
  heaviest_cases [] max res = inl (tt, refl)
  heaviest_cases (b ∷ bs) max res = elim (Bool-cases (ltb max (weight net key b))) [
    | inl more ↦
        rw (more, heaviest)
          (elim (heaviest_cases bs (weight net key b) (some b)) [
            | inl (low, e) ↦ inr (
              b,
              record {
                before = [];
                after = bs;
                split = refl;
                above = ground arith;
                lighter = tt;
                no_heavier = low;
              },
              e,
            )
            | inr (c, h, e) ↦ inr (c, IsHeaviest-skip b (omega arith) (ground arith) h, e)
          ])
    | inr less ↦
        rw (less, heaviest)
          (elim (heaviest_cases bs max res) [
            | inl (low, e) ↦ inl ((ground arith, low), e)
            | inr (c, h, e) ↦ inr (c, IsHeaviest-skip b (ground arith) (omega arith) h, e)
          ])
  ]

  Leaves-AllAtMost :
      {x : Backend} {bs bs' : List Backend} (w : ℕ)
      → Leaves x bs bs'
      → AllAtMost w bs
      → AllAtMost w bs'
  Leaves-AllAtMost w (first bs) h = h.1
  Leaves-AllAtMost w (later y bs bs' l) h = (h.0, Leaves-AllAtMost w l h.1)

  -- What the loop makes of a list in which only the accumulators differ.
  heaviest-raise :
      (bs : List Backend) (max : ℕ) (res : Option Backend) (x b : Backend)
      → max < weight net key x
      → x ≢ b
      → heaviest net key (weight net key x) (some x) bs ≡ some b
      → heaviest net key max res bs ≡ some b
  heaviest-raise bs max res x b above other e =
      elim (heaviest_cases bs (weight net key x) (some x)) [
        | inl (_, kept) ↦ absurd (other (cc))
        | inr (c, h, found) ↦
            let split = h.split in
            let over = h.above in
            rw split
              (heaviest_intro h.before h.after c max res (omega arith) h.lighter h.no_heavier)
            ∙ sym found
            ∙ e
      ]

  heaviest-Leaves :
      (x b : Backend)
      → x ≢ b
      → {bs bs' : List Backend} (max : ℕ) (res : Option Backend) → Leaves x bs bs'
      → heaviest net key max res bs ≡ some b
      → heaviest net key max res bs' ≡ some b
  unfolding heaviest
  heaviest-Leaves x b other max res (first bs) e = elim (Bool-cases (ltb max (weight net key x))) [
    | inl more ↦ heaviest-raise bs max res x b (ground arith) other (rw (more, heaviest) at e)
    | inr less ↦ rw (less, heaviest) at e
  ]
  heaviest-Leaves x b other max res (later y bs bs' l) e = heaviest-Leaves x b other _ _ l e

picked-heaviest :
    (net : Net) (r : Request) (bs : List Backend) (b : Backend)
    → rendezvous_select net r bs ≡ picked b
    → heaviest net (request_key r) 0 none bs ≡ some b
unfolding rendezvous_select heaviest
picked-heaviest net r [] b e = absurd (cc)
picked-heaviest net r (a ∷ bs) b e =
    elim (Option-cases (heaviest net (request_key r) 0 none (a ∷ bs))) [
      | inl found ↦ absurd (cc (rw (found, rendezvous_select) at e))
      | inr (c, found) ↦ cc (found, rw (found, rendezvous_select) at e)
    ]

heaviest-picked :
    (net : Net) (r : Request) (bs : List Backend) (b : Backend)
    → heaviest net (request_key r) 0 none bs ≡ some b
    → rendezvous_select net r bs ≡ picked b
unfolding rendezvous_select heaviest
heaviest-picked net r [] b e = absurd (cc)
heaviest-picked net r (a ∷ bs) b e = rw (e, rendezvous_select) refl

-- When the selection names a backend, that backend is the first of the greatest hash in the list, and
-- its hash is above 0.
pub rendezvous_select-IsHeaviest :
    (net : Net) (r : Request) (bs : List Backend) (b : Backend)
    → rendezvous_select net r bs ≡ picked b
    → IsHeaviest net (request_key r) 0 bs b
rendezvous_select-IsHeaviest net r bs b e =
    let found = picked-heaviest net r bs b e in
    elim (heaviest_cases net (request_key r) bs 0 none) [
      | inl (_, absent) ↦ absurd (cc)
      | inr (c, h, same) ↦ let found_b : b ≡ c = cc in rw found_b h
    ]

-- A backend that leaves the list, other than the one that the selection names, does not change the
-- selection: only the requests of the backend that left go elsewhere.
pub rendezvous_select-Leaves :
    (net : Net) (r : Request) (bs bs' : List Backend) (x b : Backend)
    → rendezvous_select net r bs ≡ picked b
    → x ≢ b
    → Leaves x bs bs'
    → rendezvous_select net r bs' ≡ picked b
rendezvous_select-Leaves net r bs bs' x b e other l =
    heaviest-picked net r bs' b
      (heaviest-Leaves net (request_key r) x b other 0 none l (picked-heaviest net r bs b e))
