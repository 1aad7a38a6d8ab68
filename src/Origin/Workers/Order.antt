-- ===== src/Origin/Workers/Order.antt =====
-- The order of the workers does not matter when no two of them store under the same name.
use Prim.Native.String.{String, len}
use text.Mathlib.TextEquality.{eq_iff}
use mathlib.Core.List.{Permᴰ}
use ncdn.Base.{
  ◌+◌, Bool, true, false, ◌≡◌, ◌≢◌, refl, sym, ap, subst, ◌∙◌, arith, Option, none, some, List, [],
  ◌∷◌, All,
}
use ncdn.Base.Maps.{put, find_entry, find_entry-put}
use ncdn.Origin.Assets.{Tools, asset_key}
use ncdn.Origin.Workers.{Job, Worked, note, keep, work_all}

-- The name under which a worker stores its image.
abbrev pub stores_as : Job → String
stores_as j = asset_key j.variant.name j.info.file

-- No two workers store under the same name.
abbrev pub AllDiffer : List Job → Type 0
AllDiffer [] = Unit {0}
AllDiffer (j ∷ js) = All (λ i. stores_as j ≢ stores_as i) js × AllDiffer js

abbrev pub fails : Option String → Bool
fails none = false
fails (some _) = true

-- The same to whoever looks assets up, but for which worker failed first.
pub record LooksAlike (w w' : Worked) : Type 0 where
  pub same_assets : (k : String) → find_entry k w.assets ≡ find_entry k w'.assets
  pub same_total : w.total_bytes ≡ w'.total_bytes
  pub same_failure : fails w.first_error ≡ fails w'.first_error

LooksAlike-refl : (w : Worked) → LooksAlike w w
LooksAlike-refl w = record { same_assets = λ k. refl; same_total = refl; same_failure = refl }

LooksAlike-trans : (u v w : Worked) → LooksAlike u v → LooksAlike v w → LooksAlike u w
LooksAlike-trans u v w a b = record {
  same_assets = λ k. a.same_assets k ∙ b.same_assets k;
  same_total = a.same_total ∙ b.same_total;
  same_failure = a.same_failure ∙ b.same_failure;
}

pub fails-note : (e : Option String) (file : String) → fails (note e file) ≡ true
unfolding note
fails-note none file = refl
fails-note (some e) file = refl

keep-LooksAlike :
    (w w' : Worked) (j : Job) (o : Option String)
    → LooksAlike w w'
    → LooksAlike (keep w j o) (keep w' j o)
unfolding keep
keep-LooksAlike w w' j none a = record {
  same_assets = a.same_assets;
  same_total = a.same_total;
  same_failure = fails-note w.first_error _ ∙ sym (fails-note w'.first_error _);
}
keep-LooksAlike w w' j (some resized) a = record {
  same_assets = λ k.
      rw
        (
          find_entry-put k (stores_as j) resized w.assets,
          find_entry-put k (stores_as j) resized w'.assets,
          a.same_assets k,
        )
        refl;
  same_total = ap (λ n. n + len resized) a.same_total;
  same_failure = a.same_failure;
}

put_comm :
    (m : List (String × String)) (i j k v w : String)
    → i ≢ j
    → find_entry k (put j w (put i v m)) ≡ find_entry k (put i v (put j w m))
put_comm m i j k v w apart = ground (
  arith,
  find_entry-put k j w (put i v m),
  find_entry-put k i v m,
  find_entry-put k i v (put j w m),
  find_entry-put k j w m,
  eq_iff i k,
  eq_iff j k,
)

keep_comm :
    (w : Worked) (i j : Job) (a b : Option String)
    → stores_as i ≢ stores_as j
    → LooksAlike (keep (keep w i a) j b) (keep (keep w j b) i a)
unfolding keep
keep_comm w i j none none apart = record {
  same_assets = λ k. refl;
  same_total = refl;
  same_failure = fails-note _ _ ∙ sym (fails-note _ _);
}
keep_comm w i j none (some b) apart = LooksAlike-refl _
keep_comm w i j (some a) none apart = LooksAlike-refl _
keep_comm w i j (some a) (some b) apart = record {
  same_assets = λ k. put_comm w.assets (stores_as i) (stores_as j) k a b apart;
  same_total = omega arith;
  same_failure = refl;
}

-- What holds of all of a list holds of all in another order.
All-Permᴰ : (P : Job → Type 0) {is js : List Job} → Permᴰ is js → All P is → All P js
All-Permᴰ P Permᴰ.nil h = h
All-Permᴰ P (Permᴰ.cons e p) (h, hs) = (subst P e h, All-Permᴰ P p hs)
All-Permᴰ P (Permᴰ.swap e f) (h, (k, hs)) = (subst P f k, (subst P e h, hs))
All-Permᴰ P (Permᴰ.trans p q) h = All-Permᴰ P q (All-Permᴰ P p h)

AllDiffer-Permᴰ : {is js : List Job} → Permᴰ is js → AllDiffer is → AllDiffer js
AllDiffer-Permᴰ Permᴰ.nil d = d
AllDiffer-Permᴰ (Permᴰ.cons {l₂ = js} e p) (d, ds) =
    (subst (λ i. All (λ j. stores_as i ≢ stores_as j) js) e (All-Permᴰ _ p d), AllDiffer-Permᴰ p ds)
AllDiffer-Permᴰ (Permᴰ.swap {b = b} {b' = b'} {l = js} e f) ((d, ds), (ks, rest)) =
    subst (λ i. AllDiffer (i ∷ b' ∷ js)) f
      (subst (λ i. AllDiffer (b ∷ i ∷ js)) e (((λ q. d (sym q)), ks), (ds, rest)))
AllDiffer-Permᴰ (Permᴰ.trans p q) d = AllDiffer-Permᴰ q (AllDiffer-Permᴰ p d)

module _ (t : Tools) (originals : List (String × String)) where
  work_all-LooksAlike :
      (js : List Job) (w w' : Worked)
      → LooksAlike w w'
      → LooksAlike (work_all t originals w js) (work_all t originals w' js)
  unfolding work_all
  work_all-LooksAlike [] w w' a = a
  work_all-LooksAlike (j ∷ js) w w' a = work_all-LooksAlike js _ _ (keep-LooksAlike w w' j _ a)

  pub work_all-Permᴰ :
      {is js : List Job} (w : Worked)
      → Permᴰ is js
      → AllDiffer is
      → LooksAlike (work_all t originals w is) (work_all t originals w js)
  unfolding work_all
  work_all-Permᴰ w Permᴰ.nil d = LooksAlike-refl w
  work_all-Permᴰ w (Permᴰ.cons {a = a} {l₁ = is} {l₂ = js} e p) (d, ds) =
      subst (λ x. LooksAlike (work_all t originals w (a ∷ is)) (work_all t originals w (x ∷ js))) e
        (work_all-Permᴰ _ p ds)
  work_all-Permᴰ w (Permᴰ.swap {a = a} {b = b} {b' = b'} {l = js} e f) ((d, ds), rest) =
      let start = work_all t originals w (a ∷ b ∷ js) in
      subst (λ i. LooksAlike start (work_all t originals w (i ∷ b' ∷ js))) f
        (subst (λ i. LooksAlike start (work_all t originals w (b ∷ i ∷ js))) e
          (work_all-LooksAlike js _ _ (keep_comm w a b _ _ d)))
  work_all-Permᴰ w (Permᴰ.trans p q) d =
      LooksAlike-trans _ _ _ (work_all-Permᴰ w p d) (work_all-Permᴰ w q (AllDiffer-Permᴰ p d))
