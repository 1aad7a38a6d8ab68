-- ===== src/Origin/Assets/Derived.antt =====
-- The cache of resized images: the requests of a site that share it, one after another.
use Prim.Native.Char.{code}
use Prim.Native.String.{String}
use text.Mathlib.Text.{◌==◌ as str_eq}
use text.Mathlib.TextEquality.{eq_iff}
use text.Mathlib.TextLemmas.{head-eq_of_cons-eq, tail-eq_of_cons-eq, cons-append, nil-append}
use ncdn.Base.{
  ◌≡◌, ◌≢◌, refl, sym, ap, ◌∙◌, some-injective, Bool-cases, Option, some, Option-cases, List, [],
  ◌∷◌, inl, inr,
}
use ncdn.Base.Int.{ℤ}
use ncdn.Base.Maps.{put, find_entry, find_entry-put}
use ncdn.Origin.Site.{concat, Site}
use ncdn.Origin.Assets.{Tools, make_derived, derived_key, derived_look, derived_keep}

abbrev pub NoSlash : String → Type 0
NoSlash String.[] = Unit {0}
NoSlash (String.◌∷◌ c s) = (code c ≢ b'/') × NoSlash s

-- `%d`: no slash, and one number for one text.
pub record IsDecimal (decimal : ℤ → String) : Type 0 where
  pub no_slash : (n : ℤ) → NoSlash (decimal n)
  pub injective : (m n : ℤ) → decimal m ≡ decimal n → m ≡ n

slash_head : (x : String) → concat "/" x ≡ String.◌∷◌ "/" x
slash_head x = cons-append "/" "" x ∙ ap (String.◌∷◌ "/") (nil-append x)

slash-split :
    (a b x y : String)
    → NoSlash a
    → NoSlash b
    → concat a (concat "/" x) ≡ concat b (concat "/" y)
    → (a ≡ b) × (x ≡ y)
slash-split String.[] String.[] x y ha hb e =
    (refl, tail-eq_of_cons-eq (rw (nil-append, nil-append, slash_head, slash_head) at e))
slash-split String.[] (String.◌∷◌ c b) x y ha hb e = absurd (
    hb.0 (
      sym (
        ap code
          (head-eq_of_cons-eq (rw (nil-append, slash_head, cons-append c b (concat "/" y)) at e)))))
slash-split (String.◌∷◌ c a) String.[] x y ha hb e = absurd (
    ha.0 (
      ap code (
        head-eq_of_cons-eq
          (rw (cons-append c a (concat "/" x), nil-append, slash_head x, slash_head y) at e))))
slash-split (String.◌∷◌ c a) (String.◌∷◌ d b) x y ha hb e =
    let e' = rw (cons-append c a (concat "/" x), cons-append d b (concat "/" y)) at e in
    let (same, rest) = slash-split a b x y ha.1 hb.1 (tail-eq_of_cons-eq e') in
    (cc (head-eq_of_cons-eq e', same), rest)

-- A part of a request for a file in a width: its look-up, which settles its answer, or what it stores
-- after one that missed. The parts of requests come in any order.
pub data Part : Type 0 where
  look : String → ℤ → Part
  keep : String → ℤ → Part

module _ (t : Tools) where
  -- The answers of the requests whose look-ups are in a sequence of parts.
  unfoldable pub derived_answers : Site → List Part → List (Option String)
  derived_answers s [] = []
  derived_answers s (look file width ∷ parts) =
      derived_look t s file width ∷ derived_answers s parts
  derived_answers s (keep file width ∷ parts) = derived_answers (derived_keep t s file width) parts

  -- The answers that need no cache.
  unfoldable pub made_answers : List (String × String) → List Part → List (Option String)
  made_answers assets [] = []
  made_answers assets (look file width ∷ parts) =
      make_derived t assets file width ∷ made_answers assets parts
  made_answers assets (keep file width ∷ parts) = made_answers assets parts

-- What is stored is what would be made.
abbrev Fresh : Tools → Site → Type 0
Fresh t s =
    (file : String) (width : ℤ) (b : String)
    → find_entry (derived_key t width file) s.derived ≡ some b
    → make_derived t s.assets file width ≡ some b

module _ (t : Tools) (d : IsDecimal t.decimal) where
  Fresh-put :
      (s : Site) (file : String) (width : ℤ) (b : String)
      → Fresh t s
      → make_derived t s.assets file width ≡ some b
      → Fresh t (record s { derived = put (derived_key t width file) b s.derived })
  Fresh-put s file width b h made file' width' b' found =
      let looked =
        sym (find_entry-put (derived_key t width' file') (derived_key t width file) b s.derived)
        ∙ found in
      elim (Bool-cases (str_eq (derived_key t width file) (derived_key t width' file'))) [
        | inl same ↦
            let (digits, name) =
              slash-split (t.decimal width) (t.decimal width') file file' (d.no_slash width)
                (d.no_slash width')
                ((eq_iff (derived_key t width file) (derived_key t width' file')).0 same) in
            let stored = some-injective (rw (same) at looked) in
            let moved : make_derived t s.assets file' width' ≡ make_derived t s.assets file width =
              sym (cc (name, d.injective width width' digits)) in
            moved ∙ made ∙ ap some stored
        | inr other ↦ h file' width' b' (rw (other) at looked)
      ]

  derived_keep-Fresh :
      (s : Site) (file : String) (width : ℤ)
      → Fresh t s
      → Fresh t (derived_keep t s file width) × ((derived_keep t s file width).assets ≡ s.assets)
  unfolding derived_keep
  derived_keep-Fresh s file width h = elim (Option-cases (make_derived t s.assets file width)) [
    | inl bad ↦ rw (bad, derived_keep) (h, refl)
    | inr (b, made) ↦ rw (made, derived_keep) (Fresh-put s file width b h made, refl)
  ]

  derived_look-Fresh :
      (s : Site) (file : String) (width : ℤ)
      → Fresh t s
      → derived_look t s file width ≡ make_derived t s.assets file width
  unfolding derived_look
  derived_look-Fresh s file width h =
      elim (Option-cases (find_entry (derived_key t width file) s.derived)) [
        | inl missing ↦ rw (missing, derived_look) refl
        | inr (b, found) ↦ rw (found, derived_look) (sym (h file width b found))
      ]

  derived_answers-Fresh :
      (parts : List Part) (s : Site)
      → Fresh t s
      → derived_answers t s parts ≡ made_answers t s.assets parts
  unfolding derived_answers made_answers
  derived_answers-Fresh [] s h = refl
  derived_answers-Fresh (look file width ∷ parts) s h =
      cc (derived_look-Fresh s file width h, derived_answers-Fresh parts s h)
  derived_answers-Fresh (keep file width ∷ parts) s h =
      let (fresh, same) = derived_keep-Fresh s file width h in
      derived_answers-Fresh parts (derived_keep t s file width) fresh
      ∙ ap (λ assets. made_answers t assets parts) same

  -- When numbers print without a slash and apart, and the cache of resized images is empty, then
  -- whatever requests come, and however what they store comes between the look-ups of others, each is
  -- answered with the original resized to its width, and with an error exactly when there is no
  -- original or it cannot be resized.
  pub derived_answers-made :
      (parts : List Part) (s : Site)
      → s.derived ≡ []
      → derived_answers t s parts ≡ made_answers t s.assets parts
  unfolding find_entry
  derived_answers-made parts s empty =
      derived_answers-Fresh parts s
        (λ file width b found. absurd (cc (rw (empty, find_entry) at found)))
