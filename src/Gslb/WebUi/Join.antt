-- ===== src/Gslb/WebUi/Join.antt =====
-- The text of a list.
use Prim.Native.String.{String}
use text.Mathlib.TextLemmas.{append_assoc, append-nil}
use ncdn.Base.{ℕ, suc, ◌≡◌, sym, ap, ◌∙◌, Option, some, List, [], ◌∷◌}
use ncdn.Prober.{concat}
use ncdn.Gslb.WebUi.{write_items, write_list}

-- Each item after a comma, and the items with commas between them.
abbrev after_commas : List String → String
after_commas [] = ""
after_commas (t ∷ ts) = concat "," (concat t (after_commas ts))

abbrev pub join : List String → String
join [] = ""
join (t ∷ ts) = concat t (after_commas ts)

-- The texts of the items.
pub data Formats {A : Type 0} (format : A → Option String) : List A → List String → Type 0 where
  none_left : Formats format [] []
  one_more :
      {x : A} {xs : List A} {t : String} {ts : List String}
      → format x ≡ some t
      → Formats format xs ts
      → Formats format (x ∷ xs) (t ∷ ts)

module _ {A : Type 0} (format : A → Option String) where
  write_items-later :
      {xs : List A} {ts : List String} (buf : String) (i : ℕ)
      → Formats format xs ts
      → write_items format buf (suc i) xs ≡ some (concat buf (after_commas ts))
  unfolding write_items
  write_items-later buf i none_left = ap some (sym (append-nil buf))
  write_items-later buf i (one_more {t = t} {ts = ts} made rest) =
      rw (made, write_items)
        (write_items-later (concat (concat buf ",") t) (suc i) rest
          ∙ ap some (
              append_assoc (concat buf ",") t (after_commas ts)
              ∙ append_assoc buf "," (concat t (after_commas ts))))

  -- When every item has a text, the list is written as the texts with commas between them, in brackets.
  pub write_list-join :
      (xs : List A) (ts : List String)
      → Formats format xs ts
      → write_list format xs ≡ some (concat (concat "[" (join ts)) "]")
  unfolding write_list write_items
  write_list-join xs ts none_left = ap (λ t. some (concat t "]")) (sym (append-nil "["))
  write_list-join xs ts (one_more {t = t} {ts = us} made rest) =
      let later = write_items-later (concat (concat "[" "") t) 0 rest in
      rw (made, write_list, write_items, later)
        (ap (λ b. some (concat b "]"))
          (append_assoc (concat "[" "") t (after_commas us)
            ∙ ap (λ b. concat b (concat t (after_commas us))) (append-nil "[")))
