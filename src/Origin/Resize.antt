-- ===== src/Origin/Resize.antt =====
-- origin/resize.go: `resizePNG` between the decoder and the encoder of image/png, which are parameters
-- as float64 is. The pixels of the new image are a list of bytes, four for each.
pub mod Bounds
mod Tests
use Prim.Native.String.{String}
use ncdn.Base.{
  ℕ, zero, suc, ◌+◌, ◌-◌, ◌*◌, ◌/◌, Bool, true, false, Option, none, some, List, [], ◌∷◌, ◌++◌, ltb,
  leb, if◌then◌else◌,
}

-- float64 as far as the code uses it: `trunc` is the conversion to an int of a number that is not
-- negative, and `to_byte` that to a uint8.
pub record Real : Type 1 where
  pub F : Type 0
  pub ltf : F → F → Bool
  pub lef : F → F → Bool
  pub of_nat : ℕ → F
  pub half : F
  pub addf : F → F → F
  pub subf : F → F → F
  pub mulf : F → F → F
  pub divf : F → F → F
  pub trunc : F → ℕ
  pub to_byte : F → ℕ

-- What `At(x, y).RGBA()` gives.
pub record Rgba : Type 0 where
  pub r : ℕ
  pub g : ℕ
  pub b : ℕ
  pub a : ℕ

-- A decoded image, from the corner of its bounds.
pub record Image : Type 0 where
  pub dx : ℕ
  pub dy : ℕ
  pub at_pixel : ℕ → ℕ → Rgba

-- `clamp`
abbrev pub clamp : ℕ → ℕ → ℕ
clamp v max = if leb max v then max - 1 else v

module _ (fl : Real) where
  open fl use {F, ltf, lef, of_nat, half, addf, subf, mulf, divf, trunc, to_byte}

  -- `split`, where `i >= max-1` is `i + 1 >= max`.
  unfoldable pub split : F → ℕ → ℕ × F
  split v max =
      if ltf v (of_nat 0)
      then (0, of_nat 0)
      else if leb max (suc (trunc v))
      then (max - 1, of_nat 0)
      else (trunc v, subf v (of_nat (trunc v)))

  -- `bilinear`
  abbrev pub bilinear : ℕ → ℕ → ℕ → ℕ → F → F → F
  bilinear v00 v10 v01 v11 fx fy =
      let top = addf (mulf (of_nat v00) (subf (of_nat 1) fx)) (mulf (of_nat v10) fx) in
      let bottom = addf (mulf (of_nat v01) (subf (of_nat 1) fx)) (mulf (of_nat v11) fx) in
      addf (mulf top (subf (of_nat 1) fy)) (mulf bottom fy)

  -- `unpremultiply`
  abbrev pub unpremultiply : F → F → ℕ
  unpremultiply v a =
      if lef a (of_nat 0)
      then 0
      else (let c = mulf (divf v a) (of_nat 255) in
          to_byte (addf (if ltf (of_nat 255) c then of_nat 255 else c) half))

  -- `sx` and `sy`: `(float64(x)+0.5)*ratio - 0.5`
  abbrev pub position : ℕ → F → F
  position x ratio = subf (mulf (addf (of_nat x) half) ratio) half

  -- The two rows or columns that are mixed, and the share of the second.
  abbrev pub between : ℕ → F → ℕ → ℕ × ℕ × F
  between x ratio max =
      let cut = split (position x ratio) max in (cut.0, clamp (suc cut.0) max, cut.1)

  -- The four bytes of a pixel.
  unfoldable pub pixel : Image → ℕ × ℕ × F → ℕ × ℕ × F → List ℕ
  pixel img (x0, x1, fx) (y0, y1, fy) =
      let c00 = img.at_pixel x0 y0 in
      let c10 = img.at_pixel x1 y0 in
      let c01 = img.at_pixel x0 y1 in
      let c11 = img.at_pixel x1 y1 in
      let pa = bilinear c00.a c10.a c01.a c11.a fx fy in
      unpremultiply (bilinear c00.r c10.r c01.r c11.r fx fy) pa
      ∷ unpremultiply (bilinear c00.g c10.g c01.g c11.g fx fy) pa
      ∷ unpremultiply (bilinear c00.b c10.b c01.b c11.b fx fy) pa
      ∷ to_byte (divf pa (of_nat 257))
      ∷ []

  -- The loop over the columns, from `x` on for `n` of them.
  unfoldable pub row : Image → F → ℕ × ℕ × F → ℕ → ℕ → List ℕ
  row img x_ratio ys x zero = []
  row img x_ratio ys x (suc n) =
      pixel img (between x x_ratio img.dx) ys ++ row img x_ratio ys (suc x) n

  -- The loop over the rows.
  unfoldable pub rows : Image → F → F → ℕ → ℕ → ℕ → List ℕ
  rows img x_ratio y_ratio w y zero = []
  rows img x_ratio y_ratio w y (suc n) =
      row img x_ratio (between y y_ratio img.dy) 0 w ++ rows img x_ratio y_ratio w (suc y) n

  -- `h`
  abbrev pub new_height : Image → ℕ → ℕ
  new_height img w = let h = img.dy * w / img.dx in if ltb h 1 then 1 else h

  -- `dst.Pix` at the end, for an image that is wider than `w`.
  unfoldable pub resized : Image → ℕ → List ℕ
  resized img w =
      let h = new_height img w in
      rows img (divf (of_nat img.dx) (of_nat w)) (divf (of_nat img.dy) (of_nat h)) w 0 h

-- `png.Decode` and the encoder, on bytes as texts.
pub record Png : Type 0 where
  pub decode : String → Option Image
  pub encode : ℕ → ℕ → List ℕ → Option String

-- `resizePNG` for a width that is not negative.
unfoldable pub resize_png : Real → Png → String → ℕ → Option String
resize_png fl png src w = elim (png.decode src) [
  | none ↦ none
  | some img ↦
      if leb img.dx w then some src else png.encode w (new_height fl img w) (resized fl img w)
]
