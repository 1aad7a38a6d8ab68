-- ===== src/Origin/Resize/Bounds.antt =====
-- Where the samples of a resized image are taken, and how many bytes there are.
use ncdn.Base.{
  ℕ, zero, suc, ◌+◌, ◌*◌, ◌/◌, ◌<◌, ◌≡◌, refl, ap, ap₂, ◌∙◌, arith, Bool-cases, ◌++◌, length,
  length-append, leb, ltb, if◌then◌else◌, inl, inr,
}
use ncdn.Origin.Resize.{
  Real, Image, clamp, split, position, between, pixel, row, rows, new_height, resized,
}

-- Two images that have the same size and the same pixels inside their bounds.
abbrev pub SameInside : Image → Image → Type 0
SameInside p q =
    (p.dx ≡ q.dx)
    × (p.dy ≡ q.dy)
    × ((x y : ℕ) → x < p.dx → y < p.dy → p.at_pixel x y ≡ q.at_pixel x y)

-- `new_height` by the two sizes.
abbrev height : ℕ → ℕ → ℕ → ℕ
height dx dy w = let h = dy * w / dx in if ltb h 1 then 1 else h

module _ (fl : Real) where
  split-bound : (v : fl.F) (max : ℕ) → 0 < max → (split fl v max).0 < max
  unfolding split
  split-bound v max some_pixel = elim (Bool-cases (fl.ltf v (fl.of_nat 0))) [
    | inl negative ↦ rw (negative, split) some_pixel
    | inr other ↦ elim (Bool-cases (leb max (suc (fl.trunc v)))) [
      | inl last ↦ rw (other, last, split) (omega arith)
      | inr inside ↦ rw (other, inside, split) (ground arith)
    ]
  ]

  clamp-bound : (v max : ℕ) → 0 < max → clamp v max < max
  clamp-bound v max some_pixel = ground arith

  length-pixel : (img : Image) (xs ys : ℕ × ℕ × fl.F) → length (pixel fl img xs ys) ≡ 4
  unfolding pixel
  length-pixel img xs ys = refl

  length-row :
      (img : Image) (x_ratio : fl.F) (ys : ℕ × ℕ × fl.F) (x n : ℕ)
      → length (row fl img x_ratio ys x n) ≡ 4 * n
  unfolding row
  length-row img x_ratio ys x zero = refl
  length-row img x_ratio ys x (suc n) =
      let here = length-pixel img (between fl x x_ratio img.dx) ys in
      let there = length-row img x_ratio ys (suc x) n in
      let sum =
        length-append (pixel fl img (between fl x x_ratio img.dx) ys)
          (row fl img x_ratio ys (suc x) n) in
      omega arith

  length-rows :
      (img : Image) (x_ratio y_ratio : fl.F) (w y n : ℕ)
      → length (rows fl img x_ratio y_ratio w y n) ≡ n * (4 * w)
  unfolding rows
  length-rows img x_ratio y_ratio w y zero = omega arith
  length-rows img x_ratio y_ratio w y (suc n) =
      let here = length-row img x_ratio (between fl y y_ratio img.dy) 0 w in
      let there = length-rows img x_ratio y_ratio w (suc y) n in
      let sum =
        length-append (row fl img x_ratio (between fl y y_ratio img.dy) 0 w)
          (rows fl img x_ratio y_ratio w (suc y) n) in
      sum ∙ ap₂ (λ a b. a + b) here there ∙ omega arith

  -- A pair of rows or columns inside.
  abbrev Inside : ℕ × ℕ × fl.F → ℕ → Type 0
  Inside cut max = (cut.0 < max) × (cut.1 < max)

  between-Inside : (x : ℕ) (ratio : fl.F) (max : ℕ) → 0 < max → Inside (between fl x ratio max) max
  between-Inside x ratio max some_pixel =
      let cut = split fl (position fl x ratio) max in
      (split-bound (position fl x ratio) max some_pixel, clamp-bound (suc cut.0) max some_pixel)

  pixel-same :
      (p q : Image) (xs ys : ℕ × ℕ × fl.F)
      → SameInside p q
      → Inside xs p.dx
      → Inside ys p.dy
      → pixel fl p xs ys ≡ pixel fl q xs ys
  unfolding pixel
  pixel-same p q (x0, x1, fx) (y0, y1, fy) (_, _, same) (l0, l1) (m0, m1) =
      cc (same x0 y0 l0 m0, same x1 y0 l1 m0, same x0 y1 l0 m1, same x1 y1 l1 m1)

  row-same :
      (p q : Image) (x_ratio : fl.F) (ys : ℕ × ℕ × fl.F) (x n : ℕ)
      → 0 < p.dx
      → SameInside p q
      → Inside ys p.dy
      → row fl p x_ratio ys x n ≡ row fl q x_ratio ys x n
  unfolding row
  row-same p q x_ratio ys x zero wide same h = refl
  row-same p q x_ratio ys x (suc n) wide same h =
      ap₂ (λ a b. a ++ b)
        (pixel-same p q (between fl x x_ratio p.dx) ys same (between-Inside x x_ratio p.dx wide) h
          ∙ ap (λ m. pixel fl q (between fl x x_ratio m) ys) same.0)
        (row-same p q x_ratio ys (suc x) n wide same h)

  rows-same :
      (p q : Image) (x_ratio y_ratio : fl.F) (w y n : ℕ)
      → 0 < p.dx
      → 0 < p.dy
      → SameInside p q
      → rows fl p x_ratio y_ratio w y n ≡ rows fl q x_ratio y_ratio w y n
  unfolding rows
  rows-same p q x_ratio y_ratio w y zero wide high same = refl
  rows-same p q x_ratio y_ratio w y (suc n) wide high same =
      ap₂ (λ a b. a ++ b)
        (row-same p q x_ratio (between fl y y_ratio p.dy) 0 w wide same
            (between-Inside y y_ratio p.dy high)
          ∙ ap (λ m. row fl q x_ratio (between fl y y_ratio m) 0 w) same.1)
        (rows-same p q x_ratio y_ratio w (suc y) n wide high same)

  -- Of an image with a pixel, whatever its numbers round to, the resized one has four bytes for each
  -- pixel of at least one row, and no pixel outside of the bounds is read: an image that is the same
  -- inside them gives the same bytes.
  pub resized-inside :
      (p q : Image) (w : ℕ)
      → 0 < p.dx
      → 0 < p.dy
      → SameInside p q
      → (resized fl p w ≡ resized fl q w)
        × (length (resized fl p w) ≡ new_height fl p w * (4 * w))
        × (0 < new_height fl p w)
  unfolding resized
  resized-inside p q w wide high same = (
    rows-same p q (fl.divf (fl.of_nat p.dx) (fl.of_nat w))
          (fl.divf (fl.of_nat p.dy) (fl.of_nat (new_height fl p w))) w 0 (new_height fl p w) wide
          high same
        ∙ ap₂
            (λ dx dy.
              let h = height dx dy w in
              rows fl q (fl.divf (fl.of_nat dx) (fl.of_nat w))
                (fl.divf (fl.of_nat dy) (fl.of_nat h)) w 0 h)
            same.0 same.1,
    length-rows p (fl.divf (fl.of_nat p.dx) (fl.of_nat w))
        (fl.divf (fl.of_nat p.dy) (fl.of_nat (new_height fl p w))) w 0 (new_height fl p w),
    ground arith,
  )
