-- ===== src/Origin/Resize/Tests.antt =====
-- Two small images that differ outside of their bounds.
use ncdn.Base.{ℕ, ◌+◌, ◌-◌, ◌*◌, ◌/◌, ◌%◌, ◌<◌, ◌≡◌, refl, arith, length, ltb, leb, if◌then◌else◌}
use ncdn.Origin.Resize.{Real, Rgba, Image, resized, new_height}
use ncdn.Origin.Resize.Bounds.{SameInside, resized-inside}

-- Whole numbers in place of float64.
abbrev whole : Real
whole = record {
  F = ℕ;
  ltf = ltb;
  lef = leb;
  of_nat = λ n. n;
  half = 0;
  addf = λ a b. a + b;
  subf = λ a b. a - b;
  mulf = λ a b. a * b;
  divf = λ a b. a / b;
  trunc = λ a. a;
  to_byte = λ a. a % 256;
}

abbrev gray : ℕ → Rgba
gray v = record { r = v; g = v; b = v; a = 0xffff }

abbrev plain : Image
plain = record { dx = 4; dy = 2; at_pixel = λ x y. gray 0x8000 }

abbrev framed : Image
framed = record { dx = 4; dy = 2; at_pixel = λ x y. if ltb x 4 then gray 0x8000 else gray 0 }

plain-framed : SameInside plain framed
plain-framed = (refl, refl, λ x y inside_x inside_y. ground arith)

resized-inside_example :
    (resized whole plain 2 ≡ resized whole framed 2)
    × (length (resized whole plain 2) ≡ new_height whole plain 2 * (4 * 2))
    × (0 < new_height whole plain 2)
resized-inside_example =
    resized-inside whole plain framed 2 (omega arith) (omega arith) plain-framed
