-- ===== src/Client/Screen/PatternBounds.antt =====
-- cmd/agent/capture.go: the test pattern is drawn inside its buffer.
use rmm.Base.{
  ℕ, zero, suc, ◌+◌, ◌-◌, ◌*◌, ◌/◌, ◌<◌, ◌≤◌, ltb, ◌==◌, if◌then◌else◌, ◌≡◌, refl, ap, Option, none,
  some, IsByte, arith, if_rule,
}
use rmm.Client.Screen.Pattern.{
  Pix, Rgba, set_pixel, for_range, gradient, grid_columns, grid_rows, dot_pixel, dot, new_rgba,
  test_pattern, white, dot_color, is_drawn,
}

-- A buffer of so many bytes.
pub record IsImage (size : ℕ) (pix : Pix) : Type 0 where
  pub size_lem : pix.size ≡ size
  pub bytes : (i : ℕ) → IsByte (pix.at i)

-- The outcome is no panic, and an image.
abbrev pub Draws : ℕ → Option Pix → Type 0
Draws size none = ⊥
Draws size (some pix) = IsImage size pix

pub record IsColor (c : Rgba) : Type 0 where
  pub red : IsByte c.red
  pub green : IsByte c.green
  pub blue : IsByte c.blue
  pub alpha : IsByte c.alpha

set_pixel-Draws :
    (size i : ℕ) (c : Rgba) (pix : Pix)
    → i + 3 < size
    → IsColor c
    → IsImage size pix
    → Draws size (set_pixel i c pix)
unfolding set_pixel
set_pixel-Draws size i c pix h color w =
    if_rule (Draws size) (ltb (i + 3) pix.size) _ _
      (λ _. record { size_lem = w.size_lem; bytes = λ j. written j })
      (λ full. absurd (ground (arith, full, w.size_lem)))
  where
    written :
        (j : ℕ)
        → IsByte (
            if j == i
            then c.red
            else if j == i + 1
            then c.green
            else if j == i + 2
            then c.blue
            else if j == i + 3
            then c.alpha
            else pix.at j)
    written j = ground (arith, color.red, color.green, color.blue, color.alpha, w.bytes j)

Draws-bind :
    (size : ℕ) (o : Option Pix) (f : Pix → Option Pix)
    → Draws size o
    → ((p : Pix) → IsImage size p → Draws size (f p))
    → Draws size (elim o [ none ↦ none | some p ↦ f p ])
Draws-bind size none f h k = absurd h
Draws-bind size (some p) f h k = k p h

for_range-Draws :
    (size n i bound : ℕ) (body : ℕ → Pix → Option Pix) (pix : Pix)
    → i + n ≤ bound
    → ((k : ℕ) (p : Pix) → k < bound → IsImage size p → Draws size (body k p))
    → IsImage size pix
    → Draws size (for_range n i body pix)
unfolding for_range
for_range-Draws size zero i bound body pix h draws w = w
for_range-Draws size (suc n) i bound body pix h draws w =
    Draws-bind size (body i pix) (λ p. for_range n (i + 1) body p) (draws i pix (omega arith) w)
      (λ p w'. for_range-Draws size n (i + 1) bound body p (omega arith) draws w')

pixel_inside :
    (width height x y : ℕ)
    → x < width
    → y < height
    → y * (4 * width) + x * 4 + 3 < 4 * (width * height)
pixel_inside width height x y hx hy =
    let d = height - suc y in
    let e : height ≡ suc y + d = omega arith in omega (arith, ap (λ (t : ℕ). t * width) e)

white-IsColor : IsColor white
white-IsColor = record {
  red = omega arith;
  green = omega arith;
  blue = omega arith;
  alpha = omega arith;
}

dot_color-IsColor : IsColor dot_color
dot_color-IsColor = record {
  red = omega arith;
  green = omega arith;
  blue = omega arith;
  alpha = omega arith;
}

module _ (width height : ℕ) where
  abbrev all : ℕ
  all = 4 * (width * height)

  gradient-Draws : (pix : Pix) → IsImage all pix → Draws all (gradient width height pix)
  unfolding gradient
  gradient-Draws pix w =
      for_range-Draws all height 0 height _ pix (omega arith)
        (λ y p hy w'.
          for_range-Draws all width 0 width _ p (omega arith)
            (λ x q hx w''.
              set_pixel-Draws all _ _ q (pixel_inside width height x y hx hy)
                (record {
                  red = omega arith;
                  green = omega arith;
                  blue = omega arith;
                  alpha = omega arith;
                })
                w'')
            w')
        w

  grid_columns-Draws : (pix : Pix) → IsImage all pix → Draws all (grid_columns width height pix)
  unfolding grid_columns
  grid_columns-Draws pix w =
      for_range-Draws all _ 0 ((width + 49) / 50) _ pix (omega arith)
        (λ k p hk w'.
          for_range-Draws all height 0 height _ p (omega arith)
            (λ y q hy w''.
              set_pixel-Draws all _ white q (pixel_inside width height (50 * k) y (omega arith) hy)
                white-IsColor w'')
            w')
        w

  grid_rows-Draws : (pix : Pix) → IsImage all pix → Draws all (grid_rows width height pix)
  unfolding grid_rows
  grid_rows-Draws pix w =
      for_range-Draws all _ 0 ((height + 49) / 50) _ pix (omega arith)
        (λ k p hk w'.
          for_range-Draws all width 0 width _ p (omega arith)
            (λ x q hx w''.
              set_pixel-Draws all _ white q (pixel_inside width height x (50 * k) hx (omega arith))
                white-IsColor w'')
            w')
        w

  dot_pixel-Draws :
      (cx k j : ℕ) (pix : Pix) → IsImage all pix → Draws all (dot_pixel width height cx k j pix)
  unfolding dot_pixel
  dot_pixel-Draws cx k j pix w =
      if_rule (Draws all) (is_drawn width height cx k j) _ _
        (λ inside.
          set_pixel-Draws all _ dot_color pix
            (pixel_inside width height (cx + j - 5) (height / 2 + k - 5) (ground (arith, inside))
              (ground (arith, inside)))
            dot_color-IsColor w)
        (λ _. w)

  dot-Draws : (second : ℕ) (pix : Pix) → IsImage all pix → Draws all (dot width height second pix)
  unfolding dot
  dot-Draws second pix w =
      for_range-Draws all 11 0 11 _ pix (omega arith)
        (λ k p hk w'.
          for_range-Draws all 11 0 11 _ p (omega arith)
            (λ j q hj w''. dot_pixel-Draws (second * width / 60) k j q w'') w')
        w

  -- For an image of any width and height and any second of the clock, the test pattern is drawn without
  -- an index out of range, into a buffer of four bytes for each pixel that holds bytes only.
  pub test_pattern-Draws : (second : ℕ) → Draws all (test_pattern width height second)
  unfolding test_pattern new_rgba
  test_pattern-Draws second =
      Draws-bind all _ _ (gradient-Draws _ (record { size_lem = refl; bytes = λ i. omega arith }))
        (λ p₁ w₁.
          Draws-bind all _ _ (grid_columns-Draws p₁ w₁)
            (λ p₂ w₂. Draws-bind all _ _ (grid_rows-Draws p₂ w₂) (λ p₃ w₃. dot-Draws second p₃ w₃)))
