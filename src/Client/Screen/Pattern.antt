-- ===== src/Client/Screen/Pattern.antt =====
-- cmd/agent/capture.go: generateTestPattern up to the JPEG encoder. The loops carry the buffer; a write
-- out of its range is the run-time panic, none.
use rmm.Base.{
  ℕ, zero, suc, ◌+◌, ◌-◌, ◌*◌, ◌/◌, ◌%◌, leb, ltb, ◌==◌, if◌then◌else◌, Bool, ◌&&◌, Option, none,
  some,
}

-- `img.Pix`: its length, and the byte at an index.
pub record Pix : Type 0 where
  pub size : ℕ
  pub at : ℕ → ℕ

pub record Rgba : Type 0 where
  pub red : ℕ
  pub green : ℕ
  pub blue : ℕ
  pub alpha : ℕ

abbrev pub uint8 : ℕ → ℕ
uint8 n = n % 256

-- The four writes at i, i + 1, i + 2 and i + 3.
unfoldable pub set_pixel : ℕ → Rgba → Pix → Option Pix
set_pixel i c pix =
    if ltb (i + 3) pix.size
    then some (record pix {
      at = λ j.
          if j == i
          then c.red
          else if j == i + 1
          then c.green
          else if j == i + 2
          then c.blue
          else if j == i + 3
          then c.alpha
          else pix.at j;
    })
    else none

-- for k = i; k < i + n; k++
unfoldable pub for_range : ℕ → ℕ → (ℕ → Pix → Option Pix) → Pix → Option Pix
for_range zero i body pix = some pix
for_range (suc n) i body pix = elim (body i pix) [
  | none ↦ none
  | some p ↦ for_range n (i + 1) body p
]

abbrev pub white : Rgba
white = record { red = 255; green = 255; blue = 255; alpha = 100 }

abbrev pub dot_color : Rgba
dot_color = record { red = 255; green = 100; blue = 100; alpha = 255 }

module _ (width height : ℕ) where
  abbrev pub stride : ℕ
  stride = 4 * width

  unfoldable pub gradient : Pix → Option Pix
  gradient = for_range height 0 (λ y. for_range width 0 (λ x.
      set_pixel (y * stride + x * 4) (record {
        red = uint8 (50 + x * 100 / width);
        green = uint8 (50 + y * 100 / height);
        blue = 100;
        alpha = 255;
      })))

  -- A loop in steps of 50 below a bound has so many rounds.
  abbrev pub rounds : ℕ → ℕ
  rounds bound = (bound + 49) / 50

  unfoldable pub grid_columns : Pix → Option Pix
  grid_columns =
      for_range (rounds width) 0
        (λ k. for_range height 0 (λ y. set_pixel (y * stride + 50 * k * 4) white))

  unfoldable pub grid_rows : Pix → Option Pix
  grid_rows =
      for_range (rounds height) 0
        (λ k. for_range width 0 (λ x. set_pixel (50 * k * stride + x * 4) white))

  -- The square of k - 5; one of the two terms is 0.
  abbrev pub square_from_5 : ℕ → ℕ
  square_from_5 k = (k - 5) * (k - 5) + (5 - k) * (5 - k)

  -- The pixel lies in the circle and in the image; that px and py are not negative is tested before
  -- the subtraction.
  abbrev pub is_drawn : ℕ → ℕ → ℕ → Bool
  is_drawn cx k j =
      leb (square_from_5 j + square_from_5 k) 25
      && (leb 5 (cx + j)
          && (ltb (cx + j - 5) width
              && (leb 5 (height / 2 + k) && ltb (height / 2 + k - 5) height)))

  -- For dx = j - 5 and dy = k - 5.
  unfoldable pub dot_pixel : ℕ → ℕ → ℕ → Pix → Option Pix
  dot_pixel cx k j pix =
      let px = cx + j - 5 in
      let py = height / 2 + k - 5 in
      if is_drawn cx k j then set_pixel (py * stride + px * 4) dot_color pix else some pix

  unfoldable pub dot : ℕ → Pix → Option Pix
  dot second = for_range 11 0 (λ k. for_range 11 0 (λ j. dot_pixel (second * width / 60) k j))

  unfoldable pub new_rgba : Pix
  new_rgba = record { size = 4 * (width * height); at = λ _. 0 }

  unfoldable pub test_pattern : ℕ → Option Pix
  test_pattern second = elim (gradient new_rgba) [
    | none ↦ none
    | some p₁ ↦ elim (grid_columns p₁) [
      | none ↦ none
      | some p₂ ↦ elim (grid_rows p₂) [ none ↦ none | some p₃ ↦ dot second p₃ ]
    ]
  ]
