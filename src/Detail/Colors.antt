-- ===== src/Detail/Colors.antt =====
-- The colors that are taken from the picture.
use zhici_photo_upload_platf.Detail.{Color, color_at, colors_from, extract_colors}
use zhici_photo_upload_platf.Prelude.{
  All, List, [], arith, get_elem?, length, refl, some, suc, zero, ℕ, ◌*◌, ◌+◌, ◌<◌, ◌∷◌, ◌≡◌, ◌≤◌,
}

-- All three components were read within the canvas.
abbrev pub IsRead : Color → Type 0
IsRead c = (r g b : ℕ) × (c ≡ record { red = some r; green = some g; blue = some b })

get_elem?-some : (ns : List ℕ) (i : ℕ) → i < length ns → (n : ℕ) × (get_elem? ns i ≡ some n)
get_elem?-some [] i h = absurd (omega (arith, h))
get_elem?-some (n ∷ ns) zero h = (n, refl)
get_elem?-some (n ∷ ns) (suc i) h = get_elem?-some ns i (omega (arith, h))

color_at-IsRead : (ns : List ℕ) (i : ℕ) → i + 2 < length ns → IsRead (color_at ns i)
unfolding color_at
color_at-IsRead ns i h =
    let (r, p) = get_elem?-some ns i (omega arith) in
    let (g, q) = get_elem?-some ns (i + 1) (omega arith) in
    let (b, k) = get_elem?-some ns (i + 2) h in (r, g, b, rw (p, q, k) refl)

-- From the canvas of a picture, which has at least one pixel and four numbers for each, the page
-- takes five colors, and reads none of them beyond the end.
pub extract_colors-IsRead :
    (ns : List ℕ) (n : ℕ)
    → length ns ≡ 4 * n
    → 1 ≤ n
    → (length (extract_colors (some ns) 5) ≡ 5) × All IsRead (extract_colors (some ns) 5)
unfolding extract_colors colors_from
extract_colors-IsRead ns n e h = (
  refl,
  (
    color_at-IsRead ns _ (omega (arith, e, h)),
    (
      color_at-IsRead ns _ (omega (arith, e, h)),
      (
        color_at-IsRead ns _ (omega (arith, e, h)),
        (
          color_at-IsRead ns _ (omega (arith, e, h)),
          (color_at-IsRead ns _ (omega (arith, e, h)), tt),
        ),
      ),
    ),
  ),
)
