-- ===== src/Prelude/Trimming.antt =====
-- What `trim` leaves.
use Prim.Native.Nat.{◌≤◌}
use mathlib.Core.Path.{◌≡◌, refl, ap, ◌∙◌}
use mathlib.Core.List.{[], ◌∷◌, reverse, reverse-cons}
use native.Mathlib.Omega.{arith}
use zhici_photo_upload_platf.Prelude.Lists.{length, length-append}
use zhici_photo_upload_platf.Prelude.Texts.{Text, trim_start, trim}

length-trim_start : (s : Text) → length (trim_start s) ≤ length s
length-trim_start [] = omega arith
length-trim_start (c ∷ s) = ground (arith, length-trim_start s)

length-reverse : (s : Text) → length (reverse s) ≡ length s
length-reverse [] = refl
length-reverse (c ∷ s) =
    ap (λ (t : Text). length t) (reverse-cons c s)
    ∙ length-append (reverse s) (c ∷ [])
    ∙ omega (arith, length-reverse s)

pub length-trim : (s : Text) → length (trim s) ≤ length s
unfolding trim
length-trim s = omega (
  arith,
  length-reverse (trim_start (reverse (trim_start s))),
  length-trim_start (reverse (trim_start s)),
  length-reverse (trim_start s),
  length-trim_start s,
)
