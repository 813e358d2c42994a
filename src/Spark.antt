-- ===== src/Spark.antt =====
-- What pages/admin/DashboardPage.tsx and pages/profile/ProfilePage.tsx draw of a list of numbers.
pub mod Box
use zhici_photo_upload_platf.Prelude.{List, [], if◌then◌else◌, ltb, ℕ, ◌*◌, ◌+◌, ◌-◌, ◌∷◌}

-- `Math.max(...counts, 1)`.
unfoldable pub max_val : List ℕ → ℕ
max_val [] = 1
max_val (c ∷ cs) = let rest = max_val cs in if ltb rest c then c else rest

-- The points of `Sparkline`: x up to a width in parts of 1/n, y in parts of 1/m, with the foot at 18.
unfoldable pub spark_from : (width : ℕ) → ℕ → ℕ → ℕ → List ℕ → List (ℕ × ℕ)
spark_from width n m i [] = []
spark_from width n m i (v ∷ vs) = (i * width, 18 * m - v * 16) ∷ spark_from width n m (i + 1) vs
