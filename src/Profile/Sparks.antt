-- ===== src/Profile/Sparks.antt =====
-- The lines of the tiles of pages/profile/ProfilePage.tsx.
use zhici_photo_upload_platf.Prelude.{All, List, arith, length, ℕ, ◌-◌, ◌≤◌}
use zhici_photo_upload_platf.Spark.{max_val, spark_from}
use zhici_photo_upload_platf.Spark.Box.{IsInBox, counts_below, spark_from-IsInBox}

-- The points of `Sparkline`. A tile always has seven numbers; with fewer than two the code divides by 0.
unfoldable pub tile_points : List ℕ → List (ℕ × ℕ)
tile_points vs = spark_from 60 (length vs - 1) (max_val vs) 0 vs

-- The points for two numbers or more are in the box of 60 by 18.
pub tile_points-IsInBox :
    (vs : List ℕ) → 2 ≤ length vs → All (IsInBox 60 (length vs - 1) (max_val vs)) (tile_points vs)
unfolding tile_points
tile_points-IsInBox vs h =
    spark_from-IsInBox 60 _ _ 0 vs (omega (arith, h)) (counts_below vs _ (omega arith))
