-- ===== src/Admin/Dashboard/Lines.antt =====
-- The lines that TrendChart and Sparkline of pages/admin/DashboardPage.tsx draw.
pub mod Frame
use zhici_photo_upload_platf.Admin.Dashboard.{Point, max_val, steps_for}
use zhici_photo_upload_platf.Prelude.{
  List, Text, [], length, map, suc, zero, ℕ, ◌*◌, ◌++◌, ◌+◌, ◌∷◌, if◌then◌else◌, ltb, ◌-◌,
}
use zhici_photo_upload_platf.Spark.{spark_from}

-- A command of the `d` of an svg path: `M`, `C`, `L` and `Z`. Here x is in parts of 1/2n, so that the
-- middle of two points is a number, and y in parts of 1/m. A curve has both ends of its middle line,
-- which share their x.
pub data Stroke : Type 0 where
  move : (x y : ℕ) → Stroke
  curve : (cx y_before y_after x y : ℕ) → Stroke
  line : (x y : ℕ) → Stroke
  close : Stroke

unfoldable pub curves_from : Point → List Point → List Stroke
curves_from prev [] = []
curves_from prev (p ∷ ps) = curve (prev.x + p.x) prev.y p.y (2 * p.x) p.y ∷ curves_from p ps

-- `pathD`.
unfoldable pub path : List Point → List Stroke
unfolding curves_from
path [] = []
path (p ∷ []) = []
path (p ∷ q ∷ ps) = move (2 * p.x) p.y ∷ curves_from p (q ∷ ps)

abbrev last_of : Point → List Point → Point
last_of p [] = p
last_of p (q ∷ ps) = last_of q ps

-- `areaD`, for the most uploads of a day: the path, and down to the base line at both ends.
unfoldable pub area : ℕ → List Point → List Stroke
area m [] = []
area m (p ∷ []) = []
area m (p ∷ q ∷ ps) =
    path (p ∷ q ∷ ps)
    ++ (line (2 * (last_of q ps).x) (144 * m) ∷ line (2 * p.x) (144 * m) ∷ close ∷ [])

-- `Math.floor(n / 2)`.
unfoldable pub half : ℕ → ℕ
half zero = 0
half (suc zero) = 0
half (suc (suc n)) = suc (half n)

unfoldable pub point_at : ℕ → Point → List Point → Point
point_at zero p ps = p
point_at (suc i) p [] = p
point_at (suc i) p (q ∷ ps) = point_at i q ps

unfoldable pub without : ℕ → Text → Text
without zero t = t
without (suc n) [] = []
without (suc n) (c ∷ t) = without n t

-- The captions below the chart: the days at the start, in the middle and at the end.
unfoldable pub captions : List Point → List Text
unfolding half point_at without
captions [] = []
captions (p ∷ []) = []
captions (p ∷ q ∷ ps) =
    let n = length (p ∷ q ∷ ps) in
    map (λ (r : Point). without 5 r.day) (p ∷ point_at (half n) p (q ∷ ps) ∷ last_of q ps ∷ [])

-- The points of `Sparkline`.
unfoldable pub spark : List ℕ → List (ℕ × ℕ)
unfolding spark_from
spark vs = spark_from 100 (steps_for (length vs)) (max_val vs) 0 vs

-- The simulated numbers of a tile in `kpiSparks`: seven of them, up to the total by equal steps, and at least 1. A
-- total that is missing counts as 1 in the code, which gives the same as 0.
unfoldable pub simulated : ℕ → ℕ → List ℕ
simulated step total =
    map (λ k. let v = total - k * step in if ltb 1 v then v else 1) (6 ∷ 5 ∷ 4 ∷ 3 ∷ 2 ∷ 1 ∷ 0 ∷ [])

-- The uploads of the last days in `kpiSparks`: `slice(-7)`.
unfoldable pub last_seven : List ℕ → List ℕ
last_seven [] = []
last_seven (c ∷ cs) = let rest = last_seven cs in if ltb 7 (length (c ∷ cs)) then rest else c ∷ cs
