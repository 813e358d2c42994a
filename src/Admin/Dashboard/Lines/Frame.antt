-- ===== src/Admin/Dashboard/Lines/Frame.antt =====
-- The charts stay in their frames, and the line of the trend goes through the days.
use zhici_photo_upload_platf.Admin.Dashboard.{
  DayCount, Point, max_val, points_from, counts, points, steps, steps_for,
}
use zhici_photo_upload_platf.Admin.Dashboard.Lines.{
  Stroke, area, close, curve, curves_from, last_of, line, move, path, spark,
}
use zhici_photo_upload_platf.Prelude.{
  All, All-append, List, [], ap, arith, length, map, refl, ℕ, ◌*◌, ◌+◌, ◌∷◌, ◌≡◌, ◌≤◌, Any, inl,
  inr, ◌⊎◌,
}
use zhici_photo_upload_platf.Spark.Box.{IsInBox, counts_below, spark_from-IsInBox, max_val-reached}

-- In parts of 1/2n and 1/m: between PX and W - PX, and between PY and PY + innerH.
abbrev pub IsInside : ℕ → ℕ → ℕ → ℕ → Type 0
IsInside n m x y = (64 * n ≤ x) × (x ≤ 696 * n) × (16 * m ≤ y) × (y ≤ 144 * m)

-- All points that a stroke names are inside, and a Bézier curve lies within those.
abbrev pub StaysInside : ℕ → ℕ → Stroke → Type 0
StaysInside n m (move x y) = IsInside n m x y
StaysInside n m (curve cx y_before y_after x y) =
    IsInside n m cx y_before × IsInside n m cx y_after × IsInside n m x y
StaysInside n m (line x y) = IsInside n m x y
StaysInside n m close = Unit

-- Where a stroke of the path ends.
abbrev pub end_of : Stroke → ℕ × ℕ
end_of (move x y) = (x, y)
end_of (curve cx y_before y_after x y) = (x, y)
end_of (line x y) = (x, y)
end_of close = (0, 0)

abbrev pub spot : Point → ℕ × ℕ
spot p = (2 * p.x, p.y)

-- A point for each day, in the order of the days.
abbrev pub Marks : List Point → List DayCount → Type 0
Marks [] [] = Unit
Marks [] (d ∷ ds) = ⊥
Marks (p ∷ ps) [] = ⊥
Marks (p ∷ ps) (d ∷ ds) = (p.day ≡ d.day) × (p.count ≡ d.count) × Marks ps ds

-- Inside the frame, at a height above the base line in proportion to the uploads.
abbrev pub IsPlaced : ℕ → ℕ → Point → Type 0
IsPlaced n m p = IsInside n m (2 * p.x) p.y × (p.y + 128 * p.count ≡ 144 * m)

points_from-Marks : (n m i : ℕ) (ds : List DayCount) → Marks (points_from n m i ds) ds
unfolding points_from
points_from-Marks n m i [] = tt
points_from-Marks n m i (d ∷ ds) = (refl, refl, points_from-Marks n m (i + 1) ds)

points_from-IsPlaced :
    (n m i : ℕ) (ds : List DayCount)
    → i + length ds ≤ n + 1
    → All (λ (d : DayCount). d.count ≤ m) ds
    → All (IsPlaced n m) (points_from n m i ds)
unfolding points_from
points_from-IsPlaced n m i [] h a = tt
points_from-IsPlaced n m i (d ∷ ds) h a = (
  ((omega arith, omega (arith, h), omega (arith, a.0), omega arith), omega (arith, a.0)),
  points_from-IsPlaced n m (i + 1) ds (omega (arith, h)) a.1,
)

curves_from-StaysInside :
    (n m : ℕ) (p : Point) (ps : List Point)
    → IsPlaced n m p
    → All (IsPlaced n m) ps
    → All (StaysInside n m) (curves_from p ps)
unfolding curves_from
curves_from-StaysInside n m p [] h a = tt
curves_from-StaysInside n m p (q ∷ ps) h (k, a) =
    let (l, r, b, t) = h.0 in
    let (l', r', b', t') = k.0 in
    (
      (
        (omega (arith, l, l'), omega (arith, r, r'), b, t),
        (omega (arith, l, l'), omega (arith, r, r'), b', t'),
        k.0,
      ),
      curves_from-StaysInside n m q ps k a,
    )

last_of-IsPlaced :
    (n m : ℕ) (p : Point) (ps : List Point)
    → IsPlaced n m p
    → All (IsPlaced n m) ps
    → IsPlaced n m (last_of p ps)
last_of-IsPlaced n m p [] h a = h
last_of-IsPlaced n m p (q ∷ ps) h a = last_of-IsPlaced n m q ps a.0 a.1

area-StaysInside :
    (n m : ℕ) (ps : List Point) → All (IsPlaced n m) ps → All (StaysInside n m) (area m ps)
unfolding area path
area-StaysInside n m [] a = tt
area-StaysInside n m (p ∷ []) a = tt
area-StaysInside n m (p ∷ q ∷ ps) (h, a) =
    let k = (last_of-IsPlaced n m q ps a.0 a.1).0 in
    All-append (StaysInside n m) (path (p ∷ q ∷ ps)) _
      (h.0, curves_from-StaysInside n m p (q ∷ ps) h a)
      ((k.0, k.1, omega arith, omega arith), ((h.0.0, h.0.1, omega arith, omega arith), (tt, tt)))

curves_from-end_of : (p : Point) (ps : List Point) → map end_of (curves_from p ps) ≡ map spot ps
unfolding curves_from
curves_from-end_of p [] = refl
curves_from-end_of p (q ∷ ps) = ap (λ x. spot q ∷ x) (curves_from-end_of q ps)

path-end_of : (ps : List Point) → 2 ≤ length ps → map end_of (path ps) ≡ map spot ps
unfolding path
path-end_of [] h = absurd (omega (arith, h))
path-end_of (p ∷ []) h = absurd (omega (arith, h))
path-end_of (p ∷ q ∷ ps) h = ap (λ x. spot p ∷ x) (curves_from-end_of p (q ∷ ps))

fits_steps : (ds : List DayCount) → 0 + length ds ≤ steps ds + 1
fits_steps ds = ground arith

All-counts :
    (m : ℕ) (ds : List DayCount)
    → All (λ c. c ≤ m) (counts ds)
    → All (λ (d : DayCount). d.count ≤ m) ds
All-counts m [] a = tt
All-counts m (d ∷ ds) a = (a.0, All-counts m ds a.1)

points_from-peak :
    (n m i : ℕ) (ds : List DayCount)
    → Any (λ c. c ≡ m) (counts ds)
    → Any (λ (p : Point). p.y ≡ 16 * m) (points_from n m i ds)
unfolding points_from
points_from-peak n m i [] a = absurd a
points_from-peak n m i (d ∷ ds) (inl e) = inl (omega (arith, e))
points_from-peak n m i (d ∷ ds) (inr a) = inr (points_from-peak n m (i + 1) ds a)

points-peak :
    (ds : List DayCount)
    → All (λ c. c ≡ 0) (counts ds) ⊎ Any (λ (p : Point). p.y ≡ 16 * max_val (counts ds)) (points ds)
unfolding points
points-peak ds = elim (max_val-reached (counts ds)) [
  | inl z ↦ inl z
  | inr a ↦ inr (points_from-peak (steps ds) (max_val (counts ds)) 0 ds a)
]

-- The chart of at least two days: it has a point for each day, in order, inside the frame and at a
-- height above the base line in proportion to the day's uploads; a day reaches the top, unless no day
-- has an upload; the line begins at the first point and goes on to each of the others in turn; and
-- neither it nor the area below it leaves the frame.
pub trend-Marks :
    (d e : DayCount) (ds : List DayCount)
    → let days = d ∷ e ∷ ds in
      let n = steps days in
      let m = max_val (counts days) in
      Marks (points days) days
      × All (IsPlaced n m) (points days)
      × (All (λ c. c ≡ 0) (counts days) ⊎ Any (λ (p : Point). p.y ≡ 16 * m) (points days))
      × (map end_of (path (points days)) ≡ map spot (points days))
      × All (StaysInside n m) (area m (points days))
unfolding points path points_from
trend-Marks d e ds =
    let days = d ∷ e ∷ ds in
    let n = steps days in
    let m = max_val (counts days) in
    let a =
      points_from-IsPlaced n m 0 days (fits_steps days)
        (All-counts m days (counts_below (counts days) m (omega arith))) in
    (
      points_from-Marks n m 0 days,
      a,
      points-peak days,
      path-end_of (points days) (omega arith),
      area-StaysInside n m (points days) a,
    )

spark_steps : (n : ℕ) → 0 + n ≤ steps_for n + 1
spark_steps n = ground arith

-- The spark of whatever numbers has its points in the box.
pub spark-IsInBox :
    (vs : List ℕ) → All (IsInBox 100 (steps_for (length vs)) (max_val vs)) (spark vs)
unfolding spark
spark-IsInBox vs =
    spark_from-IsInBox 100 _ _ 0 vs (spark_steps (length vs)) (counts_below vs _ (omega arith))
