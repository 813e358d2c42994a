-- ===== src/Admin/Dashboard/Tests.antt =====
-- The dashboard, and the theorems at it.
use zhici_photo_upload_platf.Admin.Dashboard.{
  DayCount, State, d30, pick, points, counts, max_val, points_from, steps, Point,
}
use zhici_photo_upload_platf.Admin.Dashboard.View.{
  command_item, contains, filtered, palette, starts_with,
}
use zhici_photo_upload_platf.Prelude.{
  Offers, Text, [], codes, flat_map, inl, inr, refl, true, ◌∷◌, ◌≡◌, All, map, Any, ◌*◌, ◌⊎◌,
}
use zhici_photo_upload_platf.Admin.Dashboard.Lines.{
  area, captions, half, last_seven, path, point_at, simulated, without,
}
use zhici_photo_upload_platf.Admin.Dashboard.Lines.Frame.{
  IsPlaced, Marks, StaysInside, end_of, spot, trend-Marks,
}

abbrev searching : State
searching = record { cmd_open = true; query = codes "人"; range = d30 }

abbrev same_text : Text → Text
same_text t = t

palette_shows : Offers (pick "/profile") (palette same_text searching)
unfolding palette filtered contains starts_with command_item flat_map
palette_shows = inr (inr (inr (inl (refl, refl))))

abbrev monday : DayCount
monday = record { day = codes "2025-06-02"; count = 3 }

abbrev tuesday : DayCount
tuesday = record { day = codes "2025-06-03"; count = 5 }

two_days-Marks :
    let n = steps (monday ∷ tuesday ∷ []) in
    let m = max_val (counts (monday ∷ tuesday ∷ [])) in
    Marks (points (monday ∷ tuesday ∷ [])) (monday ∷ tuesday ∷ [])
    × All (IsPlaced n m) (points (monday ∷ tuesday ∷ []))
    × (All (λ c. c ≡ 0) (counts (monday ∷ tuesday ∷ []))
        ⊎ Any (λ (p : Point). p.y ≡ 16 * m) (points (monday ∷ tuesday ∷ [])))
    × (map end_of (path (points (monday ∷ tuesday ∷ [])))
        ≡ map spot (points (monday ∷ tuesday ∷ [])))
    × All (StaysInside n m) (area m (points (monday ∷ tuesday ∷ [])))
two_days-Marks = trend-Marks monday tuesday []

simulated_users : simulated 2 9 ≡ 1 ∷ 1 ∷ 1 ∷ 3 ∷ 5 ∷ 7 ∷ 9 ∷ []
unfolding simulated
simulated_users = refl

last_of_nine : last_seven (9 ∷ 8 ∷ 7 ∷ 6 ∷ 5 ∷ 4 ∷ 3 ∷ 2 ∷ 1 ∷ []) ≡ 7 ∷ 6 ∷ 5 ∷ 4 ∷ 3 ∷ 2 ∷ 1 ∷ []
unfolding last_seven
last_of_nine = refl

captions_of_two :
    captions (points (monday ∷ tuesday ∷ [])) ≡ codes "06-02" ∷ codes "06-03" ∷ codes "06-03" ∷ []
unfolding captions half point_at without points points_from
captions_of_two = refl
