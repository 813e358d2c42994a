-- ===== src/Admin/Dashboard/Chart.antt =====
-- The point that the chart's tooltip shows.
use zhici_photo_upload_platf.Admin.Dashboard.{
  DayCount, Point, closest, closest_from, distance, points, points_from,
}
use zhici_photo_upload_platf.Prelude.{
  All, Any, Bool-cases, List, [], arith, inl, inr, lt_of_ltb, ltb, refl, some, ℕ, ◌<◌, ◌∷◌, ◌≡◌,
  ◌≤◌,
}

-- The point is one of the list, and no other one is nearer.
pub record IsNearest (mx : ℕ) (ps : List Point) (p : Point) : Type 0 where
  pub one_of : Any (λ q. q ≡ p) ps
  pub nearest : All (λ (q : Point). distance p.x mx ≤ distance q.x mx) ps

closest_from-IsNearest :
    (mx : ℕ) (best : Point) (ps : List Point) → IsNearest mx (best ∷ ps) (closest_from mx best ps)
unfolding closest_from
closest_from-IsNearest mx best [] = record { one_of = inl refl; nearest = (omega arith, tt) }
closest_from-IsNearest mx best (p ∷ ps) =
    elim (Bool-cases (ltb (distance p.x mx) (distance best.x mx))) [
      | inl e ↦
          let h = closest_from-IsNearest mx p ps in
          let l : distance p.x mx < distance best.x mx = lt_of_ltb _ _ e in
          rw e
            (record { one_of = inr h.one_of; nearest = (omega (arith, l, h.nearest.0), h.nearest) })
      | inr e ↦
          let h = closest_from-IsNearest mx best ps in
          let l : distance best.x mx ≤ distance p.x mx = ground (arith, e) in
          rw e (record {
            one_of = elim h.one_of [ inl k ↦ inl k | inr k ↦ inr (inr k) ];
            nearest = (h.nearest.0, (omega (arith, l, h.nearest.0), h.nearest.1));
          })
    ]

-- Wherever the mouse is, a chart with a day shows a tooltip of one of its days, and no other day's
-- point is nearer to the mouse in the chart's width.
pub closest-IsNearest :
    (mx : ℕ) (d : DayCount) (ds : List DayCount)
    → (p : Point) × (closest mx (points (d ∷ ds)) ≡ some p) × IsNearest mx (points (d ∷ ds)) p
unfolding closest points points_from
closest-IsNearest mx d ds = (_, refl, closest_from-IsNearest mx _ _)
