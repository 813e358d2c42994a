-- ===== src/Mobile/Feed/Reaching.antt =====
-- Every image of the endless list can be reached.
use mathlib.Core.Path.{subst}
use zhici_photo_upload_platf.Mobile.Feed.{State, commit, joins, run_effect}
use zhici_photo_upload_platf.Mobile.Feed.Pages.{
  HasPages, InOrder, IsNew, IsShown, Reach, Server, coming, end_reached-turns, first, here,
  is_seen-run_effect, listing, loaded-InOrder, next, pages_in_order, renders, scrolls, shown,
  unrendered, turned-InOrder, upto,
}
use zhici_photo_upload_platf.Prelude.{
  Bool, ap, arith, refl, some, suc, zero, ℕ, ◌+◌, ◌-◌, ◌∙◌, ◌≡◌, ◌≤◌,
}

module _ (v : Server) (n : ℕ) (pages : HasPages v n) where
  -- A run that ends where a number of pages is shown.
  abbrev Shows : State → ℕ → Type 0
  Shows s k =
      (t : State) × Reach v s t
      × IsShown v t
      × (t.all_images ≡ upto v t.page)
      × (t.prev_page ≡ t.page)
      × (t.page ≡ k)

  is_seen-loaded :
      (t : State)
      → IsNew v t
      → commit (some (listing v t.page)) t ≡ (run_effect (some (listing v t.page)) t, joins t)
  unfolding commit
  is_seen-loaded t i = rw (i, commit) refl

  loaded-Shows :
      {z s t : State}
      → Reach v s t
      → IsNew v t
      → InOrder v n z (run_effect (some (listing v t.page)) t)
      → Shows s t.page
  unfolding run_effect listing
  loaded-Shows {s = s} {t = t} r i (shown h a p b) = (
    run_effect (some (listing v t.page)) t,
    subst (Reach v s) (ap (λ (x : State × Bool). x.0) (is_seen-loaded t i)) (next r (renders t)),
    h,
    a,
    p,
    refl,
  )
  loaded-Shows {s = s} {t = t} r i (unrendered h e k) =
      absurd (cc (is_seen-run_effect (listing v t.page) t))
  loaded-Shows {s = s} {t = t} r i (first h e k) =
      absurd (cc (is_seen-run_effect (listing v t.page) t))
  loaded-Shows {s = s} {t = t} r i (coming k h e a p b) =
      absurd (cc (is_seen-run_effect (listing v t.page) t))

  -- The page that is asked for comes.
  comes : {z s t : State} → InOrder v n z t → Reach v s t → Shows s t.page
  comes {t = t} (shown i a p b) r = (t, r, i, a, p, refl)
  comes {z = z} {t = t} (unrendered i e k) r =
      loaded-Shows r i (loaded-InOrder v n pages z t i (unrendered i e k))
  comes {z = z} {t = t} (first i e k) r =
      loaded-Shows r i (loaded-InOrder v n pages z t i (first i e k))
  comes {z = z} {t = t} (coming k i e a p b) r =
      loaded-Shows r i (loaded-InOrder v n pages z t i (coming k i e a p b))

  page-bounds : {z t : State} → InOrder v n z t → (1 ≤ t.page) × (t.page ≤ n)
  page-bounds (shown i a p b) = b
  page-bounds (unrendered i e k) = (omega (arith, e), omega (arith, e, pages.some_page))
  page-bounds (first i e k) = (omega (arith, e), omega (arith, e, pages.some_page))
  page-bounds (coming k i e a p b) = (omega (arith, e), omega (arith, e, b))

  climbs : {s : State} (d k : ℕ) → k + d ≡ n → 1 ≤ k → Shows s k → Shows s n
  climbs zero k e l (t, r, i, a, p, q) = (t, r, i, a, p, omega (arith, e, q))
  climbs {s} (suc d) k e l (t, r, i, a, p, q) =
      let turned : State = record t { page = t.page + 1 } in
      let r' : Reach v s turned =
        subst (Reach v s) (end_reached-turns v n pages s t a (omega (arith, e, q)))
          (next r (scrolls t i)) in
      let h = turned-InOrder v n pages s t i a p (omega (arith, q, l), omega (arith, e, q)) in
      climbs d (suc k) (omega (arith, e)) (omega arith)
        (subst (Shows s) (omega (arith, q)) (comes h r'))

  -- From wherever such a run has come to, it can go on, by scrolling and the answers, until every image
  -- is shown.
  pub every_image_comes :
      {s t : State}
      → IsNew v s
      → s.page ≡ 1
      → Reach v s t
      → (u : State) × Reach v t u × (u.all_images ≡ upto v n)
  every_image_comes {s} {t} i e r =
      let h = pages_in_order v n pages i e r in
      let b = page-bounds h in
      let (u, r', _, a, _, q) = climbs (n - t.page) t.page (omega (arith, b)) b.0 (comes h here) in
      (u, r', a ∙ ap (upto v) q)
