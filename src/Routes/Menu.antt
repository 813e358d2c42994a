-- ===== src/Routes/Menu.antt =====
-- Where the entries of the frame's menus lead (components/layout/AppLayout.tsx).
use mathlib.Core.Path.{subst}
use zhici_photo_upload_platf.Auth.{AuthState}
use zhici_photo_upload_platf.Prelude.{
  All, Any, Bool, List, Offers, Offers-append, Offers-flat_map, Option, String, [], arith, false,
  flat_map, inl, inr, refl, some, true, ◌∷◌, ◌≡◌, ◌≢◌,
}
use zhici_photo_upload_platf.Routes.{
  Page, Route, dashboard_page, gallery_page, images_page, not_found_page, redirect, render,
  tags_page, upload_page, users_page, visit,
}
use zhici_photo_upload_platf.Routes.Guards.{All-Any, IsRouter, visit_shows}
use zhici_photo_upload_platf.Routes.Layout.{Target, go, menu_items, menu_node, view_frame}

-- The target of an entry of the menu stands for a page that is shown at once.
abbrev pub Opens : (String → Option Route) → AuthState → Target → Type 0
Opens match s t = (p : Page) × (visit match 1 s t.path ≡ some p) × (p ≢ not_found_page)

offered_item :
    (current t : Target) (is : List (Target × String))
    → Any (λ i. Offers (go t) (menu_node current i)) is
    → Any (λ (i : Target × String). i.0 ≡ t) is
unfolding menu_node
offered_item current t [] o = o
offered_item current t (i ∷ is) (inl o) = inl (ground arith)
offered_item current t (i ∷ is) (inr o) = inr (offered_item current t is o)

offered_target :
    (s : AuthState) (current t : Target) (collapsed : Bool)
    → Offers (go t) (view_frame s current (record { collapsed = collapsed }))
    → Any (λ (i : Target × String). i.0 ≡ t) (menu_items s.is_admin)
unfolding view_frame
offered_target s current t c (inl o) = absurd o
offered_target s current t c (inr o) =
    elim (Offers-append (go t) (flat_map (menu_node current) (menu_items s.is_admin)) _ o) [
      | inl k ↦
          offered_item current t (menu_items s.is_admin)
            (Offers-flat_map (go t) (menu_node current) (menu_items s.is_admin) k)
      | inr k ↦ absurd (ground arith)
    ]

-- Every target of the menu leads to a page of its own.
All-Opens :
    (match : String → Option Route) (s : AuthState) (b : Bool)
    → IsRouter match
    → s.is_authenticated ≡ true
    → s.is_admin ≡ b
    → All (λ (i : Target × String). Opens match s i.0) (menu_items b)
unfolding menu_items render redirect
All-Opens match s false m h e = (
  (
    gallery_page,
    visit_shows match 0 s "/gallery" _ gallery_page m.exact.1.1.1.0 (rw h refl),
    λ p. absurd (cc),
  ),
  (
    (
      gallery_page,
      visit_shows match 0 s "/gallery" _ gallery_page m.exact.1.1.1.0 (rw h refl),
      λ p. absurd (cc),
    ),
    (
      (
        upload_page,
        visit_shows match 0 s "/upload" _ upload_page m.exact.1.1.1.1.0 (rw h refl),
        λ p. absurd (cc),
      ),
      tt,
    ),
  ),
)
All-Opens match s true m h e = (
  (
    gallery_page,
    visit_shows match 0 s "/gallery" _ gallery_page m.exact.1.1.1.0 (rw h refl),
    λ p. absurd (cc),
  ),
  (
    (
      gallery_page,
      visit_shows match 0 s "/gallery" _ gallery_page m.exact.1.1.1.0 (rw h refl),
      λ p. absurd (cc),
    ),
    (
      (
        upload_page,
        visit_shows match 0 s "/upload" _ upload_page m.exact.1.1.1.1.0 (rw h refl),
        λ p. absurd (cc),
      ),
      (
        (
          dashboard_page,
          visit_shows match 0 s "/admin" _ dashboard_page m.exact.1.1.1.1.1.1.1.0 (rw (h, e) refl),
          λ p. absurd (cc),
        ),
        (
          (
            users_page,
            visit_shows match 0 s "/admin/users" _ users_page m.exact.1.1.1.1.1.1.1.1.0
                (rw (h, e) refl),
            λ p. absurd (cc),
          ),
          (
            (
              images_page,
              visit_shows match 0 s "/admin/images" _ images_page m.exact.1.1.1.1.1.1.1.1.1.0
                  (rw (h, e) refl),
              λ p. absurd (cc),
            ),
            (
              (
                tags_page,
                visit_shows match 0 s "/admin/tags" _ tags_page m.exact.1.1.1.1.1.1.1.1.1.1.0
                    (rw (h, e) refl),
                λ p. absurd (cc),
              ),
              tt,
            ),
          ),
        ),
      ),
    ),
  ),
)

-- In the frame of the administration's pages, every entry of the menu leads a signed-in user with
-- the flags of the session to a page of its own, without a redirect: the menu has no dead entry.
pub menu-Opens :
    (match : String → Option Route) (s : AuthState) (current t : Target) (collapsed : Bool)
    → IsRouter match
    → s.is_authenticated ≡ true
    → Offers (go t) (view_frame s current (record { collapsed = collapsed }))
    → Opens match s t
menu-Opens match s current t c m h o =
    let (i, p, q) =
      All-Any {P = λ i. Opens match s i.0} {Q = λ i. i.0 ≡ t} (menu_items s.is_admin)
        (All-Opens match s s.is_admin m h refl) (offered_target s current t c o) in
    subst (Opens match s) q p
