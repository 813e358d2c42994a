-- ===== src/Routes/Guards.antt =====
-- Who sees which page.
use zhici_photo_upload_platf.Auth.{AuthState}
use zhici_photo_upload_platf.Prelude.{
  All, Any, Option, String, inl, inr, none, refl, some, suc, true, ℕ, ◌≡◌, ◌⊎◌, Bool-cases, List,
  [], ◌∙◌, ◌∷◌,
}
use zhici_photo_upload_platf.Routes.{
  Page, Route, detail_page, gallery_page, landing_page, login_page, not_found_page, profile_page,
  redirect, redirects, register_page, render, rendered, routes, shows, upload_page, visit,
  admin_wrappers, protected_route, dashboard_page, images_page, tags_page, users_page,
}

-- What the router is used for: for the path of a route it picks that route, and for any other address
-- one of the routes or none.
pub record IsRouter (match : String → Option Route) : Type 0 where
  pub exact : All (λ (r : Route). match r.path ≡ some r) routes
  pub one_of : (to : String) → (match to ≡ none) ⊎ Any (λ r. match to ≡ some r) routes

-- What the session must be for a page.
abbrev pub Allowed : AuthState → Page → Type 0
Allowed s landing_page = Unit
Allowed s login_page = Unit
Allowed s register_page = Unit
Allowed s not_found_page = Unit
Allowed s gallery_page = s.is_authenticated ≡ true
Allowed s upload_page = s.is_authenticated ≡ true
Allowed s profile_page = s.is_authenticated ≡ true
Allowed s detail_page = s.is_authenticated ≡ true
Allowed s _ = (s.is_authenticated ≡ true) × (s.is_admin ≡ true)

-- An address leads to a page that the session may see.
abbrev pub Arrives : (String → Option Route) → ℕ → AuthState → String → Type 0
Arrives match fuel s to = (p : Page) × (visit match fuel s to ≡ some p) × Allowed s p

pub visit_shows :
    (match : String → Option Route) (fuel : ℕ) (s : AuthState) (to : String) (o : Option Route)
    (p : Page)
    → match to ≡ o
    → rendered s o ≡ shows p
    → visit match (suc fuel) s to ≡ some p
unfolding visit
visit_shows match fuel s to o p h e = rw (visit, h, e) refl

visit_redirects :
    (match : String → Option Route) (fuel : ℕ) (s : AuthState) (to : String) (o : Option Route)
    (to' : String)
    → match to ≡ o
    → rendered s o ≡ redirects to'
    → visit match (suc fuel) s to ≡ visit match fuel s to'
unfolding visit
visit_redirects match fuel s to o to' h e = rw (visit, h, e) refl

-- One route on its own: it shows a page that is allowed, sends an unknown visitor to the login page,
-- or sends a known one to the gallery.
abbrev Leads : AuthState → Route → Type 0
Leads s r =
    ((render s r.wrappers r.page ≡ shows r.page) × Allowed s r.page)
    ⊎ ((render s r.wrappers r.page ≡ redirects "/login")
        ⊎ ((render s r.wrappers r.page ≡ redirects "/gallery") × (s.is_authenticated ≡ true)))

Leads-protected :
    (s : AuthState) (path : String) (p : Page)
    → (s.is_authenticated ≡ true → Allowed s p)
    → Leads s (record { path = path; wrappers = protected_route ∷ []; page = p })
unfolding render redirect
Leads-protected s path p h = elim (Bool-cases s.is_authenticated) [
  | inl e ↦ inl (rw e refl, h e)
  | inr e ↦ inr (inl (rw e refl))
]

Leads-admin :
    (s : AuthState) (path : String) (p : Page)
    → ((s.is_authenticated ≡ true) × (s.is_admin ≡ true) → Allowed s p)
    → Leads s (record { path = path; wrappers = admin_wrappers; page = p })
unfolding render redirect
Leads-admin s path p h = elim (Bool-cases s.is_authenticated) [
  | inr e ↦ inr (inl (rw e refl))
  | inl e ↦ elim (Bool-cases s.is_admin) [
    | inl a ↦ inl (rw (e, a) refl, h (e, a))
    | inr a ↦ inr (inr (rw (e, a) refl, e))
  ]
]

All-Leads : (s : AuthState) → All (Leads s) routes
unfolding render
All-Leads s = (
  inl (refl, tt),
  (
    inl (refl, tt),
    (
      inl (refl, tt),
      (
        Leads-protected s "/gallery" gallery_page (λ h. h),
        (
          Leads-protected s "/upload" upload_page (λ h. h),
          (
            Leads-protected s "/profile" profile_page (λ h. h),
            (
              Leads-protected s "/gallery/:id" detail_page (λ h. h),
              (
                Leads-admin s "/admin" dashboard_page (λ h. h),
                (
                  Leads-admin s "/admin/users" users_page (λ h. h),
                  (
                    Leads-admin s "/admin/images" images_page (λ h. h),
                    (Leads-admin s "/admin/tags" tags_page (λ h. h), (inl (refl, tt), tt)),
                  ),
                ),
              ),
            ),
          ),
        ),
      ),
    ),
  ),
)

pub All-Any :
    {A : Type 0} {P Q : A → Type 0} (rs : List A) → All P rs → Any Q rs → (r : A) × P r × Q r
All-Any [] h q = absurd q
All-Any (r ∷ rs) h (inl q) = (r, h.0, q)
All-Any (r ∷ rs) h (inr q) = All-Any rs h.1 q

login_shows :
    (match : String → Option Route) (fuel : ℕ) (s : AuthState)
    → IsRouter match
    → Arrives match (suc fuel) s "/login"
unfolding render
login_shows match fuel s m =
    (login_page, visit_shows match fuel s "/login" _ login_page m.exact.1.0 refl, tt)

gallery_shows :
    (match : String → Option Route) (fuel : ℕ) (s : AuthState)
    → IsRouter match
    → s.is_authenticated ≡ true
    → Arrives match (suc fuel) s "/gallery"
unfolding render redirect
gallery_shows match fuel s m h = (
  gallery_page,
  visit_shows match fuel s "/gallery" _ gallery_page m.exact.1.1.1.0 (rw h refl),
  h,
)

-- Every address leads to a page, after at most one redirect, and to one that the session may see:
-- the gallery, the upload, the profile and an image only with the flag `isAuthenticated`, the
-- administration's four pages only with the flag `isAdmin` too.
pub every_address-Arrives :
    (match : String → Option Route) (s : AuthState) (to : String)
    → IsRouter match
    → Arrives match 2 s to
every_address-Arrives match s to m = elim (m.one_of to) [
  | inl e ↦ (not_found_page, visit_shows match 1 s to none not_found_page e refl, tt)
  | inr k ↦
      let (r, l, e) = All-Any {P = Leads s} {Q = λ r. match to ≡ some r} routes (All-Leads s) k in
      elim l [
        | inl (h, a) ↦ (r.page, visit_shows match 1 s to (some r) r.page e h, a)
        | inr (inl h) ↦
            let (p, q, a) = login_shows match 0 s m in
            (p, visit_redirects match 1 s to (some r) "/login" e h ∙ q, a)
        | inr (inr (h, c)) ↦
            let (p, q, a) = gallery_shows match 0 s m c in
            (p, visit_redirects match 1 s to (some r) "/gallery" e h ∙ q, a)
      ]
]
