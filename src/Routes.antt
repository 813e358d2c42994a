-- ===== src/Routes.antt =====
-- frontend/src/App.tsx with its guards ProtectedRoute and AdminRoute (frontend/src/components/common/),
-- and frontend/src/components/layout/AppLayout.tsx. How react-router chooses the route of an address
-- is a parameter.
pub mod Layout
pub mod Guards
pub mod Menu
pub mod Tests
use zhici_photo_upload_platf.Auth.{AuthState}
use zhici_photo_upload_platf.Prelude.{
  List, Option, String, [], if◌then◌else◌, none, some, suc, zero, ℕ, ◌∷◌,
}

pub data Page : Type 0 where
  landing_page login_page register_page gallery_page upload_page profile_page detail_page : Page
  dashboard_page users_page images_page tags_page not_found_page : Page

-- A layout route without a path of its own.
pub data Wrapper : Type 0 where
  protected_route admin_route app_layout : Wrapper

-- A route with a path, and the wrappers around it, the outermost first.
pub record Route : Type 0 where
  pub path : String
  pub wrappers : List Wrapper
  pub page : Page

abbrev route : List Wrapper → String → Page → Route
route ws p g = record { path = p; wrappers = ws; page = g }

abbrev pub admin_wrappers : List Wrapper
admin_wrappers = protected_route ∷ app_layout ∷ admin_route ∷ []

-- The routes of `App`.
abbrev pub routes : List Route
routes =
    route [] "/" landing_page
    ∷ route [] "/login" login_page
    ∷ route [] "/register" register_page
    ∷ route (protected_route ∷ []) "/gallery" gallery_page
    ∷ route (protected_route ∷ []) "/upload" upload_page
    ∷ route (protected_route ∷ []) "/profile" profile_page
    ∷ route (protected_route ∷ []) "/gallery/:id" detail_page
    ∷ route admin_wrappers "/admin" dashboard_page
    ∷ route admin_wrappers "/admin/users" users_page
    ∷ route admin_wrappers "/admin/images" images_page
    ∷ route admin_wrappers "/admin/tags" tags_page
    ∷ route [] "*" not_found_page
    ∷ []

-- What a wrapper makes of the session: the redirect that it renders in place of what it wraps.
unfoldable pub redirect : AuthState → Wrapper → Option String
redirect s protected_route = if s.is_authenticated then none else some "/login"
redirect s admin_route = if s.is_admin then none else some "/gallery"
redirect s app_layout = none

pub data Outcome : Type 0 where
  shows : Page → Outcome
  redirects : String → Outcome

-- The wrappers from the outermost in, down to the page.
unfoldable pub render : AuthState → List Wrapper → Page → Outcome
unfolding redirect
render s [] p = shows p
render s (w ∷ ws) p = elim (redirect s w) [ none ↦ render s ws p | some to ↦ redirects to ]

abbrev pub rendered : AuthState → Option Route → Outcome
rendered s none = shows not_found_page
rendered s (some r) = render s r.wrappers r.page

-- What an address shows, with redirects followed: one for each unit of fuel.
unfoldable pub visit : (match : String → Option Route) → ℕ → AuthState → String → Option Page
unfolding render
visit match zero s to = none
visit match (suc fuel) s to = elim (rendered s (match to)) [
  | shows p ↦ some p
  | redirects to' ↦ visit match fuel s to'
]
