-- ===== src/Routes/Tests.antt =====
-- A router that compares paths, and the theorems with it.
use zhici_photo_upload_platf.Auth.{set_auth}
use zhici_photo_upload_platf.Auth.Tests.{signed_session}
use zhici_photo_upload_platf.Prelude.{
  Any, Bool, Bool-cases, List, Offers, Option, String, [], false, find, inl, inr, none, refl, some,
  str_eq, true, ◌∷◌, ◌≡◌, ◌⊎◌, flat_map, sym,
}
use zhici_photo_upload_platf.Routes.{Route, routes}
use zhici_photo_upload_platf.Routes.Guards.{Arrives, IsRouter, every_address-Arrives}
use zhici_photo_upload_platf.Routes.Layout.{Target, go, menu_items, menu_node, view_frame}

abbrev pub exact_match : String → Option Route
exact_match to = find (λ (r : Route). str_eq r.path to) routes

find-Any :
    {A : Type 0} (p : A → Bool) (xs : List A) (o : Option A)
    → find p xs ≡ o
    → (o ≡ none) ⊎ Any (λ x. o ≡ some x) xs
find-Any p [] o e = inl (sym e)
find-Any p (x ∷ xs) o e = elim (Bool-cases (p x)) [
  | inl q ↦ inr (inl (sym (rw q at e)))
  | inr q ↦ elim (find-Any p xs o (rw q at e)) [ inl n ↦ inl n | inr h ↦ inr (inr h) ]
]

pub exact_match-IsRouter : IsRouter exact_match
exact_match-IsRouter = record {
  exact = (
    refl,
    (refl, (refl, (refl, (refl, (refl, (refl, (refl, (refl, (refl, (refl, (refl, tt))))))))))),
  );
  one_of = λ to. find-Any (λ (r : Route). str_eq r.path to) routes (exact_match to) refl;
}

admin-Arrives : Arrives exact_match 2 signed_session.state "/admin/users"
admin-Arrives =
    every_address-Arrives exact_match signed_session.state "/admin/users" exact_match-IsRouter

abbrev users_target : Target
users_target = record { path = "/admin/users"; query = "" }

pub signed_session-admin : signed_session.state.is_admin ≡ true
unfolding set_auth
signed_session-admin = refl

pub signed_session-authenticated : signed_session.state.is_authenticated ≡ true
unfolding set_auth
signed_session-authenticated = refl

users_offered :
    Offers
      (go users_target)
      (view_frame signed_session.state users_target (record { collapsed = false }))
unfolding view_frame menu_items menu_node set_auth flat_map
users_offered = inr (inr (inr (inr (inr (inr (inr (inr (inr (inr (inl (refl, refl)))))))))))
