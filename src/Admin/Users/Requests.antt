-- ===== src/Admin/Users/Requests.antt =====
-- What the users' page asks of the backend.
use zhici_photo_upload_platf.Admin.Users.{
  Msg, Row, State, reset, reset_password, set_page, set_search, update, user_row, view_page,
}
use zhici_photo_upload_platf.Api.{reset_user_password}
use zhici_photo_upload_platf.Media.{call, error}
use zhici_photo_upload_platf.Prelude.{
  Any, List, Offers, Offers-append, Offers-flat_map, Text, [], arith, flat_map, inl, inr, length,
  lit, ltb_of_le, ltb_of_lt, none, refl, some, ℕ, ◌+◌, ◌-◌, ◌/◌, ◌<◌, ◌∷◌, ◌≡◌, ◌≢◌, ◌≤◌,
}

-- Resetting a password asks for one of at least 6 code units: no answer and an empty one do nothing,
-- a shorter one only brings the complaint, and any other is sent for that user.
pub reset_password_lem :
    (id : ℕ) (p : Text) (s : State)
    → (update (reset_password id none) s ≡ (s, []))
      × (update (reset_password id (some [])) s ≡ (s, []))
      × (6 ≤ length p
          → update (reset_password id (some p)) s ≡ (s, call (reset_user_password id p) ∷ []))
      × (p ≢ []
          → length p < 6
          → update (reset_password id (some p)) s ≡ (s, error (lit "密码至少6位" ∷ []) ∷ []))
unfolding update reset
reset_password_lem id [] s = (refl, refl, λ l. absurd (omega (arith, l)), λ n l. absurd (n refl))
reset_password_lem id (c ∷ p) s = (
  refl,
  refl,
  λ l. rw (ltb_of_le (length (c ∷ p)) 6 l) refl,
  λ n l. rw (ltb_of_lt (length (c ∷ p)) 6 l) refl,
)

-- The page of a list of so many users is one of those that there are.
abbrev pub InRange : ℕ → ℕ → Type 0
InRange total page = (1 ≤ page) × (page ≤ 1 + (total - 1) / 20)

set_page-rows : (p : ℕ) (rs : List Row) → ¬ Any (λ r. Offers (set_page p) (user_row r)) rs
unfolding user_row
set_page-rows p [] o = o
set_page-rows p (r ∷ rs) (inl o) = ground arith
set_page-rows p (r ∷ rs) (inr o) = set_page-rows p rs o

set_page-InRange :
    (p : ℕ) (users : List Row) (total : ℕ) (s : State)
    → Offers (set_page p) (view_page users total s)
    → InRange total p
unfolding view_page
set_page-InRange p users total s (inl o) = absurd o
set_page-InRange p users total s (inr (inl (t, e))) = absurd (cc)
set_page-InRange p users total s (inr (inr o)) =
    elim (Offers-append (set_page p) (flat_map user_row users) _ o) [
      | inl k ↦ absurd (set_page-rows p users (Offers-flat_map (set_page p) user_row users k))
      | inr (inl (q, h, l, e)) ↦ ground arith
      | inr (inr k) ↦ absurd k
    ]

-- Whatever the user does on the page, the list that is asked for stays in the range of the users
-- that the page counts; and a search asks for the first page of what it finds.
pub users_page-InRange :
    (m : Msg) (users : List Row) (total : ℕ) (s : State)
    → InRange total s.page
    → Offers m (view_page users total s)
    → InRange total (update m s).0.page
unfolding update
users_page-InRange (set_search t) users total s h o = ground arith
users_page-InRange (set_page p) users total s h o = set_page-InRange p users total s o
users_page-InRange m users total s h o = h
