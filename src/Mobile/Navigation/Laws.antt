-- ===== src/Mobile/Navigation/Laws.antt =====
-- Who gets to the tabs.
use zhici_photo_upload_platf.Auth.{User}
use zhici_photo_upload_platf.Mobile.Navigation.{
  State, auth_changed, initial, inside, opened, outside, session_changed, timer_over,
}
use zhici_photo_upload_platf.Mobile.Session.{App, set_auth}
use zhici_photo_upload_platf.Prelude.{
  Bool, Text, arith, false, refl, true, ◌↔◌, ◌≡◌, ◌≤◌, suc, zero, ℕ,
}

-- What happens to the navigator: the session's flag turns to a value, a timer is over, or an image is
-- opened on the landing screen. The flag goes with the state.
pub data Step : Bool × State → Bool × State → Type 0 where
  changes : (a b : Bool) (s : State) → Step (a, s) (b, auth_changed b s)
  times_out : (a : Bool) (s : State) → 1 ≤ s.timers → Step (a, s) (a, timer_over a s)
  opens : (a : Bool) (s : State) → Step (a, s) (a, opened a s)

pub data Reach (x : Bool × State) : Bool × State → Type 0 where
  here : Reach x x
  next : {y z : Bool × State} → Reach x y → Step y z → Reach x z

-- The tabs are shown with a session only.
abbrev Guarded : Bool × State → Type 0
Guarded (a, s) = s.place ≡ inside → a ≡ true

changed_outside : (s : State) → (auth_changed false s).place ≡ outside
unfolding auth_changed
changed_outside s = ground arith

Step-Guarded : {x y : Bool × State} → Step x y → Guarded x → Guarded y
unfolding timer_over opened
Step-Guarded (changes a true s) g h = refl
Step-Guarded (changes a false s) g h = cc (changed_outside s)
Step-Guarded (times_out true s t) g h = refl
Step-Guarded (times_out false s t) g h = cc
Step-Guarded (opens true s) g h = refl
Step-Guarded (opens false s) g h = g h

Reach-Guarded : {x y : Bool × State} → Guarded x → Reach x y → Guarded y
Reach-Guarded g here = g
Reach-Guarded g (next r st) = Step-Guarded st (Reach-Guarded g r)

-- Whatever order the session's changes, the timers and the presses on the landing screen come in,
-- the tabs are shown only while there is a session: a sign-out while a timer runs is noticed too.
pub inside_with_session :
    (opened_with : Bool) {a : Bool} {s : State}
    → Reach (opened_with, initial opened_with) (a, s)
    → s.place ≡ inside
    → a ≡ true
unfolding initial
inside_with_session b r = Reach-Guarded {x = (b, initial b)} (λ h. cc) r

-- The timers that run come to their end, one after the other.
unfoldable pub timers_over : ℕ → Bool → State → State
timers_over zero auth s = s
timers_over (suc n) auth s = timers_over n auth (timer_over auth s)

-- The app is opened, the timers that its first render may have started are over, the user signs in, and
-- the timers are over.
abbrev pub signed_in_state : App → Text → Text → User → State
signed_in_state a access renewal u =
    let flag = a.state.is_authenticated in
    let opened = timers_over (initial flag).timers flag (initial flag) in
    let s = session_changed a.state (set_auth access renewal u a).state opened in
    timers_over s.timers true s

-- Signing in leads to the tabs exactly if the app was opened without a session: with one, the app
-- stays on the landing screen when it is opened, and signing in again leads nowhere.
pub sign_in_leads_in_iff :
    (a : App) (access renewal : Text) (u : User)
    → ((signed_in_state a access renewal u).place ≡ inside) ↔ (a.state.is_authenticated ≡ false)
unfolding session_changed auth_changed timer_over timers_over initial set_auth
sign_in_leads_in_iff a access renewal u = ground arith
