-- ===== src/Mobile/Session/Laws.antt =====
-- What is left of a session when the app is closed and opened again.
use zhici_photo_upload_platf.Auth.{User}
use zhici_photo_upload_platf.Mobile.Session.{
  App, State, Stored, clear_auth, garbage, hydrate, initial, json, reopen, set_access_token,
  set_auth,
}
use zhici_photo_upload_platf.Prelude.{
  Option, Text, ap, arith, false, none, refl, some, true, truthy, ◌≡◌,
}

-- The store's operations once the app has been opened, as the client uses them: tokens are not empty.
-- A renewal that brings a pair of tokens sets the one and then both.
pub data Step : App → App → Type 0 where
  signs_in :
      (a : App) (access renewal : Text) (u : User)
      → truthy access ≡ true
      → Step a (set_auth access renewal u a)
  renews_pair :
      (a : App) (access renewal : Text) (u : User)
      → truthy access ≡ true
      → a.state.user ≡ some u
      → Step a (set_auth access renewal u (set_access_token access a))
  signs_out : (a : App) → Step a (clear_auth a)
  reopens : (a : App) → Step a (hydrate (reopen a))

pub data Reach (a : App) : App → Type 0 where
  start : Reach a a
  then : {b c : App} → Reach a b → Step b c → Reach a c

abbrev pub IsDurable : App → Type 0
IsDurable a = hydrate (reopen a) ≡ a

hydrate-IsDurable :
    (o : Option Stored) (s : State)
    → IsDurable (hydrate (reopen (record { storage = o; state = s })))
unfolding hydrate reopen
hydrate-IsDurable none s = refl
hydrate-IsDurable (some garbage) s = refl
hydrate-IsDurable (some (json p)) s = refl

hydrate-loaded :
    (o : Option Stored) (s : State)
    → (hydrate (record { storage = o; state = s })).state.is_loading ≡ false
unfolding hydrate
hydrate-loaded none s = refl
hydrate-loaded (some garbage) s = refl
hydrate-loaded (some (json p)) s = refl

-- The app has loaded, and closing it would lose nothing.
abbrev pub Settled : App → Type 0
Settled a = IsDurable a × (a.state.is_loading ≡ false)

pub set_auth-Settled :
    (access renewal : Text) (u : User) (a : App)
    → truthy access ≡ true
    → a.state.is_loading ≡ false
    → Settled (set_auth access renewal u a)
unfolding hydrate reopen set_auth
set_auth-Settled access renewal u a h l = (ground (arith, h, l), l)

pub clear_auth-Settled : (a : App) → a.state.is_loading ≡ false → Settled (clear_auth a)
unfolding hydrate reopen clear_auth
clear_auth-Settled a l = (ground (arith, l), l)

Step-Settled : {a b : App} → Step a b → a.state.is_loading ≡ false → Settled b
unfolding set_access_token reopen
Step-Settled (signs_in a access renewal u h) l = set_auth-Settled access renewal u a h l
Step-Settled (renews_pair a access renewal u h e) l =
    set_auth-Settled access renewal u (set_access_token access a) h l
Step-Settled (signs_out a) l = clear_auth-Settled a l
Step-Settled (reopens a) l = (hydrate-IsDurable a.storage a.state, hydrate-loaded a.storage initial)

Reach-Settled : {a b : App} → Settled a → Reach a b → Settled b
Reach-Settled v start = v
Reach-Settled v (then r st) = Step-Settled st (Reach-Settled v r).1

-- Whatever AsyncStorage held when the app was opened, and whatever sign-ins, renewals that bring a
-- pair of tokens, sign-outs and restarts followed, where the access tokens that sign-ins and renewals
-- bring are not empty: closing the app and opening it again restores the same session. But an access
-- token that comes alone is not kept: after it, the app that is opened again has the access token
-- from before.
pub reopening_changes_nothing :
    (a : App) {b : App}
    → Reach (hydrate (reopen a)) b
    → (hydrate (reopen b) ≡ b)
      × ((t : Text)
          → (hydrate (reopen (set_access_token t b))).state.access_token ≡ b.state.access_token)
unfolding reopen set_access_token hydrate
reopening_changes_nothing a r =
    let v =
      Reach-Settled (hydrate-IsDurable a.storage a.state, hydrate-loaded a.storage initial) r in
    (v.0, λ t. ap (λ (c : App). c.state.access_token) v.0)
