-- ===== src/Auth/Laws.antt =====
-- The store's memory and the browser's storage tell the same session.
use zhici_photo_upload_platf.Auth.{
  AuthState, Session, Storage, User, clear_auth, get_stored, is_admin_user, is_some,
  load_from_storage, open_app, present, set_access_token, set_auth, state_of,
}
use zhici_photo_upload_platf.Prelude.{Text, ap, arith, refl, sym, true, truthy, ◌&&◌, ◌≡◌}

-- The state is what a reload of the page would read.
pub record IsSynced (s : Session) : Type 0 where
  pub same : s.state ≡ state_of (get_stored s.storage)

-- The flags agree with the token and the user that they are computed from.
pub record IsCoherent (s : AuthState) : Type 0 where
  pub authenticated : s.is_authenticated ≡ (present s.access_token && is_some s.user)
  pub administrator : s.is_admin ≡ is_admin_user s.user

-- The store's operations, as the client uses them: tokens are not empty texts, and a token alone is
-- replaced only while signed in.
pub data Step : Session → Session → Type 0 where
  sign_in :
      (s : Session) (access refresh : Text) (u : User)
      → truthy access ≡ true
      → Step s (set_auth access refresh u s)
  renew :
      (s : Session) (token : Text)
      → truthy token ≡ true
      → s.state.is_authenticated ≡ true
      → Step s (set_access_token token s)
  sign_out : (s : Session) → Step s (clear_auth s)
  load : (s : Session) → Step s (load_from_storage s)

pub data Reach (s : Session) : Session → Type 0 where
  here : Reach s s
  next : {t u : Session} → Reach s t → Step t u → Reach s u

pub open_app-IsSynced : (s : Storage) → IsSynced (open_app s)
unfolding open_app
open_app-IsSynced s = record { same = refl }

pub set_auth-IsSynced :
    (access refresh : Text) (u : User) (s : Session)
    → truthy access ≡ true
    → IsSynced (set_auth access refresh u s)
unfolding set_auth state_of get_stored
set_auth-IsSynced access refresh u s h = record { same = ground arith }

pub clear_auth-IsSynced : (s : Session) → IsSynced (clear_auth s)
unfolding clear_auth state_of get_stored
clear_auth-IsSynced s = record { same = refl }

pub set_access_token-IsSynced :
    (token : Text) (s : Session)
    → truthy token ≡ true
    → s.state.is_authenticated ≡ true
    → IsSynced s
    → IsSynced (set_access_token token s)
unfolding set_access_token state_of get_stored
set_access_token-IsSynced token s h a v = record { same = ground (arith, v.same) }

pub Step-IsSynced : {s t : Session} → Step s t → IsSynced s → IsSynced t
unfolding load_from_storage
Step-IsSynced (sign_in s access refresh u h) v = set_auth-IsSynced access refresh u s h
Step-IsSynced (renew s token h a) v = set_access_token-IsSynced token s h a v
Step-IsSynced (sign_out s) v = clear_auth-IsSynced s
Step-IsSynced (load s) v = record { same = refl }

Reach-IsSynced : {s t : Session} → IsSynced s → Reach s t → IsSynced t
Reach-IsSynced v here = v
Reach-IsSynced v (next r st) = Step-IsSynced st (Reach-IsSynced v r)

-- Whatever the storage held when the page was opened, and whatever sequence of sign-ins, token
-- renewals while signed in, sign-outs and reloads follows, where the access tokens that sign-ins and
-- renewals bring are not empty: a reload of the page changes nothing of the session.
pub reload_changes_nothing :
    (start : Storage) {s : Session} → Reach (open_app start) s → load_from_storage s ≡ s
unfolding load_from_storage
reload_changes_nothing start {s} r =
    ap (λ (t : AuthState). record { storage = s.storage; state = t })
      (sym (Reach-IsSynced (open_app-IsSynced start) r).same)

-- In each session that is reached so from whatever the storage held, the flag `isAuthenticated` is set exactly when there is a token and a
-- user, and `isAdmin` exactly when the user is an administrator.
pub Reach-IsCoherent :
    (start : Storage) {s : Session} → Reach (open_app start) s → IsCoherent s.state
unfolding state_of
Reach-IsCoherent start {s} r =
    let v = Reach-IsSynced (open_app-IsSynced start) r in
    rw v.same (record { authenticated = refl; administrator = refl })
