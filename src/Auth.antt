-- ===== src/Auth.antt =====
-- frontend/src/store/authStore.ts: the session, in the store's memory and in `localStorage`.
pub mod Laws
pub mod Tests
use zhici_photo_upload_platf.Prelude.{Bool, Option, Text, false, none, some, true, truthy, ℕ, ◌&&◌}

pub data Role : Type 0 where
  user admin : Role

pub record User : Type 0 where
  pub id : ℕ
  pub username : Text
  pub email : Text
  pub role : Role
  pub avatar_url : Option Text
  pub storage_used : ℕ

-- What `JSON.parse` makes of the text under the key `user`: `null` or a user, or it throws.
pub data StoredUser : Type 0 where
  json : Option User → StoredUser
  garbage : StoredUser

-- The three keys of `localStorage`.
pub record Storage : Type 0 where
  pub access_token : Option Text
  pub refresh_token : Option Text
  pub user : Option StoredUser

pub record Stored : Type 0 where
  pub access_token : Option Text
  pub refresh_token : Option Text
  pub user : Option User

pub record AuthState : Type 0 where
  pub access_token : Option Text
  pub refresh_token : Option Text
  pub user : Option User
  pub is_authenticated : Bool
  pub is_admin : Bool

-- The store together with the browser's storage.
pub record Session : Type 0 where
  pub storage : Storage
  pub state : AuthState

abbrev pub empty_storage : Storage
empty_storage = record { access_token = none; refresh_token = none; user = none }

abbrev pub signed_out : AuthState
signed_out = record {
  access_token = none;
  refresh_token = none;
  user = none;
  is_authenticated = false;
  is_admin = false;
}

-- `!!token`.
abbrev pub present : Option Text → Bool
present none = false
present (some t) = truthy t

-- `!!user`.
abbrev pub is_some : Option User → Bool
is_some none = false
is_some (some u) = true

abbrev pub is_admin_role : Role → Bool
is_admin_role user = false
is_admin_role admin = true

-- `user?.role === 'admin'`.
abbrev pub is_admin_user : Option User → Bool
is_admin_user none = false
is_admin_user (some u) = is_admin_role u.role

stored_with : Storage → Option StoredUser → Stored
stored_with s none = record {
  access_token = s.access_token;
  refresh_token = s.refresh_token;
  user = none;
}
stored_with s (some (json u)) = record {
  access_token = s.access_token;
  refresh_token = s.refresh_token;
  user = u;
}
stored_with s (some garbage) = record { access_token = none; refresh_token = none; user = none }

-- A missing `user` is read as the text `null`; a text that does not parse voids all three keys.
unfoldable pub get_stored : Storage → Stored
unfolding stored_with
get_stored s = stored_with s s.user

-- The state that the store starts with, and that `loadFromStorage` sets.
unfoldable pub state_of : Stored → AuthState
state_of s = record {
  access_token = s.access_token;
  refresh_token = s.refresh_token;
  user = s.user;
  is_authenticated = present s.access_token && is_some s.user;
  is_admin = is_admin_user s.user;
}

-- Loading the module.
unfoldable pub open_app : Storage → Session
unfolding state_of get_stored
open_app s = record { storage = s; state = state_of (get_stored s) }

unfoldable pub set_auth : Text → Text → User → Session → Session
set_auth access refresh u s = record {
  storage = record {
    access_token = some access;
    refresh_token = some refresh;
    user = some (json (some u));
  };
  state = record {
    access_token = some access;
    refresh_token = some refresh;
    user = some u;
    is_authenticated = true;
    is_admin = is_admin_role u.role;
  };
}

unfoldable pub set_access_token : Text → Session → Session
set_access_token token s = record {
  storage = record {
    access_token = some token;
    refresh_token = s.storage.refresh_token;
    user = s.storage.user;
  };
  state = record {
    access_token = some token;
    refresh_token = s.state.refresh_token;
    user = s.state.user;
    is_authenticated = s.state.is_authenticated;
    is_admin = s.state.is_admin;
  };
}

unfoldable pub clear_auth : Session → Session
clear_auth s = record { storage = empty_storage; state = signed_out }

unfoldable pub load_from_storage : Session → Session
unfolding state_of get_stored
load_from_storage s = record { storage = s.storage; state = state_of (get_stored s.storage) }
