-- ===== src/Mobile/Session.antt =====
-- mobile/src/store/authStore.ts: the session in the store's memory and under one key of AsyncStorage.
-- A write to AsyncStorage, which the store does not wait for, is taken to be done at once.
pub mod Laws
pub mod Tests
use zhici_photo_upload_platf.Auth.{User, is_admin_role, is_admin_user, present, user}
use zhici_photo_upload_platf.Prelude.{Bool, Option, Text, false, none, some, true}

-- What is written as JSON.
pub record Payload : Type 0 where
  pub access_token : Option Text
  pub refresh_token : Option Text
  pub user : Option User

-- The text under the key: what it stands for, or that it throws when it is read.
pub data Stored : Type 0 where
  json : Payload → Stored
  garbage : Stored

pub record State : Type 0 where
  pub access_token : Option Text
  pub refresh_token : Option Text
  pub user : Option User
  pub is_authenticated : Bool
  pub is_admin : Bool
  pub is_loading : Bool

-- The app: what AsyncStorage holds, and the store.
pub record App : Type 0 where
  pub storage : Option Stored
  pub state : State

abbrev pub initial : State
initial = record {
  access_token = none;
  refresh_token = none;
  user = none;
  is_authenticated = false;
  is_admin = false;
  is_loading = true;
}

-- The app is closed and opened again: only the storage stays.
unfoldable pub reopen : App → App
reopen a = record { storage = a.storage; state = initial }

unfoldable pub set_auth : Text → Text → User → App → App
set_auth access renewal u a = record {
  storage =
      some
        (json (record { access_token = some access; refresh_token = some renewal; user = some u }));
  state = record {
    access_token = some access;
    refresh_token = some renewal;
    user = some u;
    is_authenticated = true;
    is_admin = is_admin_role u.role;
    is_loading = a.state.is_loading;
  };
}

unfoldable pub set_access_token : Text → App → App
set_access_token t a = record a { state = record a.state { access_token = some t } }

unfoldable pub clear_auth : App → App
clear_auth a = record {
  storage = none;
  state = record {
    access_token = none;
    refresh_token = none;
    user = none;
    is_authenticated = false;
    is_admin = false;
    is_loading = a.state.is_loading;
  };
}

abbrev loaded : State → State
loaded s = record s { is_loading = false }

abbrev hydrated : Option Stored → State → State
hydrated none s = loaded s
hydrated (some garbage) s = loaded s
hydrated (some (json p)) s = record {
  access_token = p.access_token;
  refresh_token = p.refresh_token;
  user = p.user;
  is_authenticated = present p.access_token;
  is_admin = is_admin_user p.user;
  is_loading = false;
}

unfoldable pub hydrate : App → App
hydrate a = record a { state = hydrated a.storage a.state }
