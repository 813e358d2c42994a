-- ===== src/Mobile/Device.antt =====
-- What the handlers of the screens in mobile/src/screens do, and the screens that
-- mobile/src/navigation/RootNavigator.tsx names.
use zhici_photo_upload_platf.Api.{Call}
use zhici_photo_upload_platf.Auth.{User}
use zhici_photo_upload_platf.Prelude.{Option, String, Text, ℕ}

pub data Screen : Type 0 where
  landing_screen register_screen main_tabs : Screen
  -- with the parameter `id` or without
  login_screen : Option ℕ → Screen
  -- `ImageDetail` with its parameter, of the stack that the screen is in
  image_detail : ℕ → Screen
  -- the same within the tab 图库
  gallery_detail : ℕ → Screen

pub data Effect : Type 0 where
  call : Call → Effect
  invalidate : String → Option ℕ → Effect
  navigate : Screen → Effect
  go_back : Effect
  alert : (title : String) → Effect
  -- `setAuth` and `clearAuth` of the session's store
  set_auth : (access refresh : Text) → User → Effect
  clear_auth : Effect
