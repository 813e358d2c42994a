-- ===== src/Mobile/Navigation.antt =====
-- mobile/src/navigation/RootNavigator.tsx and mobile/App.tsx: what is shown first, the tabs, and where
-- the effects send the user when the session changes.
pub mod Laws
mod Tests
use zhici_photo_upload_platf.Mobile.Session
use zhici_photo_upload_platf.Auth.{Session}
use zhici_photo_upload_platf.Prelude.{
  Bool, List, [], false, if◌then◌else◌, not, true, ℕ, ◌&&◌, ◌+◌, ◌-◌, ◌∷◌,
}

-- What `App` shows: nothing until the session has been read.
unfoldable pub shows_navigator : Session.State → Bool
shows_navigator s = not s.is_loading

pub data TabName : Type 0 where
  gallery_tab upload_tab profile_tab admin_tab : TabName

-- `MainTabs`
unfoldable pub tabs : Bool → List TabName
tabs is_admin = gallery_tab ∷ upload_tab ∷ profile_tab ∷ (if is_admin then admin_tab ∷ [] else [])

-- Where the navigator stands, as far as it matters here: within the tabs or before them.
pub data Place : Type 0 where
  outside inside : Place

-- The navigator: where it stands, the reference `prevAuth`, and how many timers of 50 ms that lead to
-- the tabs are running.
pub record State : Type 0 where
  pub place : Place
  pub prev_auth : Bool
  pub timers : ℕ

-- `useRef(isAuthenticated)`, on the first screen of the stack, which is not the tabs.
abbrev unmounted : Bool → State
unmounted is_authenticated = record { place = outside; prev_auth = is_authenticated; timers = 0 }

-- The effect of `RootNavigator`, which runs after the first render and for each changed flag.
abbrev root_effect : Bool → State → State
root_effect auth s = record s {
  timers = if not s.prev_auth && auth then s.timers + 1 else s.timers;
  prev_auth = auth;
}

-- The navigator is mounted: the first run of the effect.
unfoldable pub initial : Bool → State
initial is_authenticated = root_effect is_authenticated (unmounted is_authenticated)

-- The effect of `MainTabs`, which is there only once the tabs are shown.
abbrev tabs_effect : Bool → State → State
tabs_effect auth s = elim s.place [
  | outside ↦ s
  | inside ↦ if auth then s else record s { place = outside }
]

abbrev same_flag : Bool → Bool → Bool
same_flag true b = b
same_flag false b = not b

-- The session's flag has changed to a value: the effect of the child runs before that of the parent.
unfoldable pub auth_changed : Bool → State → State
auth_changed auth s = root_effect auth (tabs_effect auth s)

-- The session has changed from one state to another: the screens are only told if the flag has.
unfoldable pub session_changed : Session.State → Session.State → State → State
unfolding auth_changed
session_changed from to s =
    if same_flag from.is_authenticated to.is_authenticated
    then s
    else auth_changed to.is_authenticated s

-- A timer is over: the tabs are shown, and if they were not there before, their effect runs with the
-- session's flag as it is.
unfoldable pub timer_over : Bool → State → State
timer_over auth s = tabs_effect auth (record s { place = inside; timers = s.timers - 1 })

-- An image is opened on the landing screen, which leads to the tabs with a session only.
unfoldable pub opened : Bool → State → State
opened auth s = if auth then record s { place = inside } else s
