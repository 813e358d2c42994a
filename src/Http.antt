-- ===== src/Http.antt =====
-- frontend/src/api/client.ts: the shared axios instance with its two interceptors. What the network
-- answers is a parameter, and may depend on all that was sent before.
pub mod Laws
pub mod Renewal
pub mod Passages
pub mod InTurn
pub mod Calls
pub mod Tests
use zhici_photo_upload_platf.Api.{Request}
use zhici_photo_upload_platf.Auth.{Session, clear_auth, set_access_token, set_auth, user}
use zhici_photo_upload_platf.Prelude.{
  Bool, List, Option, String, Text, false, if◌then◌else◌, none, not, some, suc, true, truthy, zero,
  ℕ, ◌&&◌, ◌==◌, ◌∷◌,
}

-- The request's configuration, as the interceptors read and change it.
pub record Config : Type 0 where
  pub request : Request
  -- the token of the header `Authorization: Bearer …`
  pub authorization : Option Text
  -- `_retry`
  pub retried : Bool

-- A response, or an error with the status of its response (`none` without a response).
pub data Answer : Type 0 where
  response : ℕ → Answer
  failure : Option ℕ → Answer

-- What was sent, the latest first.
pub data Event : Type 0 where
  sent : Config → Event
  refreshed : Text → Event

-- `server` answers a request; `renewal` answers `POST /auth/refresh` with an access token and, it may
-- be, a refresh token, or fails.
pub record Network : Type 0 where
  pub server : List Event → Config → Answer
  pub renewal : List Event → Text → Option (Text × Option Text)

pub record World : Type 0 where
  pub session : Session
  pub log : List Event
  -- where `window.location.href` was set to
  pub location : Option String

-- The request interceptor.
unfoldable pub authorize : Session → Config → Config
authorize s c = elim s.state.access_token [
  | none ↦ c
  | some t ↦ if truthy t then record c { authorization = some t } else c
]

abbrev pub is_401 : Option ℕ → Bool
is_401 none = false
is_401 (some n) = n == 401

-- The session is dropped and the browser sent to the login page.
unfoldable pub give_up : World → World
give_up w = record w { session = clear_auth w.session; location = some "/login" }

-- Storing what a renewal brought. With a new refresh token `setAuth` is called on the store's user;
-- without a user it throws while it reads the role, which is `none`.
unfoldable pub store_renewal : Text → Option Text → Session → Option Session
store_renewal access none s = some (set_access_token access s)
store_renewal access (some r) s =
    if truthy r
    then elim s.state.user [ none ↦ none | some u ↦ some (set_auth access r u s) ]
    else some (set_access_token access s)

-- One passage through the interceptors: the call is settled, or the request is made again.
pub data Attempt : Type 0 where
  settled : Answer → World → Attempt
  again : Config → World → Attempt

-- The renewal of the session, within the response interceptor.
unfoldable pub renew_session : Network → Option ℕ → Text → Config → World → Attempt
renew_session net status token c w =
    let w' = record w { log = refreshed token ∷ w.log } in
    elim (net.renewal w.log token) [
      | none ↦ settled (failure status) (give_up w')
      | some (access, r) ↦ elim (store_renewal access r w.session) [
        | none ↦ settled (failure status) (give_up w')
        | some s ↦ again (record c { authorization = some access }) (record w' { session = s })
      ]
    ]

unfoldable pub with_refresh_token : Network → Option ℕ → Option Text → Config → World → Attempt
unfolding renew_session
with_refresh_token net status none c w = settled (failure status) (give_up w)
with_refresh_token net status (some token) c w =
    if truthy token
    then renew_session net status token c w
    else settled (failure status) (give_up w)

-- The response interceptor's error path.
unfoldable pub on_error : Network → Option ℕ → Config → World → Attempt
unfolding with_refresh_token
on_error net status c w =
    if is_401 status && not c.retried
    then with_refresh_token net status w.session.state.refresh_token (record c { retried = true }) w
    else settled (failure status) w

unfoldable pub on_answer : Network → Answer → Config → World → Attempt
unfolding on_error
on_answer net (response n) c w = settled (response n) w
on_answer net (failure status) c w = on_error net status c w

unfoldable pub attempt : Network → Config → World → Attempt
unfolding on_answer authorize
attempt net c w =
    let c' = authorize w.session c in
    on_answer net (net.server w.log c') c' (record w { log = sent c' ∷ w.log })

-- The whole call, with fuel: `none` means that the fuel ran out. The call of itself is the retry,
-- which passes both interceptors again.
unfoldable pub client : ℕ → Network → Config → World → Option (Answer × World)
client zero net c w = none
client (suc fuel) net c w = elim (attempt net c w) [
  | settled a w' ↦ some (a, w')
  | again c' w' ↦ client fuel net c' w'
]
