-- ===== src/Mobile/Client.antt =====
-- mobile/src/api/client.ts: the mobile client's axios instance with its two interceptors. The network
-- is the same parameter as that of the web client.
pub mod Laws
pub mod Web
pub mod Calls
mod Tests
use zhici_photo_upload_platf.Auth.{user}
use zhici_photo_upload_platf.Http.{
  Answer, Config, Event, Network, failure, is_401, refreshed, response, sent,
}
use zhici_photo_upload_platf.Mobile.Session.{App, clear_auth, set_access_token, set_auth}
use zhici_photo_upload_platf.Mobile.Session.Laws.{then}
use zhici_photo_upload_platf.Prelude.{
  List, Option, Text, if◌then◌else◌, none, not, some, suc, true, truthy, zero, ℕ, ◌&&◌, ◌∷◌,
}

pub record World : Type 0 where
  pub app : App
  pub log : List Event

-- The request interceptor.
unfoldable pub authorize : App → Config → Config
authorize a c = elim a.state.access_token [
  | none ↦ c
  | some t ↦ if truthy t then record c { authorization = some t } else c
]

-- The session is dropped.
unfoldable pub give_up : World → World
give_up w = record w { app = clear_auth w.app }

-- Storing what a renewal brought: the access token, and then both tokens if there is a new refresh
-- token. Without a user `setAuth` throws while it reads the role, which is `none`; the session that
-- was half stored is dropped then.
unfoldable pub store_renewal : Text → Option Text → App → Option App
store_renewal access none a = some (set_access_token access a)
store_renewal access (some r) a =
    let a' = set_access_token access a in
    if truthy r
    then elim a'.state.user [ none ↦ none | some u ↦ some (set_auth access r u a') ]
    else some a'

-- One passage through the interceptors: the call is settled, or the request is made again.
pub data Attempt : Type 0 where
  settled : Answer → World → Attempt
  again : Config → World → Attempt

-- The renewal of the session, within the response interceptor.
unfoldable pub renew_session : Network → Option ℕ → Text → Config → World → Attempt
renew_session net status token c w =
    let w' = record w { log = refreshed token ∷ w.log } in
    elim (net.renewal w.log token) [
      | none ↦ settled (failure status) (give_up w')
      | some (access, r) ↦ elim (store_renewal access r w.app) [
        | none ↦ settled (failure status) (give_up w')
        | some a ↦ again (record c { authorization = some access }) (record w' { app = a })
      ]
    ]

unfoldable pub with_refresh_token : Network → Option ℕ → Option Text → Config → World → Attempt
with_refresh_token net status none c w = settled (failure status) (give_up w)
with_refresh_token net status (some token) c w =
    if truthy token
    then renew_session net status token c w
    else settled (failure status) (give_up w)

-- The response interceptor's error path.
unfoldable pub on_error : Network → Option ℕ → Config → World → Attempt
on_error net status c w =
    if is_401 status && not c.retried
    then with_refresh_token net status w.app.state.refresh_token (record c { retried = true }) w
    else settled (failure status) w

unfoldable pub on_answer : Network → Answer → Config → World → Attempt
on_answer net (response n) c w = settled (response n) w
on_answer net (failure status) c w = on_error net status c w

unfoldable pub attempt : Network → Config → World → Attempt
attempt net c w =
    let c' = authorize w.app c in
    on_answer net (net.server w.log c') c' (record w { log = sent c' ∷ w.log })

-- The whole call, with fuel: `none` means that the fuel ran out.
unfoldable pub client : ℕ → Network → Config → World → Option (Answer × World)
client zero net c w = none
client (suc fuel) net c w = elim (attempt net c w) [
  | settled a w' ↦ some (a, w')
  | again c' w' ↦ client fuel net c' w'
]
