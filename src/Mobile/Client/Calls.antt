-- ===== src/Mobile/Client/Calls.antt =====
-- mobile/src/api/client.ts, with any number of calls under way at once: the interceptors are cut at
-- their waits as those of the web client are in Http/Calls, whose phases and arrivals they share.
pub mod Alike
use zhici_photo_upload_platf.Api.{Request}
use zhici_photo_upload_platf.Http.{Answer, Config, failure, is_401, refreshed, response, sent}
use zhici_photo_upload_platf.Mobile.Client.{World, authorize, give_up, store_renewal}
use zhici_photo_upload_platf.Http.Calls.{
  Arrival, Phase, answers, done, fresh, renewing, renews, waiting,
}
use zhici_photo_upload_platf.Mobile.Session.{App}
use zhici_photo_upload_platf.Prelude.{
  List, Option, Text, [], if◌then◌else◌, none, not, some, suc, true, truthy, zero, ℕ, ◌&&◌, ◌++◌,
  ◌∷◌,
}

-- All calls, the oldest first.
pub record Pool : Type 0 where
  pub world : World
  pub calls : List Phase

-- The request interceptor, and the request.
unfoldable pub send : Config → World → Phase × World
unfolding authorize
send c w = let c' = authorize w.app c in (waiting c', record w { log = sent c' ∷ w.log })

-- `axios.post('…/auth/refresh', …)`, with the refresh token that the store has now.
unfoldable pub ask_renewal : Option ℕ → Option Text → Config → World → Phase × World
ask_renewal status none c w = (done (failure status), give_up w)
ask_renewal status (some token) c w =
    if truthy token
    then (renewing status token c, record w { log = refreshed token ∷ w.log })
    else (done (failure status), give_up w)

-- The response interceptor up to its first wait.
unfoldable pub answered : Answer → Config → World → Phase × World
answered (response n) c w = (done (response n), w)
answered (failure status) c w =
    if is_401 status && not c.retried
    then ask_renewal status w.app.state.refresh_token (record c { retried = true }) w
    else (done (failure status), w)

-- The response interceptor after that wait: `none` if the renewal failed.
unfoldable pub renewed : Option (Text × Option Text) → Option ℕ → Config → World → Phase × World
renewed none status c w = (done (failure status), give_up w)
renewed (some (access, r)) status c w = elim (store_renewal access r w.app) [
  | none ↦ (done (failure status), give_up w)
  | some a ↦ send (record c { authorization = some access }) (record w { app = a })
]

-- Nothing else arrives than what a call waits for.
unfoldable pub advance : Arrival → Phase → World → Phase × World
advance (answers a) (waiting c) w = answered a c w
advance (answers a) (renewing status token c) w = (renewing status token c, w)
advance (answers a) (done b) w = (done b, w)
advance (renews o) (waiting c) w = (waiting c, w)
advance (renews o) (renewing status token c) w = renewed o status c w
advance (renews o) (done b) w = (done b, w)

unfoldable pub advance_at : ℕ → Arrival → List Phase → World → List Phase × World
advance_at i a [] w = ([], w)
advance_at zero a (c ∷ cs) w = let r = advance a c w in (r.0 ∷ cs, r.1)
advance_at (suc i) a (c ∷ cs) w = let r = advance_at i a cs w in (c ∷ r.0, r.1)

unfoldable pub arrive : ℕ → Arrival → Pool → Pool
arrive i a p = let r = advance_at i a p.calls p.world in record { world = r.1; calls = r.0 }

-- A screen makes a call.
unfoldable pub begin : Request → Pool → Pool
begin q p = let r = send (fresh q) p.world in record { world = r.1; calls = p.calls ++ r.0 ∷ [] }

-- A screen changes the session.
unfoldable pub change_app : (App → App) → Pool → Pool
change_app f p = record p { world = record p.world { app = f p.world.app } }
