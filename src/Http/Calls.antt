-- ===== src/Http/Calls.antt =====
-- frontend/src/api/client.ts, with any number of calls under way at once: the interceptors are cut at
-- their waits, and the answers arrive in any order. The session is shared by all calls.
pub mod Settling
pub mod Sharing
pub mod SigningOut
pub mod Single
mod Tests
use zhici_photo_upload_platf.Api.{Request}
use zhici_photo_upload_platf.Auth.{Session}
use zhici_photo_upload_platf.Http.{
  Answer, Config, World, authorize, failure, give_up, is_401, refreshed, response, sent,
  store_renewal,
}
use zhici_photo_upload_platf.Prelude.{
  List, Option, Text, [], false, if◌then◌else◌, none, not, some, suc, true, truthy, zero, ℕ, ◌&&◌,
  ◌++◌, ◌∷◌,
}

-- Where a call is: its request is under way; a renewal is, with the token that was sent and the
-- status of the error that led to it; or the caller has its answer.
pub data Phase : Type 0 where
  waiting : Config → Phase
  renewing : (status : Option ℕ) (token : Text) → Config → Phase
  done : Answer → Phase

-- All calls, the oldest first.
pub record Pool : Type 0 where
  pub world : World
  pub calls : List Phase

-- The request interceptor, and the request.
unfoldable pub send : Config → World → Phase × World
unfolding authorize
send c w = let c' = authorize w.session c in (waiting c', record w { log = sent c' ∷ w.log })

-- `axios.post('/api/v1/auth/refresh', …)`, with the refresh token that the store has now.
unfoldable pub ask_renewal : Option ℕ → Option Text → Config → World → Phase × World
ask_renewal status none c w = (done (failure status), give_up w)
ask_renewal status (some token) c w =
    if truthy token
    then (renewing status token c, record w { log = refreshed token ∷ w.log })
    else (done (failure status), give_up w)

-- The response interceptor up to its first wait.
unfoldable pub answered : Answer → Config → World → Phase × World
answered (response n) c w = (done (response n), w)
answered (failure status) c w =
    if is_401 status && not c.retried
    then ask_renewal status w.session.state.refresh_token (record c { retried = true }) w
    else (done (failure status), w)

-- The response interceptor after that wait: `none` if the renewal failed.
unfoldable pub renewed : Option (Text × Option Text) → Option ℕ → Config → World → Phase × World
renewed none status c w = (done (failure status), give_up w)
renewed (some (access, r)) status c w = elim (store_renewal access r w.session) [
  | none ↦ (done (failure status), give_up w)
  | some s ↦ send (record c { authorization = some access }) (record w { session = s })
]

-- What the network brings to a call.
pub data Arrival : Type 0 where
  answers : Answer → Arrival
  renews : Option (Text × Option Text) → Arrival

-- Nothing else arrives than what a call waits for.
unfoldable pub advance : Arrival → Phase → World → Phase × World
advance (answers a) (waiting c) w = answered a c w
advance (answers a) (renewing status token c) w = (renewing status token c, w)
advance (answers a) (done b) w = (done b, w)
advance (renews o) (waiting c) w = (waiting c, w)
advance (renews o) (renewing status token c) w = renewed o status c w
advance (renews o) (done b) w = (done b, w)

unfoldable pub advance_at : ℕ → Arrival → List Phase → World → List Phase × World
advance_at i a [] w = ([], w)
advance_at zero a (c ∷ cs) w = let r = advance a c w in (r.0 ∷ cs, r.1)
advance_at (suc i) a (c ∷ cs) w = let r = advance_at i a cs w in (c ∷ r.0, r.1)

unfoldable pub arrive : ℕ → Arrival → Pool → Pool
arrive i a p = let r = advance_at i a p.calls p.world in record { world = r.1; calls = r.0 }

abbrev pub fresh : Request → Config
fresh q = record { request = q; authorization = none; retried = false }

-- A page makes a call.
unfoldable pub begin : Request → Pool → Pool
begin q p = let r = send (fresh q) p.world in record { world = r.1; calls = p.calls ++ r.0 ∷ [] }

-- A page changes the session.
unfoldable pub change_session : (Session → Session) → Pool → Pool
change_session f p = record p { world = record p.world { session = f p.world.session } }
