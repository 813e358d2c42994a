-- ===== src/Http/Calls/Tests.antt =====
-- Two calls at once, and the theorems at them.
use zhici_photo_upload_platf.Auth.{clear_auth, set_auth, User}
use zhici_photo_upload_platf.Auth.Laws.{IsSynced}
use zhici_photo_upload_platf.Auth.Tests.{ann, signed_session}
use zhici_photo_upload_platf.Http.{World, authorize, failure, Event, Config, refreshed, sent}
use zhici_photo_upload_platf.Http.Calls.{
  Arrival, Pool, answers, arrive, begin, renews, renewing, send, change_session, done, waiting,
}
use zhici_photo_upload_platf.Http.Calls.Settling.{Always, Awaited, IsSettled, Run, calls_settle}
use zhici_photo_upload_platf.Http.Calls.Sharing.{
  BringsPairs, KeepsSynced, both_refused, calls-IsSynced, renewals_race, again_with,
}
use zhici_photo_upload_platf.Http.Tests.{get_me, signed_session-IsSynced}
use zhici_photo_upload_platf.Prelude.{
  All, [], codes, length, none, refl, some, true, ℕ, ◌*◌, ◌∷◌, ◌≡◌, ◌≤◌, ◌⊎◌, List, ◌++◌,
}
use zhici_photo_upload_platf.Http.Calls.SigningOut.{
  IsBare, KeepsOut, no_session, renewal_mixes_users, signed_out_stays,
}

abbrev world : World
world = record { session = signed_session; log = []; location = none }

abbrev alone : Pool
alone = begin get_me.request (record { world = world; calls = [] })

abbrev refusal : Arrival
refusal = answers (failure (some 401))

alone-Run : Run Always Always (record { world = world; calls = [] }) 1 (arrive 0 refusal alone)
unfolding begin send authorize
alone-Run = Run.arrives (Run.begins Run.start get_me.request) 0 refusal tt tt

alone_settles :
    (1 ≤ 3 * length (arrive 0 refusal alone).calls)
    × (All IsSettled (arrive 0 refusal alone).calls
        ⊎ ((i : ℕ) × (a : Arrival) × Awaited i a (arrive 0 refusal alone).calls))
alone_settles = calls_settle world alone-Run

alone-BringsPairs :
    Run BringsPairs KeepsSynced (record { world = world; calls = [] }) 1 (arrive 0 refusal alone)
unfolding begin send authorize
alone-BringsPairs = Run.arrives (Run.begins Run.start get_me.request) 0 refusal tt tt

alone-IsSynced : IsSynced (arrive 0 refusal alone).world.session
alone-IsSynced = calls-IsSynced signed_session-IsSynced alone-BringsPairs

signed_session_token : signed_session.state.refresh_token ≡ some (codes "r1")
unfolding set_auth
signed_session_token = refl

signed_session_user : signed_session.state.user ≡ some ann
unfolding set_auth
signed_session_user = refl

get_me_race :
    let p = both_refused world get_me get_me in
    let q = arrive 0 (renews (some (codes "a2", some (codes "r2")))) p in
    let z = arrive 1 (renews none) q in
    (p.world.log ≡ refreshed (codes "r1") ∷ refreshed (codes "r1") ∷ world.log)
    × (q.world.session ≡ set_auth (codes "a2") (codes "r2") ann world.session)
    × (q.world.log
        ≡ sent (again_with (codes "a2") get_me)
          ∷ refreshed (codes "r1")
          ∷ refreshed (codes "r1")
          ∷ world.log)
    × (z.calls ≡ waiting (again_with (codes "a2") get_me) ∷ done (failure (some 401)) ∷ [])
    × (z.world.session ≡ clear_auth world.session)
    × (z.world.location ≡ some "/login")
get_me_race =
    renewals_race world get_me get_me (codes "r1") (codes "a2") (codes "r2") ann
      signed_session_token signed_session_user (refl, refl) (refl, refl)

-- The user has signed out while a renewal is under way.
abbrev left_renewing : Pool
left_renewing = record {
  world = record { session = no_session; log = []; location = none };
  calls = renewing (some 401) (codes "r1") (record get_me { retried = true }) ∷ [];
}

abbrev late_pair : Arrival
late_pair = renews (some (codes "a2", some (codes "r2")))

left_renewing-Run :
    Run BringsPairs KeepsOut left_renewing 1
      (arrive 0 late_pair (begin get_me.request left_renewing))
unfolding begin send authorize
left_renewing-Run = Run.arrives (Run.begins Run.start get_me.request) 0 late_pair tt (refl, refl)

left_renewing_stays :
    ((arrive 0 late_pair (begin get_me.request left_renewing)).world.session ≡ no_session)
    × ((ds : List Event) × ((arrive 0 late_pair (begin get_me.request left_renewing)).world.log
          ≡ ds ++ [])
        × All IsBare ds)
left_renewing_stays = signed_out_stays refl left_renewing-Run

abbrev bob : User
bob = record ann { id = 8; username = codes "bob"; email = codes "bob@x.org" }

abbrev renewing_me : Config
renewing_me = record get_me { retried = true }

get_me_mixes :
    let p : Pool = record {
      world = world;
      calls = renewing (some 401) (codes "r1") renewing_me ∷ [];
    } in
    let q = change_session (set_auth (codes "b1") (codes "s1") bob) (change_session clear_auth p) in
    let z = arrive 0 (renews (some (codes "a2", some (codes "r2")))) q in
    (z.world.session ≡ set_auth (codes "a2") (codes "r2") bob world.session)
    × (z.calls ≡ waiting (again_with (codes "a2") renewing_me) ∷ [])
    × (z.world.log ≡ sent (again_with (codes "a2") renewing_me) ∷ world.log)
get_me_mixes =
    renewal_mixes_users world (some 401) (codes "r1") (codes "a2") (codes "r2") renewing_me []
      (codes "b1") (codes "s1") bob refl refl
