-- ===== src/Mobile/Client/Tests.antt =====
-- A call of a signed-in app on a network whose first answer is 401.
use zhici_photo_upload_platf.Auth
use zhici_photo_upload_platf.Auth.Tests.{signed_session, ann}
use zhici_photo_upload_platf.Http
use zhici_photo_upload_platf.Mobile.Client.Calls.Alike.{
  IsLikePool, Action, gets, makes, mobile_after, pools_agree, signs_in, signs_out, web_after,
}
use zhici_photo_upload_platf.Http.{Answer, failure}
use zhici_photo_upload_platf.Mobile.Client.Web.{EndsLike, IsLike, clients_agree}
use zhici_photo_upload_platf.Http.Tests.{get_me, net, net_renews}
use zhici_photo_upload_platf.Mobile.Client.{World, client}
use zhici_photo_upload_platf.Mobile.Client.Laws.{client_ends_durably}
use zhici_photo_upload_platf.Mobile.Session.{hydrate, reopen, set_auth}
use zhici_photo_upload_platf.Mobile.Session.Tests.{signed_app}
use zhici_photo_upload_platf.Prelude.{
  [], length, refl, some, ◌+◌, ◌≡◌, ◌≤◌, false, none, List, codes, ◌∷◌,
}
use zhici_photo_upload_platf.Http.Calls.{answers}

abbrev world : World
world = record { app = signed_app; log = [] }

signed_app_durable : hydrate (reopen signed_app) ≡ signed_app
unfolding set_auth hydrate reopen
signed_app_durable = refl

signed_app_loaded : signed_app.state.is_loading ≡ false
unfolding set_auth hydrate reopen
signed_app_loaded = refl

get_me_ends :
    (r : Answer × World) × (client 2 net get_me world ≡ some r)
    × (hydrate (reopen r.1.app) ≡ r.1.app)
    × (length r.1.log ≤ length world.log + 3)
get_me_ends = client_ends_durably 0 net get_me world net_renews signed_app_durable signed_app_loaded

-- The same call of the web client.
abbrev web_world : Http.World
web_world = record { session = signed_session; log = []; location = none }

web_world-IsLike : IsLike web_world world
unfolding Auth.set_auth set_auth
web_world-IsLike = (refl, refl)

get_me_alike : EndsLike net (Http.client 2 net get_me web_world) (client 2 net get_me world)
get_me_alike = clients_agree net 2 get_me web_world world web_world-IsLike

-- A call is answered 401 while nobody is signed in any more, and then someone signs in.
abbrev happens : List Action
happens =
    makes get_me.request
    ∷ signs_out
    ∷ gets 0 (answers (failure (some 401)))
    ∷ signs_in (codes "b1") (codes "s1") ann
    ∷ []

happens_alike :
    IsLikePool
      (web_after happens (record { world = web_world; calls = [] }))
      (mobile_after happens (record { world = world; calls = [] }))
happens_alike =
    pools_agree happens (record { world = web_world; calls = [] })
      (record { world = world; calls = [] }) (refl, web_world-IsLike)
