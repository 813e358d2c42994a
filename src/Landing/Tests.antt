-- ===== src/Landing/Tests.antt =====
-- A visitor on the landing page.
use zhici_photo_upload_platf.Api.{Call, Request, list_tags}
use zhici_photo_upload_platf.Api.Backend.{request_of}
use zhici_photo_upload_platf.Auth.{empty_storage, get_stored, open_app, state_of}
use zhici_photo_upload_platf.Http.{Network, World, client, failure, response}
use zhici_photo_upload_platf.Http.Calls.{fresh}
use zhici_photo_upload_platf.Http.Laws.{HasNoToken}
use zhici_photo_upload_platf.Landing.{initial, landing_queries}
use zhici_photo_upload_platf.Landing.Visitors.{RefusesWithoutToken, visitor_is_sent_away}
use zhici_photo_upload_platf.Prelude.{Any, [], arith, none, refl, some, ◌≡◌}

-- A backend that refuses every request without a token.
abbrev strict : Network
strict = record {
  server = λ log c. elim c.authorization [ none ↦ failure (some 401) | some t ↦ response 200 ];
  renewal = λ log t. none;
}

strict-RefusesWithoutToken : RefusesWithoutToken strict
strict-RefusesWithoutToken log c n e = ground (arith, e)

abbrev visitor : World
visitor = record { session = open_app empty_storage; log = []; location = none }

visitor_has_no_token : visitor.session.state.access_token ≡ none
unfolding open_app state_of get_stored
visitor_has_no_token = refl

visitor-HasNoToken : HasNoToken visitor.session
unfolding open_app state_of get_stored
visitor-HasNoToken = refl

visitor_sent_away :
    Any
      (λ (c : Call).
        (c ≡ list_tags)
        × (q : Request) × (v : World) × (request_of c ≡ some q)
        × (client 1 strict (fresh q) visitor ≡ some (failure (some 401), v))
        × (v.location ≡ some "/login"))
      (landing_queries initial)
visitor_sent_away =
    visitor_is_sent_away 0 strict visitor initial strict-RefusesWithoutToken visitor_has_no_token
      visitor-HasNoToken
