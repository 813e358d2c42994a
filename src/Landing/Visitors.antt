-- ===== src/Landing/Visitors.antt =====
-- What becomes of a visitor without a session on the landing page.
use zhici_photo_upload_platf.Api.{Call, Request, list_tags}
use zhici_photo_upload_platf.Api.Backend.{handlers, request_of, signed_in}
use zhici_photo_upload_platf.Auth.{Session}
use zhici_photo_upload_platf.Http.{
  Config, Event, Network, failure, World, authorize, client, give_up,
}
use zhici_photo_upload_platf.Http.Calls.{fresh}
use zhici_photo_upload_platf.Http.Laws.{HasNoToken, client_settled, refused_attempt}
use zhici_photo_upload_platf.Landing.{State, landing_queries}
use zhici_photo_upload_platf.Prelude.{
  Any, List, String, [], ap, inl, inr, none, refl, some, suc, ℕ, ◌∙◌, ◌∷◌, ◌≡◌,
}

-- The routes that ask for a token.
abbrev pub NeedsToken : Request → Type 0
NeedsToken q = (h : String) × (handlers q ≡ (signed_in, h) ∷ [])

-- The backend's middleware `Auth`: a route that asks for a token answers 401 without one.
abbrev pub RefusesWithoutToken : Network → Type 0
RefusesWithoutToken net =
    (log : List Event) (c : Config)
    → NeedsToken c.request
    → c.authorization ≡ none
    → net.server log c ≡ failure (some 401)

authorize_without_token :
    (s : Session) (c : Config) → s.state.access_token ≡ none → authorize s c ≡ c
unfolding authorize
authorize_without_token s c e = rw (e, authorize) refl

tags_request : (q : Request) × (request_of list_tags ≡ some q) × NeedsToken q
unfolding handlers
tags_request = (_, refl, ("tagH.List", refl))

-- One of the calls that the landing page makes for every visitor is for the tags, whose route asks for
-- a token: where the backend enforces its routes, a visitor without a session is sent to the login
-- page by the answer, whatever the page shows and whatever tag is picked.
pub visitor_is_sent_away :
    (fuel : ℕ) (net : Network) (w : World) (s : State)
    → RefusesWithoutToken net
    → w.session.state.access_token ≡ none
    → HasNoToken w.session
    → Any
        (λ (c : Call).
          (c ≡ list_tags)
          × (q : Request) × (v : World) × (request_of c ≡ some q)
          × (client (suc fuel) net (fresh q) w ≡ some (failure (some 401), v))
          × (v.location ≡ some "/login"))
        (landing_queries s)
unfolding landing_queries give_up
visitor_is_sent_away fuel net w s strict no_token no_refresh =
    let (q, e, n) = tags_request in
    let same = authorize_without_token w.session (fresh q) no_token in
    let refusal = ap (net.server w.log) same ∙ strict w.log (fresh q) n refl in
    inr (
      inl (
        refl,
        q,
        _,
        e,
        client_settled fuel net (fresh q) w
            (refused_attempt net (fresh q) w refusal no_refresh refl),
        refl,
      ))
