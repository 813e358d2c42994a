-- ===== src/Http/InTurn.antt =====
-- Calls that wait for one another, as those of the upload page's loop do, with a backend whose renewals
-- do what they are for.
use zhici_photo_upload_platf.Auth.{User, set_auth, Session}
use zhici_photo_upload_platf.Http.{
  Config, Event, Network, World, attempt, authorize, failure, refreshed, sent, Answer, client,
  settled,
}
use zhici_photo_upload_platf.Http.Laws.{
  attempt_retried, client_again, client_settled, authorize-request,
}
use zhici_photo_upload_platf.Prelude.{
  List, Text, false, refl, some, true, truthy, ◌∙◌, ◌∷◌, ◌≡◌, ◌≢◌, Option, ap, inl, inr, none, sym,
  All, [], length, suc, Bool, String,
}
use zhici_photo_upload_platf.Api.{Request}
use zhici_photo_upload_platf.Http.Calls.{fresh}
use zhici_photo_upload_platf.Http.Passages.{
  first, answered_attempt, authorize_with, is_refused, renewing_attempt,
}
use zhici_photo_upload_platf.Api.Backend.{Access, admin_only, anyone, handlers, signed_in}

-- The request is for a route behind the middleware of backend/internal/middleware/auth.go, which asks
-- for an access token. Behind it no handler answers 401, or touches refresh tokens.
abbrev guards : List (Access × String) → Bool
guards ((anyone, h) ∷ []) = false
guards ((signed_in, h) ∷ []) = true
guards ((admin_only, h) ∷ []) = true
guards _ = false

abbrev pub IsGuarded : Request → Type 0
IsGuarded q = guards (handlers q) ≡ true

-- What the backend promises of its tokens, on a network: a refresh token that is good brings a pair of
-- tokens, a refresh token that is good in its place and an access token that is taken at once; a
-- request for a guarded route is not answered 401 when it has a token that is taken, and leaves a
-- refresh token as good as it was. Good means that it is neither revoked nor older than its seven days.
pub record Promises (net : Network) : Type 1 where
  pub IsGood : List Event → Text → Type 0
  pub IsTaken : List Event → Text → Type 0
  pub renews :
      (log : List Event) (t : Text)
      → IsGood log t
      → (a r : Text) × (net.renewal log t ≡ some (a, some r))
        × ((truthy a ≡ true) × (truthy r ≡ true))
        × IsGood (refreshed t ∷ log) r
        × IsTaken (refreshed t ∷ log) a
  pub takes :
      (log : List Event) (a : Text) (c : Config)
      → IsTaken log a
      → IsGuarded c.request
      → c.authorization ≡ some a
      → net.server log c ≢ failure (some 401)
  pub keeps :
      (log : List Event) (t : Text) (c : Config)
      → IsGuarded c.request
      → IsGood log t
      → IsGood (sent c ∷ log) t

-- A page makes calls, each when the one before it has its answer.
unfoldable pub calls_in_turn : Network → List Request → World → Option (List Answer × World)
calls_in_turn net [] w = some ([], w)
calls_in_turn net (q ∷ qs) w = elim (client 2 net (fresh q) w) [
  | none ↦ none
  | some (x, v) ↦ elim (calls_in_turn net qs v) [ none ↦ none | some (xs, z) ↦ some (x ∷ xs, z) ]
]

module _ (net : Network) (p : Promises net) where
  -- The user is signed in with a refresh token that is good.
  pub record Holds (u : User) (w : World) : Type 0 where
    pub token : Text
    pub kept : w.session.state.refresh_token ≡ some token
    pub signed : w.session.state.user ≡ some u
    pub not_empty : truthy token ≡ true
    pub good : p.IsGood w.log token

  -- The call has an answer other than 401, and the user is signed in as before.
  pub record GoesWell (u : User) (q : Request) (w : World) (r : Answer × World) : Type 0 where
    pub taken : r.0 ≢ failure (some 401)
    -- it is what the network answered to the call's request
    pub brought : (log : List Event) × (c : Config) × (c.request ≡ q) × (r.0 ≡ net.server log c)
    pub holds : Holds u r.1
    pub location : r.1.location ≡ w.location

  sent-Holds :
      (u : User) (c : Config) (w : World)
      → IsGuarded c.request
      → Holds u w
      → Holds u (record w { log = sent c ∷ w.log })
  sent-Holds u c w gd h = record {
    token = h.token;
    kept = h.kept;
    signed = h.signed;
    not_empty = h.not_empty;
    good = p.keeps w.log h.token c gd h.good;
  }

  authorize-IsGuarded :
      (s : Session) (c : Config) → IsGuarded c.request → IsGuarded (authorize s c).request
  authorize-IsGuarded s c gd = ap (λ q. guards (handlers q)) (authorize-request s c) ∙ gd

  settles_well :
      (u : User) (c : Config) (w : World) (x : Answer)
      → IsGuarded c.request
      → Holds u w
      → x ≢ failure (some 401)
      → first net c w ≡ x
      → attempt net c w ≡ settled x (record w { log = sent (authorize w.session c) ∷ w.log })
      → (r : Answer × World) × (client 2 net c w ≡ some r) × GoesWell u c.request w r
  settles_well u c w x gd h ne b e = (
    _,
    client_settled 1 net c w e,
    record {
      taken = ne;
      brought = (w.log, authorize w.session c, authorize-request w.session c, sym b);
      holds = sent-Holds u (authorize w.session c) w (authorize-IsGuarded w.session c gd) h;
      location = refl;
    },
  )

  renews_well :
      (u : User) (c : Config) (w : World)
      → IsGuarded c.request
      → Holds u w
      → c.retried ≡ false
      → first net c w ≡ failure (some 401)
      → (r : Answer × World) × (client 2 net c w ≡ some r) × GoesWell u c.request w r
  unfolding set_auth
  renews_well u c w gd h hc e =
      let c' = authorize w.session c in
      let gd' = authorize-IsGuarded w.session c gd in
      let (a, r, n, (ta, tr), g, k) =
        p.renews (sent c' ∷ w.log) h.token (p.keeps w.log h.token c' gd' h.good) in
      let d : Config = record c' { retried = true; authorization = some a } in
      let v : World = record w {
        session = set_auth a r u w.session;
        log = refreshed h.token ∷ sent c' ∷ w.log;
      } in
      let d' = authorize v.session d in
      let gd'' = authorize-IsGuarded v.session d gd' in
      (
        _,
        client_again 1 net c w
              (renewing_attempt net c w h.token a r u e hc h.kept h.signed (h.not_empty, tr) n)
            ∙ client_settled 0 net d v (attempt_retried net d v refl),
        record {
          taken = p.takes v.log a d' k gd'' (authorize_with a v.session d refl ta);
          brought =
              (v.log, d', authorize-request v.session d ∙ authorize-request w.session c, refl);
          holds = record {
            token = r;
            kept = refl;
            signed = refl;
            not_empty = tr;
            good = p.keeps v.log r d' gd'' g;
          };
          location = refl;
        },
      )

  pub call-GoesWell :
      (u : User) (c : Config) (w : World)
      → IsGuarded c.request
      → Holds u w
      → c.retried ≡ false
      → (r : Answer × World) × (client 2 net c w ≡ some r) × GoesWell u c.request w r
  call-GoesWell u c w gd h hc = elim (is_refused (first net c w)) [
    | inl e ↦ renews_well u c w gd h hc e
    | inr ne ↦ settles_well u c w _ gd h ne refl (answered_attempt net c w ne)
  ]

  -- With a backend that keeps its promises: a user who is signed in with a good refresh token makes any
  -- number of calls for routes that ask for a token, each when the one before it has its answer, and
  -- access tokens may run out in between at any time. Then each call has an answer other than 401, and
  -- the user is signed in as before, with a good refresh token and on the same page.
  pub calls_go_well :
      (u : User) (qs : List Request) (w : World)
      → All IsGuarded qs
      → Holds u w
      → (xs : List Answer) × (v : World) × (calls_in_turn net qs w ≡ some (xs, v))
        × (length xs ≡ length qs)
        × All (λ x. x ≢ failure (some 401)) xs
        × Holds u v
        × (v.location ≡ w.location)
  unfolding calls_in_turn
  calls_go_well u [] w gs h = ([], w, refl, refl, tt, h, refl)
  calls_go_well u (q ∷ qs) w gs h =
      let ((x, v), e, g) = call-GoesWell u (fresh q) w gs.0 h refl in
      let (xs, z, f, l, a, k, m) = calls_go_well u qs v gs.1 g.holds in
      (
        x ∷ xs,
        z,
        rw (e, calls_in_turn) (rw (f, calls_in_turn) refl),
        ap suc l,
        (g.taken, a),
        k,
        m ∙ g.location,
      )
