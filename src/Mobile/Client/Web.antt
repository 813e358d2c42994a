-- ===== src/Mobile/Client/Web.antt =====
-- frontend/src/api/client.ts and mobile/src/api/client.ts: the two clients do the same to what they
-- keep in memory. They differ in the storage, and the web client sends the browser to the login page.
use zhici_photo_upload_platf.Auth
use zhici_photo_upload_platf.Auth.{AuthState, User, user, Session}
use zhici_photo_upload_platf.Http
use zhici_photo_upload_platf.Http.{
  Answer, Config, Event, Network, failure, is_401, refreshed, response, sent,
}
use zhici_photo_upload_platf.Mobile.Client.{
  Attempt, World, attempt, authorize, client, give_up, on_answer, on_error, renew_session,
  store_renewal, with_refresh_token,
}
use zhici_photo_upload_platf.Mobile.Session.{App, State, clear_auth, set_access_token, set_auth}
use zhici_photo_upload_platf.Prelude.{
  Bool-cases, Option, Option-cases, Text, [], ap, inl, inr, none, not, refl, some, suc, zero, ℕ,
  ◌&&◌, ◌∷◌, ◌≡◌,
}

-- What the web client's store has in memory, of the mobile client's.
abbrev pub memory_of : State → AuthState
memory_of s = record {
  access_token = s.access_token;
  refresh_token = s.refresh_token;
  user = s.user;
  is_authenticated = s.is_authenticated;
  is_admin = s.is_admin;
}

-- The same in memory, and the same was sent.
abbrev pub IsLike : Http.World → World → Type 0
IsLike w v = (w.session.state ≡ memory_of v.app.state) × (w.log ≡ v.log)

-- Two passages through the interceptors end alike.
abbrev pub AgreesWith : Http.Attempt → Attempt → Type 0
AgreesWith (Http.Attempt.settled a w) (Attempt.settled b v) = (a ≡ b) × IsLike w v
AgreesWith (Http.Attempt.settled a w) (Attempt.again d v) = ⊥
AgreesWith (Http.Attempt.again c w) (Attempt.settled b v) = ⊥
AgreesWith (Http.Attempt.again c w) (Attempt.again d v) = (c ≡ d) × IsLike w v

pub authorize-web :
    (s : Auth.Session) (a : App) (c : Config)
    → s.state ≡ memory_of a.state
    → Http.authorize s c ≡ authorize a c
unfolding Http.authorize authorize
authorize-web s a c e = rw (e, Http.authorize, authorize) refl

pub give_up-web :
    (status : Option ℕ) (w : Http.World) (v : World)
    → w.log ≡ v.log
    → AgreesWith
        (Http.Attempt.settled (failure status) (Http.give_up w))
        (Attempt.settled (failure status) (give_up v))
unfolding Http.give_up give_up Auth.clear_auth clear_auth
give_up-web status w v l = (refl, (refl, l))

abbrev pub StoresLike : Option Auth.Session → Option App → Type 0
StoresLike none none = Unit
StoresLike none (some a) = ⊥
StoresLike (some s) none = ⊥
StoresLike (some s) (some a) = s.state ≡ memory_of a.state

set_access_token-web :
    (t : Text) (s : Auth.Session) (a : App)
    → s.state ≡ memory_of a.state
    → (Auth.set_access_token t s).state ≡ memory_of (set_access_token t a).state
unfolding Auth.set_access_token set_access_token
set_access_token-web t s a e = rw e refl

pub store_renewal-web :
    (access : Text) (r : Option Text) (s : Auth.Session) (a : App)
    → s.state ≡ memory_of a.state
    → StoresLike (Http.store_renewal access r s) (store_renewal access r a)
unfolding Http.store_renewal store_renewal Auth.set_auth set_auth set_access_token
store_renewal-web access none s a e = set_access_token-web access s a e
store_renewal-web access (some []) s a e = set_access_token-web access s a e
store_renewal-web access (some (x ∷ r)) s a e = elim (Option-cases a.state.user) [
  | inl h ↦ rw (e, Http.store_renewal) (rw (h, Http.store_renewal, store_renewal) tt)
  | inr (u, h) ↦ rw (e, Http.store_renewal) (rw (h, Http.store_renewal, store_renewal) refl)
]

module _ (net : Network) where
  stored-web :
      (status : Option ℕ) (token access : Text) (r : Option Text) (c : Config) (w : Http.World)
      (v : World) (o : Option Auth.Session) (p : Option App)
      → Http.store_renewal access r w.session ≡ o
      → store_renewal access r v.app ≡ p
      → StoresLike o p
      → w.log ≡ v.log
      → net.renewal v.log token ≡ some (access, r)
      → AgreesWith (Http.renew_session net status token c w) (renew_session net status token c v)
  unfolding Http.renew_session renew_session
  stored-web status token access r c w v none none e f k l n =
      rw (l, Http.renew_session)
        (rw (n, Http.renew_session, renew_session)
          (rw e (rw f (give_up-web status _ _ (ap (λ x. refreshed token ∷ x) l)))))
  stored-web status token access r c w v none (some a) e f k l n = absurd k
  stored-web status token access r c w v (some s) none e f k l n = absurd k
  stored-web status token access r c w v (some s) (some a) e f k l n =
      rw (l, Http.renew_session)
        (rw (n, Http.renew_session, renew_session)
          (rw e (rw f (refl, (k, ap (λ x. refreshed token ∷ x) l)))))

  renew_session-web :
      (status : Option ℕ) (token : Text) (c : Config) (w : Http.World) (v : World)
      → IsLike w v
      → AgreesWith (Http.renew_session net status token c w) (renew_session net status token c v)
  unfolding Http.renew_session renew_session
  renew_session-web status token c w v (e, l) = elim (Option-cases (net.renewal v.log token)) [
    | inl n ↦
        rw (l, Http.renew_session)
          (rw (n, Http.renew_session, renew_session)
            (give_up-web status _ _ (ap (λ x. refreshed token ∷ x) l)))
    | inr (x, n) ↦
        stored-web status token x.0 x.1 c w v _ _ refl refl
          (store_renewal-web x.0 x.1 w.session v.app e) l n
  ]

  with_refresh_token-web :
      (status : Option ℕ) (o : Option Text) (c : Config) (w : Http.World) (v : World)
      → IsLike w v
      → AgreesWith (Http.with_refresh_token net status o c w) (with_refresh_token net status o c v)
  unfolding Http.with_refresh_token with_refresh_token
  with_refresh_token-web status none c w v k = give_up-web status w v k.1
  with_refresh_token-web status (some []) c w v k = give_up-web status w v k.1
  with_refresh_token-web status (some (x ∷ t)) c w v k = renew_session-web status (x ∷ t) c w v k

  with_tokens-web :
      (status : Option ℕ) (o p : Option Text) (c : Config) (w : Http.World) (v : World)
      → o ≡ p
      → IsLike w v
      → AgreesWith (Http.with_refresh_token net status o c w) (with_refresh_token net status p c v)
  with_tokens-web status o p c w v e k = rw e (with_refresh_token-web status p c w v k)

  on_error-web :
      (status : Option ℕ) (c : Config) (w : Http.World) (v : World)
      → IsLike w v
      → AgreesWith (Http.on_error net status c w) (on_error net status c v)
  unfolding Http.on_error on_error
  on_error-web status c w v k = elim (Bool-cases (is_401 status && not c.retried)) [
    | inl e ↦
        rw (e, Http.on_error, on_error)
          (with_tokens-web status _ _ _ w v (ap (λ (s : AuthState). s.refresh_token) k.0) k)
    | inr e ↦ rw (e, Http.on_error, on_error) (refl, k)
  ]

  on_answer-web :
      (a : Answer) (c : Config) (w : Http.World) (v : World)
      → IsLike w v
      → AgreesWith (Http.on_answer net a c w) (on_answer net a c v)
  unfolding Http.on_answer on_answer
  on_answer-web (response n) c w v k = (refl, k)
  on_answer-web (failure status) c w v k = on_error-web status c w v k

  attempt-web :
      (c : Config) (w : Http.World) (v : World)
      → IsLike w v
      → AgreesWith (Http.attempt net c w) (attempt net c v)
  unfolding Http.attempt attempt
  attempt-web c w v (e, l) =
      let h = authorize-web w.session v.app c e in
      let c' = authorize v.app c in
      rw h (
        rw l (
          on_answer-web (net.server v.log c') c' (record w { log = sent c' ∷ v.log })
            (record v { log = sent c' ∷ v.log }) (e, refl)))

  abbrev pub EndsLike : Option (Answer × Http.World) → Option (Answer × World) → Type 0
  EndsLike none none = Unit
  EndsLike none (some y) = ⊥
  EndsLike (some x) none = ⊥
  EndsLike (some x) (some y) = (x.0 ≡ y.0) × IsLike x.1 y.1

  client-web_by :
      (fuel : ℕ) (c : Config) (w : Http.World) (v : World) (a : Http.Attempt) (b : Attempt)
      → ((d : Config) (x : Http.World) (y : World)
          → IsLike x y
          → EndsLike (Http.client fuel net d x) (client fuel net d y))
      → Http.attempt net c w ≡ a
      → attempt net c v ≡ b
      → AgreesWith a b
      → EndsLike (Http.client (suc fuel) net c w) (client (suc fuel) net c v)
  unfolding Http.client client
  client-web_by fuel c w v (Http.Attempt.settled a x) (Attempt.settled b y) ih e f k =
      rw (e, Http.client) (rw (f, client) k)
  client-web_by fuel c w v (Http.Attempt.settled a x) (Attempt.again d y) ih e f k = absurd k
  client-web_by fuel c w v (Http.Attempt.again d x) (Attempt.settled b y) ih e f k = absurd k
  client-web_by fuel c w v (Http.Attempt.again d x) (Attempt.again d' y) ih e f k =
      rw (e, Http.client) (rw (f, client) (rw k.0 (ih d' x y k.1)))

  -- The web client and the mobile client make the same of a call: with the same in memory and the same
  -- sent before, on any network, they get the same answer, and end with the same in memory and the
  -- same sent, in the same order.
  pub clients_agree :
      (fuel : ℕ) (c : Config) (w : Http.World) (v : World)
      → IsLike w v
      → EndsLike (Http.client fuel net c w) (client fuel net c v)
  unfolding Http.client client
  clients_agree zero c w v k = tt
  clients_agree (suc fuel) c w v k =
      client-web_by fuel c w v (Http.attempt net c w) (attempt net c v) (clients_agree fuel) refl
        refl (attempt-web c w v k)
