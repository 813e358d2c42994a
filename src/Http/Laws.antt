-- ===== src/Http/Laws.antt =====
-- A call ends: at most one renewal and one retry, whatever the network answers.
use mathlib.Core.Path.{subst}
use zhici_photo_upload_platf.Http.{
  Answer, Attempt, Config, Event, Network, World, again, attempt, authorize, client, give_up, sent,
  settled, renew_session, failure, on_answer, on_error, with_refresh_token, refreshed, is_401,
  response, store_renewal,
}
use zhici_photo_upload_platf.Prelude.{
  List, arith, length, some, suc, true, ℕ, ◌+◌, ◌∷◌, ◌≡◌, ◌≤◌, refl, ◌∙◌, false, none, Option, Text,
  Bool-cases, Option-cases, [], ap, inl, inr, not, sym, ◌&&◌,
}
use zhici_photo_upload_platf.Auth.{Session}
use zhici_photo_upload_platf.Api.{Request}

abbrev pub Retries : Attempt → Type 0
Retries (settled a w) = Unit
Retries (again c w) = c.retried ≡ true

abbrev pub log_of : Attempt → List Event
log_of (settled a w) = w.log
log_of (again c w) = w.log

-- `_retry` is set on whatever is made again.
pub attempt-Retries : (net : Network) (c : Config) (w : World) → Retries (attempt net c w)
unfolding attempt renew_session
attempt-Retries net c w = ground arith

attempt-log :
    (net : Network) (c : Config) (w : World) → length (log_of (attempt net c w)) ≤ length w.log + 2
unfolding attempt renew_session give_up
attempt-log net c w = ground arith

-- A request that was retried once is not made again.
pub attempt_retried :
    (net : Network) (c : Config) (w : World)
    → c.retried ≡ true
    → let c' = authorize w.session c in
      attempt net c w ≡ settled (net.server w.log c') (record w { log = sent c' ∷ w.log })
unfolding attempt
attempt_retried net c w h = ground arith

pub client_settled :
    (fuel : ℕ) (net : Network) (c : Config) (w : World) {a : Answer} {w' : World}
    → attempt net c w ≡ settled a w'
    → client (suc fuel) net c w ≡ some (a, w')
unfolding client
client_settled fuel net c w e = rw (e, client)

pub client_again :
    (fuel : ℕ) (net : Network) (c : Config) (w : World) {c' : Config} {w' : World}
    → attempt net c w ≡ again c' w'
    → client (suc fuel) net c w ≡ client fuel net c' w'
unfolding client
client_again fuel net c w e = rw (e, client)

-- What a call may have sent, since the log was `es`: its request; then it may be a renewal; and then it
-- may be its request once more. It is not made again unless the session was renewed.
pub data Transcript (q : Request) (es : List Event) : List Event → Type 0 where
  once : (c : Config) → c.request ≡ q → Transcript q es (sent c ∷ es)
  renewing : (c : Config) (t : Text) → c.request ≡ q → Transcript q es (refreshed t ∷ sent c ∷ es)
  twice :
      (c d : Config) (t : Text)
      → c.request ≡ q
      → d.request ≡ q
      → Transcript q es (sent d ∷ refreshed t ∷ sent c ∷ es)

-- Nothing has been signed in: there is no token to renew the session with.
abbrev pub HasNoToken : Session → Type 0
HasNoToken s = s.state.refresh_token ≡ none

pub authorize-retried : (s : Session) (c : Config) → (authorize s c).retried ≡ c.retried
unfolding authorize
authorize-retried s c = ground arith

pub authorize-request : (s : Session) (c : Config) → (authorize s c).request ≡ c.request
unfolding authorize
authorize-request s c = ground arith

-- Without a token to renew the session with, 401 ends it.
pub refused_attempt :
    (net : Network) (c : Config) (w : World)
    → net.server w.log (authorize w.session c) ≡ failure (some 401)
    → HasNoToken w.session
    → c.retried ≡ false
    → attempt net c w
      ≡ settled
          (failure (some 401))
          (give_up (record w { log = sent (authorize w.session c) ∷ w.log }))
unfolding attempt on_answer on_error with_refresh_token
refused_attempt net c w h n r =
    rw h (rw (authorize-retried w.session c ∙ r, on_error) (rw (n, with_refresh_token) refl))

-- What one passage may have sent, and that what is made again is the same request after a renewal.
abbrev Passes : Request → List Event → Attempt → Type 0
Passes q es (settled a v) = Transcript q es v.log
Passes q es (again d v) =
    (d.request ≡ q)
    × (d.retried ≡ true)
    × ((b : Config) × (t : Text) × (b.request ≡ q) × (v.log ≡ refreshed t ∷ sent b ∷ es))

module _ (net : Network) (status : Option ℕ) (q : Request) (es : List Event) where
  stored-Passes :
      (t a : Text) (r : Option Text) (c : Config) (v : World) (o : Option Session)
      → store_renewal a r v.session ≡ o
      → net.renewal v.log t ≡ some (a, r)
      → c.request ≡ q
      → c.retried ≡ true
      → (b : Config) → b.request ≡ q
      → v.log ≡ sent b ∷ es
      → Passes q es (renew_session net status t c v)
  unfolding renew_session give_up
  stored-Passes t a r c v none e n k h b same l =
      rw (n, renew_session)
        (rw (e, renew_session)
          (subst (λ x. Transcript q es (refreshed t ∷ x)) (sym l) (Transcript.renewing b t same)))
  stored-Passes t a r c v (some s) e n k h b same l =
      rw (n, renew_session)
        (rw (e, renew_session) (k, h, (b, t, same, ap (λ x. refreshed t ∷ x) l)))

  renew_session-Passes :
      (t : Text) (c : Config) (v : World)
      → c.request ≡ q
      → c.retried ≡ true
      → (b : Config) → b.request ≡ q
      → v.log ≡ sent b ∷ es
      → Passes q es (renew_session net status t c v)
  unfolding renew_session give_up
  renew_session-Passes t c v k h b same l = elim (Option-cases (net.renewal v.log t)) [
    | inl n ↦
        rw (n, renew_session)
          (subst (λ x. Transcript q es (refreshed t ∷ x)) (sym l) (Transcript.renewing b t same))
    | inr (x, n) ↦ stored-Passes t x.0 x.1 c v _ refl n k h b same l
  ]

  with_refresh_token-Passes :
      (o : Option Text) (c : Config) (v : World)
      → c.request ≡ q
      → c.retried ≡ true
      → (b : Config) → b.request ≡ q
      → v.log ≡ sent b ∷ es
      → Passes q es (with_refresh_token net status o c v)
  unfolding with_refresh_token give_up
  with_refresh_token-Passes none c v k h b same l =
      subst (Transcript q es) (sym l) (Transcript.once b same)
  with_refresh_token-Passes (some []) c v k h b same l =
      subst (Transcript q es) (sym l) (Transcript.once b same)
  with_refresh_token-Passes (some (x ∷ t)) c v k h b same l =
      renew_session-Passes (x ∷ t) c v k h b same l

  on_error-Passes :
      (c : Config) (v : World)
      → c.request ≡ q
      → v.log ≡ sent c ∷ es
      → Passes q es (on_error net status c v)
  unfolding on_error
  on_error-Passes c v k l = elim (Bool-cases (is_401 status && not c.retried)) [
    | inl e ↦
        rw (e, on_error)
          (with_refresh_token-Passes v.session.state.refresh_token (record c { retried = true }) v k
            refl c k l)
    | inr e ↦ rw (e, on_error) (subst (Transcript q es) (sym l) (Transcript.once c k))
  ]

on_answer-Passes :
    (net : Network) (a : Answer) (c : Config) (v : World) (es : List Event)
    → v.log ≡ sent c ∷ es
    → Passes c.request es (on_answer net a c v)
unfolding on_answer
on_answer-Passes net (response n) c v es l =
    subst (Transcript c.request es) (sym l) (Transcript.once c refl)
on_answer-Passes net (failure status) c v es l = on_error-Passes net status c.request es c v refl l

attempt-Passes : (net : Network) (c : Config) (w : World) → Passes c.request w.log (attempt net c w)
unfolding attempt
attempt-Passes net c w =
    let c' = authorize w.session c in
    subst (λ q. Passes q w.log (attempt net c w)) (authorize-request w.session c)
      (on_answer-Passes net (net.server w.log c') c' (record w { log = sent c' ∷ w.log }) w.log
        refl)

abbrev Ends : Network → Config → World → Type 0
Ends net c w =
    (r : Answer × World) × ((fuel : ℕ) → client (suc (suc fuel)) net c w ≡ some r)
    × Transcript c.request w.log r.1.log

client-Ends_by :
    (net : Network) (c : Config) (w : World) (a : Attempt)
    → attempt net c w ≡ a
    → Passes c.request w.log a
    → Ends net c w
client-Ends_by net c w (settled a v) e p =
    ((a, v), (λ fuel. client_settled (suc fuel) net c w e), p)
client-Ends_by net c w (again d v) e (k, h, (b, t, same, l)) = (
  _,
  λ fuel.
      client_again (suc fuel) net c w e ∙ client_settled fuel net d v (attempt_retried net d v h),
  subst (λ x. Transcript c.request w.log (sent (authorize v.session d) ∷ x)) (sym l)
      (Transcript.twice b (authorize v.session d) t same (authorize-request v.session d ∙ k)),
)

-- A call ends with an answer, which is the same for any fuel of at least two passages. What it sends is
-- its request; or that and a renewal of the session; or those and its request once more, and nothing
-- else.
pub client_ends :
    (net : Network) (c : Config) (w : World)
    → (r : Answer × World) × ((fuel : ℕ) → client (suc (suc fuel)) net c w ≡ some r)
      × Transcript c.request w.log r.1.log
client_ends net c w = client-Ends_by net c w (attempt net c w) refl (attempt-Passes net c w)
