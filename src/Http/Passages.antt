-- ===== src/Http/Passages.antt =====
-- What one passage through the interceptors of api/client.ts comes to, by the network's first answer.
use zhici_photo_upload_platf.Auth.{Session, User, set_auth}
use zhici_photo_upload_platf.Http.{
  Answer, Config, Network, World, again, attempt, authorize, failure, is_401, on_answer, on_error,
  refreshed, renew_session, response, sent, settled, store_renewal, with_refresh_token,
}
use zhici_photo_upload_platf.Http.Laws.{authorize-retried}
use zhici_photo_upload_platf.Prelude.{
  Bool-cases, Option, Text, ap, arith, false, inl, inr, none, refl, some, sym, true, truthy, ℕ,
  ◌==◌, ◌∙◌, ◌∷◌, ◌≡◌, ◌≢◌, ◌⊎◌,
}

store_renewal-pair :
    (s : Session) (a r : Text) (u : User)
    → s.state.user ≡ some u
    → truthy r ≡ true
    → store_renewal a (some r) s ≡ some (set_auth a r u s)
unfolding store_renewal set_auth
store_renewal-pair s a r u h k = rw (k, store_renewal) (rw (h, store_renewal) refl)

renew_session-pair :
    (net : Network) (status : Option ℕ) (t a : Text) (r : Option Text) (c : Config) (w : World)
    (s : Session)
    → net.renewal w.log t ≡ some (a, r)
    → store_renewal a r w.session ≡ some s
    → renew_session net status t c w
      ≡ again
          (record c { authorization = some a })
          (record w { session = s; log = refreshed t ∷ w.log })
unfolding renew_session
renew_session-pair net status t a r c w s n e = rw (n, renew_session) (rw (e, renew_session) refl)

with_refresh_token-some :
    (net : Network) (status : Option ℕ) (o : Option Text) (t : Text) (c : Config) (w : World)
    → o ≡ some t
    → truthy t ≡ true
    → with_refresh_token net status o c w ≡ renew_session net status t c w
unfolding with_refresh_token
with_refresh_token-some net status o t c w e k =
    rw (e, with_refresh_token) (rw (k, with_refresh_token) refl)

on_error-401 :
    (net : Network) (c : Config) (w : World)
    → c.retried ≡ false
    → on_error net (some 401) c w
      ≡ with_refresh_token net
          (some 401)
          w.session.state.refresh_token
          (record c { retried = true })
          w
unfolding on_error
on_error-401 net c w h = rw (h, on_error) refl

attempt-on_answer :
    (net : Network) (c : Config) (w : World) (x : Answer)
    → net.server w.log (authorize w.session c) ≡ x
    → attempt net c w
      ≡ on_answer net x
          (authorize w.session c)
          (record w { log = sent (authorize w.session c) ∷ w.log })
unfolding attempt
attempt-on_answer net c w x h = rw h refl

Answer-cases : (x : Answer) → ((n : ℕ) × (x ≡ response n)) ⊎ ((s : Option ℕ) × (x ≡ failure s))
Answer-cases (response n) = inl (n, refl)
Answer-cases (failure s) = inr (s, refl)

other_status : (s : Option ℕ) → failure s ≢ failure (some 401) → is_401 s ≡ false
other_status none h = refl
other_status (some n) h = elim (Bool-cases (n == 401)) [
  | inl e ↦ absurd (h (ap (λ m. failure (some m)) (ground (arith, e))))
  | inr e ↦ e
]

on_error-other :
    (net : Network) (status : Option ℕ) (c : Config) (w : World)
    → is_401 status ≡ false
    → on_error net status c w ≡ settled (failure status) w
unfolding on_error
on_error-other net status c w h = rw (h, on_error) refl

pub renewing_attempt :
    (net : Network) (c : Config) (w : World) (t a r : Text) (u : User)
    → net.server w.log (authorize w.session c) ≡ failure (some 401)
    → c.retried ≡ false
    → w.session.state.refresh_token ≡ some t
    → w.session.state.user ≡ some u
    → (truthy t ≡ true) × (truthy r ≡ true)
    → net.renewal (sent (authorize w.session c) ∷ w.log) t ≡ some (a, some r)
    → attempt net c w
      ≡ again
          (record (authorize w.session c) { retried = true; authorization = some a })
          (record w {
            session = set_auth a r u w.session;
            log = refreshed t ∷ sent (authorize w.session c) ∷ w.log;
          })
unfolding on_answer
renewing_attempt net c w t a r u h hc ht hu (k, l) n =
    let c' = authorize w.session c in
    let w' : World = record w { log = sent c' ∷ w.log } in
    let d : Config = record c' { retried = true } in
    attempt-on_answer net c w _ h
    ∙ on_error-401 net c' w' (authorize-retried w.session c ∙ hc)
    ∙ with_refresh_token-some net (some 401) _ t d w' ht k
    ∙ renew_session-pair net (some 401) t a (some r) d w' _ n
        (store_renewal-pair w.session a r u hu l)

-- What the network answers first.
abbrev pub first : Network → Config → World → Answer
first net c w = net.server w.log (authorize w.session c)

pub answered_attempt :
    (net : Network) (c : Config) (w : World)
    → first net c w ≢ failure (some 401)
    → attempt net c w
      ≡ settled (first net c w) (record w { log = sent (authorize w.session c) ∷ w.log })
unfolding on_answer
answered_attempt net c w ne =
    let c' = authorize w.session c in
    let w' : World = record w { log = sent c' ∷ w.log } in
    elim (Answer-cases (first net c w)) [
      | inl (n, e) ↦ attempt-on_answer net c w _ e ∙ ap (λ x. settled x w') (sym e)
      | inr (status, e) ↦
          attempt-on_answer net c w _ e
          ∙ on_error-other net status c' w' (other_status status (λ k. ne (e ∙ k)))
          ∙ ap (λ x. settled x w') (sym e)
    ]

pub authorize_with :
    (a : Text) (s : Session) (c : Config)
    → s.state.access_token ≡ some a
    → truthy a ≡ true
    → (authorize s c).authorization ≡ some a
unfolding authorize
authorize_with a s c e t = rw (e, authorize) (rw (t, authorize) refl)

pub is_refused : (x : Answer) → (x ≡ failure (some 401)) ⊎ (x ≢ failure (some 401))
is_refused (response n) = inr (λ e. absurd (cc))
is_refused (failure none) = inr (λ e. absurd (cc))
is_refused (failure (some n)) = elim (Bool-cases (n == 401)) [
  | inl e ↦ inl (ap (λ m. failure (some m)) (ground (arith, e)))
  | inr e ↦ inr (λ k. absurd (ground (arith, e, k)))
]
