-- ===== src/Http/Calls/Single.antt =====
-- A call that is alone: cut at its waits it does what `client` does.
use mathlib.Core.Path.{subst}
use zhici_photo_upload_platf.Http.{
  Answer, Config, Event, Network, World, authorize, sent, Attempt, again, attempt, client, failure,
  is_401, on_answer, on_error, refreshed, renew_session, response, settled, store_renewal,
  with_refresh_token, give_up,
}
use zhici_photo_upload_platf.Http.Calls.{
  Phase, answered, done, renewed, renewing, send, waiting, ask_renewal,
}
use zhici_photo_upload_platf.Prelude.{
  List, Option, [], arith, none, some, suc, true, zero, ℕ, ◌∷◌, ◌≡◌, Bool-cases, Text, ap, inl, inr,
  not, refl, sym, ◌&&◌, ◌∙◌,
}
use zhici_photo_upload_platf.Auth.{Session}
use zhici_photo_upload_platf.Http.Laws.{
  Retries, attempt-Retries, attempt_retried, client_again, client_settled,
}

abbrev before : List Event → List Event
before [] = []
before (e ∷ es) = es

-- The network answers what was sent last.
unfoldable pub serve : Network → Phase × World → Phase × World
serve net (waiting c, w) = answered (net.server (before w.log) c) c w
serve net (renewing status token c, w) = renewed (net.renewal (before w.log) token) status c w
serve net (done a, w) = (done a, w)

abbrev pub serve_times : ℕ → Network → Phase × World → Phase × World
serve_times zero net r = r
serve_times (suc n) net r = serve_times n net (serve net r)

abbrev pub result_of : Phase × World → Option (Answer × World)
result_of (waiting c, w) = none
result_of (renewing status token c, w) = none
result_of (done a, w) = some (a, w)

-- The answer to a request that was made again is the last.
served_again :
    (net : Network) (c : Config) (w : World)
    → c.retried ≡ true
    → serve net (send c w) ≡ (
        let c' = authorize w.session c in
        let w' : World = record w { log = sent c' ∷ w.log } in (done (net.server w.log c'), w'))
unfolding serve send answered authorize
served_again net c w h = ground arith

module _ (net : Network) where
  -- A passage through the interceptors, against two answers from the network.
  abbrev Agrees : Attempt → Phase × World → Type 0
  Agrees (settled a v) r = serve_times 2 net r ≡ (done a, v)
  Agrees (again c v) r = serve_times 2 net r ≡ serve net (send c v)

  renewed-none :
      (access : Text) (r : Option Text) (status : Option ℕ) (c : Config) (w : World)
      → store_renewal access r w.session ≡ none
      → renewed (some (access, r)) status c w ≡ (done (failure status), give_up w)
  unfolding renewed
  renewed-none access r status c w e = rw (e, renewed) refl

  renewed-some :
      (access : Text) (r : Option Text) (status : Option ℕ) (c : Config) (w : World) {s : Session}
      → store_renewal access r w.session ≡ some s
      → renewed (some (access, r)) status c w
        ≡ send (record c { authorization = some access }) (record w { session = s })
  unfolding renewed
  renewed-some access r status c w e = rw (e, renewed) refl

  renewal_none :
      (status : Option ℕ) (token access : Text) (r : Option Text) (c : Config) (w : World)
      → net.renewal w.log token ≡ some (access, r)
      → store_renewal access r w.session ≡ none
      → renew_session net status token c w
        ≡ settled (failure status) (give_up (record w { log = refreshed token ∷ w.log }))
  unfolding renew_session
  renewal_none status token access r c w n e = rw (n, renew_session) (rw (e, renew_session) refl)

  renewal_some :
      (status : Option ℕ) (token access : Text) (r : Option Text) (c : Config) (w : World)
      {s : Session}
      → net.renewal w.log token ≡ some (access, r)
      → store_renewal access r w.session ≡ some s
      → renew_session net status token c w
        ≡ again
            (record c { authorization = some access })
            (record w { session = s; log = refreshed token ∷ w.log })
  unfolding renew_session
  renewal_some status token access r c w n e = rw (n, renew_session) (rw (e, renew_session) refl)

  renewal_failed :
      (status : Option ℕ) (token : Text) (c : Config) (w : World)
      → net.renewal w.log token ≡ none
      → renew_session net status token c w
        ≡ settled (failure status) (give_up (record w { log = refreshed token ∷ w.log }))
  unfolding renew_session
  renewal_failed status token c w n = rw (n, renew_session) refl

  renew_session-Agrees_by :
      (status : Option ℕ) (token access : Text) (r : Option Text) (c : Config) (w : World)
      (o : Option Session)
      → net.renewal w.log token ≡ some (access, r)
      → store_renewal access r w.session ≡ o
      → Agrees
          (renew_session net status token c w)
          (renewing status token c, record w { log = refreshed token ∷ w.log })
  unfolding serve
  renew_session-Agrees_by status token access r c w none n e =
      let w' : World = record w { log = refreshed token ∷ w.log } in
      subst (λ (a : Attempt). Agrees a (renewing status token c, w'))
        (sym (renewal_none status token access r c w n e))
        (ap (λ (o : Option (Text × Option Text)). serve net (renewed o status c w')) n
          ∙ ap (serve net) (renewed-none access r status c w' e))
  renew_session-Agrees_by status token access r c w (some s) n e =
      let w' : World = record w { log = refreshed token ∷ w.log } in
      subst (λ (a : Attempt). Agrees a (renewing status token c, w'))
        (sym (renewal_some status token access r c w n e))
        (ap (λ (o : Option (Text × Option Text)). serve net (renewed o status c w')) n
          ∙ ap (serve net) (renewed-some access r status c w' e))

  renew_session-Agrees :
      (status : Option ℕ) (token : Text) (c : Config) (w : World) (o : Option (Text × Option Text))
      → net.renewal w.log token ≡ o
      → Agrees
          (renew_session net status token c w)
          (renewing status token c, record w { log = refreshed token ∷ w.log })
  unfolding serve renewed
  renew_session-Agrees status token c w none n =
      let w' : World = record w { log = refreshed token ∷ w.log } in
      subst (λ (a : Attempt). Agrees a (renewing status token c, w'))
        (sym (renewal_failed status token c w n))
        (ap (λ (o : Option (Text × Option Text)). serve net (renewed o status c w')) n)
  renew_session-Agrees status token c w (some (access, r)) n =
      renew_session-Agrees_by status token access r c w _ n refl

  with_refresh_token-Agrees :
      (status : Option ℕ) (o : Option Text) (c : Config) (w : World)
      → Agrees (with_refresh_token net status o c w) (ask_renewal status o c w)
  unfolding with_refresh_token ask_renewal serve
  with_refresh_token-Agrees status none c w = refl
  with_refresh_token-Agrees status (some []) c w = refl
  with_refresh_token-Agrees status (some (x ∷ t)) c w =
      renew_session-Agrees status (x ∷ t) c w _ refl

  on_answer-Agrees :
      (a : Answer) (c : Config) (w : World) → Agrees (on_answer net a c w) (answered a c w)
  unfolding on_answer on_error answered serve
  on_answer-Agrees (response n) c w = refl
  on_answer-Agrees (failure status) c w = elim (Bool-cases (is_401 status && not c.retried)) [
    | inl e ↦ rw (e, on_error, answered) (with_refresh_token-Agrees status _ _ w)
    | inr e ↦ rw (e, on_error, answered) refl
  ]

  attempt-Agrees : (c : Config) (w : World) → Agrees (attempt net c w) (serve net (send c w))
  unfolding attempt serve send
  attempt-Agrees c w =
      let c' = authorize w.session c in
      on_answer-Agrees (net.server w.log c') c' (record w { log = sent c' ∷ w.log })

  client_lem_by :
      (c : Config) (w : World) (a : Attempt)
      → attempt net c w ≡ a
      → Retries a
      → Agrees a (serve net (send c w))
      → client 2 net c w ≡ result_of (serve_times 3 net (send c w))
  client_lem_by c w (settled x v) e h k = client_settled 1 net c w e ∙ sym (ap result_of k)
  client_lem_by c w (again d v) e h k =
      client_again 1 net c w e
      ∙ client_settled 0 net d v (attempt_retried net d v h)
      ∙ sym (ap result_of (k ∙ served_again net d v h))

  -- A call that is alone is answered as `client` answers it, with the same session, place and messages
  -- sent: cutting it at its waits changes nothing.
  pub client-serve :
      (c : Config) (w : World) → client 2 net c w ≡ result_of (serve_times 3 net (send c w))
  client-serve c w =
      client_lem_by c w (attempt net c w) refl (attempt-Retries net c w) (attempt-Agrees c w)
