-- ===== src/Mobile/Client/Laws.antt =====
-- What a call of the mobile client makes of the session in memory and in AsyncStorage.
use zhici_photo_upload_platf.Auth.{present}
use zhici_photo_upload_platf.Http.{Answer, Config, Network, failure, is_401, response, sent}
use zhici_photo_upload_platf.Http.Renewal.{RenewsPairs}
use zhici_photo_upload_platf.Mobile.Client.{
  Attempt, World, again, attempt, authorize, client, give_up, on_answer, on_error, renew_session,
  settled, store_renewal, with_refresh_token,
}
use zhici_photo_upload_platf.Mobile.Session.{App, hydrate, reopen, set_access_token}
use zhici_photo_upload_platf.Mobile.Session.Laws.{Settled, clear_auth-Settled, set_auth-Settled}
use zhici_photo_upload_platf.Prelude.{
  Bool-cases, Option, Option-cases, Text, [], arith, false, inl, inr, length, none, not, refl, some,
  suc, true, truthy, ℕ, ◌&&◌, ◌+◌, ◌∙◌, ◌∷◌, ◌≡◌, ◌≤◌,
}

-- What the call has come to: the session outlives the app, what is made again was not before, and
-- few things were sent.
abbrev Good : World → Attempt → Type 0
Good w (settled x v) = Settled v.app × (length v.log ≤ length w.log + 2)
Good w (again c v) = (c.retried ≡ true) × Settled v.app × (length v.log ≤ length w.log + 2)

abbrev StoredOk : Option App → Type 0
StoredOk none = Unit
StoredOk (some a) = Settled a

store_renewal-Settled :
    (access : Text) (r : Option Text) (a : App)
    → truthy access ≡ true
    → present r ≡ true
    → Settled a
    → StoredOk (store_renewal access r a)
unfolding store_renewal set_access_token
store_renewal-Settled access none a t p s = absurd (cc)
store_renewal-Settled access (some []) a t p s = absurd (cc)
store_renewal-Settled access (some (x ∷ r)) a t p s = elim (Option-cases a.state.user) [
  | inl e ↦ rw (e, store_renewal) tt
  | inr (u, e) ↦
      rw (e, store_renewal) (set_auth-Settled access (x ∷ r) u (set_access_token access a) t s.1)
]

module _ (net : Network) (p : RenewsPairs net) where
  give_up-Good :
      (w v : World) (x : Answer)
      → Settled v.app
      → length v.log ≤ length w.log + 2
      → Good w (settled x (give_up v))
  unfolding give_up
  give_up-Good w v x s l = (clear_auth-Settled v.app s.1, l)

  stored-Good :
      (status : Option ℕ) (token access : Text) (r : Option Text) (c : Config) (w v : World)
      (o : Option App)
      → store_renewal access r v.app ≡ o
      → StoredOk o
      → c.retried ≡ true
      → Settled v.app
      → length v.log ≤ length w.log + 1
      → net.renewal v.log token ≡ some (access, r)
      → Good w (renew_session net status token c v)
  unfolding renew_session
  stored-Good status token access r c w v none e k h s l n =
      rw (n, renew_session) (rw e (give_up-Good w _ (failure status) s (omega arith)))
  stored-Good status token access r c w v (some a) e k h s l n =
      rw (n, renew_session) (rw e (h, k, omega arith))

  renew_session-Good :
      (status : Option ℕ) (token : Text) (c : Config) (w v : World)
      → c.retried ≡ true
      → Settled v.app
      → length v.log ≤ length w.log + 1
      → Good w (renew_session net status token c v)
  unfolding renew_session
  renew_session-Good status token c w v h s l = elim (Option-cases (net.renewal v.log token)) [
    | inl e ↦ rw (e, renew_session) (give_up-Good w _ (failure status) s (omega arith))
    | inr (x, e) ↦
        let (t, q) = p v.log token x.0 x.1 e in
        stored-Good status token x.0 x.1 c w v _ refl (store_renewal-Settled x.0 x.1 v.app t q s) h
          s l e
  ]

  with_refresh_token-Good :
      (status : Option ℕ) (o : Option Text) (c : Config) (w v : World)
      → c.retried ≡ true
      → Settled v.app
      → length v.log ≤ length w.log + 1
      → Good w (with_refresh_token net status o c v)
  unfolding with_refresh_token
  with_refresh_token-Good status none c w v h s l =
      give_up-Good w v (failure status) s (omega arith)
  with_refresh_token-Good status (some []) c w v h s l =
      give_up-Good w v (failure status) s (omega arith)
  with_refresh_token-Good status (some (x ∷ t)) c w v h s l =
      renew_session-Good status (x ∷ t) c w v h s l

  on_answer-Good :
      (x : Answer) (c : Config) (w v : World)
      → Settled v.app
      → length v.log ≤ length w.log + 1
      → Good w (on_answer net x c v)
  unfolding on_answer on_error
  on_answer-Good (response n) c w v s l = (s, omega arith)
  on_answer-Good (failure status) c w v s l = elim (Bool-cases (is_401 status && not c.retried)) [
    | inl e ↦ rw (e, on_error) (with_refresh_token-Good status _ _ w v refl s l)
    | inr e ↦ rw (e, on_error) (s, omega arith)
  ]

  attempt-Good : (c : Config) (w : World) → Settled w.app → Good w (attempt net c w)
  unfolding attempt
  attempt-Good c w s =
      let c' = authorize w.app c in
      on_answer-Good (net.server w.log c') c' w (record w { log = sent c' ∷ w.log }) s (omega arith)

-- A request that was retried once is not made again.
attempt_retried :
    (net : Network) (c : Config) (w : World)
    → c.retried ≡ true
    → let c' = authorize w.app c in
      attempt net c w ≡ settled (net.server w.log c') (record w { log = sent c' ∷ w.log })
unfolding attempt on_answer on_error authorize
attempt_retried net c w h = ground arith

client_settled :
    (fuel : ℕ) (net : Network) (c : Config) (w : World) {x : Answer} {v : World}
    → attempt net c w ≡ settled x v
    → client (suc fuel) net c w ≡ some (x, v)
unfolding client
client_settled fuel net c w e = rw (e, client)

client_again :
    (fuel : ℕ) (net : Network) (c : Config) (w : World) {c' : Config} {v : World}
    → attempt net c w ≡ again c' v
    → client (suc fuel) net c w ≡ client fuel net c' v
unfolding client
client_again fuel net c w e = rw (e, client)

abbrev EndsDurably : ℕ → Network → Config → World → Type 0
EndsDurably fuel net c w =
    (r : Answer × World) × (client (suc (suc fuel)) net c w ≡ some r)
    × (hydrate (reopen r.1.app) ≡ r.1.app)
    × (length r.1.log ≤ length w.log + 3)

client-EndsDurably_by :
    (fuel : ℕ) (net : Network) (c : Config) (w : World) (a : Attempt)
    → attempt net c w ≡ a
    → Good w a
    → EndsDurably fuel net c w
client-EndsDurably_by fuel net c w (settled x v) e (s, l) =
    ((x, v), client_settled (suc fuel) net c w e, s.0, omega arith)
client-EndsDurably_by fuel net c w (again c' v) e (h, s, l) = (
  _,
  client_again (suc fuel) net c w e ∙ client_settled fuel net c' v (attempt_retried net c' v h),
  s.0,
  omega arith,
)

-- Provided that a renewal brings a pair of tokens that are not empty: a call of an app that has loaded
-- and would lose nothing if it were closed ends with an answer, fuel for two passages being enough;
-- at most three things are sent; and the app would still lose nothing if it were closed.
pub client_ends_durably :
    (fuel : ℕ) (net : Network) (c : Config) (w : World)
    → RenewsPairs net
    → hydrate (reopen w.app) ≡ w.app
    → w.app.state.is_loading ≡ false
    → (r : Answer × World) × (client (suc (suc fuel)) net c w ≡ some r)
      × (hydrate (reopen r.1.app) ≡ r.1.app)
      × (length r.1.log ≤ length w.log + 3)
client_ends_durably fuel net c w p d l =
    client-EndsDurably_by fuel net c w (attempt net c w) refl (attempt-Good net p c w (d, l))
