-- ===== src/Http/Renewal.antt =====
-- What a call makes of the session.
use mathlib.Core.Path.{subst}
use zhici_photo_upload_platf.Auth.{clear_auth, Session, present}
use zhici_photo_upload_platf.Http.{
  Attempt, Config, Network, World, again, give_up, settled, store_renewal, on_error, renew_session,
  Answer, Event, attempt, failure, is_401, on_answer, response, with_refresh_token, authorize,
  client, sent,
}
use zhici_photo_upload_platf.Prelude.{
  Option, Text, ap, refl, some, ℕ, ◌≡◌, Option-cases, inl, inr, none, Bool-cases, List, [], not,
  ◌&&◌, ◌∷◌, suc, sym, ◌∙◌, true, truthy,
}
use zhici_photo_upload_platf.Http.Laws.{
  Retries, client_settled, attempt-Retries, attempt_retried, client_again,
}
use zhici_photo_upload_platf.Auth.Laws.{IsSynced, clear_auth-IsSynced, set_auth-IsSynced}

module _ (net : Network) where
  -- How a call may leave the session: as it was, renewed with what the network answered, or dropped
  -- with the browser on its way to the login page.
  pub data After (w : World) : World → Type 0 where
    untouched : {v : World} → v.session ≡ w.session → v.location ≡ w.location → After w v
    renewed :
        {v : World} (log : List Event) (token access : Text) (r : Option Text)
        → net.renewal log token ≡ some (access, r)
        → store_renewal access r w.session ≡ some v.session
        → v.location ≡ w.location
        → After w v
    dropped :
        {v : World} → v.session ≡ clear_auth w.session → v.location ≡ some "/login" → After w v

  abbrev AfterOf : World → Option (Answer × World) → Type 0
  AfterOf w none = Unit
  AfterOf w (some (x, v)) = After w v

  abbrev world_of : Attempt → World
  world_of (settled a w) = w
  world_of (again c w) = w

  give_up-After : (w v : World) → v.session ≡ w.session → After w (give_up v)
  unfolding give_up
  give_up-After w v e = dropped (ap clear_auth e) refl

  renewed_by :
      (status : Option ℕ) (token access : Text) (r : Option Text) (c : Config) (w v : World)
      (o : Option Session)
      → store_renewal access r v.session ≡ o
      → v.session ≡ w.session
      → v.location ≡ w.location
      → net.renewal v.log token ≡ some (access, r)
      → After w (world_of (renew_session net status token c v))
  unfolding renew_session
  renewed_by status token access r c w v none e s l n =
      rw (n, renew_session) (rw e (give_up-After w _ s))
  renewed_by status token access r c w v (some s') e s l n =
      rw (n, renew_session) (rw e (renewed v.log token access r n (rw (← s) e) l))

  renew_session-After :
      (status : Option ℕ) (token : Text) (c : Config) (w v : World)
      → v.session ≡ w.session
      → v.location ≡ w.location
      → After w (world_of (renew_session net status token c v))
  unfolding renew_session
  renew_session-After status token c w v s l = elim (Option-cases (net.renewal v.log token)) [
    | inl e ↦ rw (e, renew_session) (give_up-After w _ s)
    | inr (x, e) ↦ renewed_by status token x.0 x.1 c w v _ refl s l e
  ]

  with_refresh_token-After :
      (status : Option ℕ) (o : Option Text) (c : Config) (w v : World)
      → v.session ≡ w.session
      → v.location ≡ w.location
      → After w (world_of (with_refresh_token net status o c v))
  unfolding with_refresh_token
  with_refresh_token-After status none c w v s l = give_up-After w v s
  with_refresh_token-After status (some []) c w v s l = give_up-After w v s
  with_refresh_token-After status (some (x ∷ t)) c w v s l =
      renew_session-After status (x ∷ t) c w v s l

  on_error-After :
      (status : Option ℕ) (c : Config) (w v : World)
      → v.session ≡ w.session
      → v.location ≡ w.location
      → After w (world_of (on_error net status c v))
  unfolding on_error
  on_error-After status c w v s l = elim (Bool-cases (is_401 status && not c.retried)) [
    | inl e ↦ rw (e, on_error) (with_refresh_token-After status _ _ w v s l)
    | inr e ↦ rw (e, on_error) (untouched s l)
  ]

  on_answer-After :
      (a : Answer) (c : Config) (w v : World)
      → v.session ≡ w.session
      → v.location ≡ w.location
      → After w (world_of (on_answer net a c v))
  unfolding on_answer
  on_answer-After (response n) c w v s l = untouched s l
  on_answer-After (failure status) c w v s l = on_error-After status c w v s l

  attempt-After : (c : Config) (w : World) → After w (world_of (attempt net c w))
  unfolding attempt
  attempt-After c w =
      let c' = authorize w.session c in
      on_answer-After (net.server w.log c') c' w (record w { log = sent c' ∷ w.log }) refl refl

  After-log : {w v : World} (log : List Event) → After w v → After w (record v { log = log })
  After-log log (untouched s l) = untouched s l
  After-log log (renewed old token access r n e l) = renewed old token access r n e l
  After-log log (dropped s l) = dropped s l

  client-After_by :
      (fuel : ℕ) (c : Config) (w : World) {x : Answer} {v : World} (a : Attempt)
      → attempt net c w ≡ a
      → Retries a
      → After w (world_of a)
      → client (suc (suc fuel)) net c w ≡ some (x, v)
      → After w v
  client-After_by fuel c w (settled x' v') e h k h' =
      subst (λ (o : Option (Answer × World)). AfterOf w o)
        (sym (client_settled (suc fuel) net c w e) ∙ h') k
  client-After_by fuel c w (again c' w') e h k h' =
      subst (λ (o : Option (Answer × World)). AfterOf w o)
        (sym (
            client_again (suc fuel) net c w e
            ∙ client_settled fuel net c' w' (attempt_retried net c' w' h))
          ∙ h')
        (After-log _ k)

  -- When a call has ended, the session is as it was, or renewed by one answer to a renewal, or it is
  -- dropped and the browser sent to the login page.
  pub client-After :
      (fuel : ℕ) (c : Config) (w : World) {x : Answer} {v : World}
      → client (suc (suc fuel)) net c w ≡ some (x, v)
      → After w v
  client-After fuel c w e =
      client-After_by fuel c w (attempt net c w) refl (attempt-Retries net c w) (attempt-After c w)
        e

-- What the backend documents of a renewal: it answers with a new pair of tokens, neither empty.
abbrev pub RenewsPairs : Network → Type 0
RenewsPairs net =
    (log : List Event) (token access : Text) (r : Option Text)
    → net.renewal log token ≡ some (access, r)
    → (truthy access ≡ true) × (present r ≡ true)

abbrev Synced : Option Session → Type 0
Synced none = Unit
Synced (some s) = IsSynced s

pub store_renewal-IsSynced :
    (access : Text) (r : Option Text) (s : Session) {s' : Session}
    → truthy access ≡ true
    → present r ≡ true
    → store_renewal access r s ≡ some s'
    → IsSynced s'
unfolding store_renewal
store_renewal-IsSynced access none s t p e = cc
store_renewal-IsSynced access (some []) s t p e = cc
store_renewal-IsSynced access (some (x ∷ r)) s {s'} t p e = elim (Option-cases s.state.user) [
  | inl n ↦ absurd (cc (rw (n, store_renewal) at e))
  | inr (u, n) ↦ subst Synced (rw (n, store_renewal) at e) (set_auth-IsSynced access (x ∷ r) u s t)
]

After-IsSynced :
    (net : Network) {w v : World}
    → RenewsPairs net
    → IsSynced w.session
    → After net w v
    → IsSynced v.session
After-IsSynced net p s (untouched e l) = subst IsSynced (sym e) s
After-IsSynced net {w} p s (renewed log token access r n e l) =
    let (t, q) = p log token access r n in store_renewal-IsSynced access r w.session t q e
After-IsSynced net {w} p s (dropped e l) = subst IsSynced (sym e) (clear_auth-IsSynced w.session)

-- Provided that a renewal brings a pair of tokens that are not empty, a call leaves the session such
-- that a reload of the page reads the same: memory and storage are never apart after it.
pub client-IsSynced :
    (fuel : ℕ) (net : Network) (c : Config) (w : World) {x : Answer} {v : World}
    → RenewsPairs net
    → IsSynced w.session
    → client (suc (suc fuel)) net c w ≡ some (x, v)
    → IsSynced v.session
client-IsSynced fuel net c w p s e = After-IsSynced net p s (client-After net fuel c w e)
