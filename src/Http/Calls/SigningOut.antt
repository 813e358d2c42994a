-- ===== src/Http/Calls/SigningOut.antt =====
-- Calls that are still under way when the user signs out, or signs in as someone else.
use zhici_photo_upload_platf.Auth.{
  Session, clear_auth, empty_storage, present, signed_out, User, set_auth,
}
use zhici_photo_upload_platf.Http.{
  Answer, Config, Event, World, authorize, failure, give_up, is_401, refreshed, response, sent,
  store_renewal,
}
use zhici_photo_upload_platf.Http.Calls.{
  Arrival, Phase, Pool, advance, advance_at, answered, answers, arrive, ask_renewal, begin,
  change_session, done, fresh, renewed, renewing, renews, send, waiting,
}
use zhici_photo_upload_platf.Http.Calls.Settling.{Run, arrives, begins, changes, start}
use zhici_photo_upload_platf.Http.Calls.Sharing.{BringsPairs, again_with, authorize-again_with}
use zhici_photo_upload_platf.Prelude.{
  All, Bool-cases, List, Option, Text, [], ap, inl, inr, none, not, refl, some, suc, true, zero, ℕ,
  ◌&&◌, ◌++◌, ◌∙◌, ◌∷◌, ◌≡◌, truthy,
}

-- The session that signing out leaves.
abbrev pub no_session : Session
no_session = record { storage = empty_storage; state = signed_out }

-- A request without a token. A renewal always sends one.
abbrev pub IsBare : Event → Type 0
IsBare (sent c) = c.authorization ≡ none
IsBare (refreshed t) = ⊥

-- Nobody is signed in, and no token was sent since the log was `es`.
abbrev pub IsQuiet : List Event → World → Type 0
IsQuiet es w = (w.session ≡ no_session) × ((ds : List Event) × (w.log ≡ ds ++ es) × All IsBare ds)

-- The pages do not sign anyone in.
abbrev pub KeepsOut : (Session → Session) → Type 0
KeepsOut f = f no_session ≡ no_session

module _ (es : List Event) where
  give_up-IsQuiet : (w : World) → IsQuiet es w → IsQuiet es (give_up w)
  unfolding give_up clear_auth
  give_up-IsQuiet w q = (refl, q.1)

  ask_renewal-IsQuiet :
      (status : Option ℕ) (o : Option Text) (c : Config) (w : World)
      → o ≡ none
      → IsQuiet es w
      → IsQuiet es (ask_renewal status o c w).1
  unfolding ask_renewal
  ask_renewal-IsQuiet status none c w e q = give_up-IsQuiet w q
  ask_renewal-IsQuiet status (some t) c w e q = absurd (cc)

  answered-IsQuiet :
      (a : Answer) (c : Config) (w : World) → IsQuiet es w → IsQuiet es (answered a c w).1
  unfolding answered
  answered-IsQuiet (response n) c w q = q
  answered-IsQuiet (failure status) c w q = elim (Bool-cases (is_401 status && not c.retried)) [
    | inl e ↦
        rw (e, answered)
          (ask_renewal-IsQuiet status _ _ w (ap (λ (s : Session). s.state.refresh_token) q.0) q)
    | inr e ↦ rw (e, answered) q
  ]

  -- `setAuth` throws without a user.
  store_renewal-no_session :
      (access : Text) (r : Option Text) (s : Session)
      → s ≡ no_session
      → present r ≡ true
      → store_renewal access r s ≡ none
  unfolding store_renewal
  store_renewal-no_session access none s e h = absurd (cc)
  store_renewal-no_session access (some []) s e h = absurd (cc)
  store_renewal-no_session access (some (x ∷ r)) s e h = rw (e, store_renewal) refl

  renewed-IsQuiet :
      (o : Option (Text × Option Text)) (status : Option ℕ) (c : Config) (w : World)
      → BringsPairs (renews o)
      → IsQuiet es w
      → IsQuiet es (renewed o status c w).1
  unfolding renewed
  renewed-IsQuiet none status c w p q = give_up-IsQuiet w q
  renewed-IsQuiet (some (access, r)) status c w p q =
      rw (store_renewal-no_session access r w.session q.0 p.1, renewed) (give_up-IsQuiet w q)

  advance-IsQuiet :
      (a : Arrival) (c : Phase) (w : World)
      → BringsPairs a
      → IsQuiet es w
      → IsQuiet es (advance a c w).1
  unfolding advance
  advance-IsQuiet (answers a) (waiting c) w p q = answered-IsQuiet a c w q
  advance-IsQuiet (answers a) (renewing status token c) w p q = q
  advance-IsQuiet (answers a) (done b) w p q = q
  advance-IsQuiet (renews o) (waiting c) w p q = q
  advance-IsQuiet (renews o) (renewing status token c) w p q = renewed-IsQuiet o status c w p q
  advance-IsQuiet (renews o) (done b) w p q = q

  advance_at-IsQuiet :
      (i : ℕ) (a : Arrival) (cs : List Phase) (w : World)
      → BringsPairs a
      → IsQuiet es w
      → IsQuiet es (advance_at i a cs w).1
  unfolding advance_at
  advance_at-IsQuiet i a [] w p q = q
  advance_at-IsQuiet zero a (c ∷ cs) w p q = advance-IsQuiet a c w p q
  advance_at-IsQuiet (suc i) a (c ∷ cs) w p q = advance_at-IsQuiet i a cs w p q

  authorize-no_session : (s : Session) (c : Config) → s ≡ no_session → authorize s c ≡ c
  unfolding authorize
  authorize-no_session s c e = rw (e, authorize) refl

  send-IsQuiet :
      (c : Config) (w : World) → c.authorization ≡ none → IsQuiet es w → IsQuiet es (send c w).1
  unfolding send
  send-IsQuiet c w h (e, (ds, l, b)) =
      let k = authorize-no_session w.session c e in
      (
        e,
        (
          sent (authorize w.session c) ∷ ds,
          ap (λ x. sent (authorize w.session c) ∷ x) l,
          (rw k h, b),
        ),
      )

-- Once the user has signed out, the session stays as signing out left it, whichever calls are still
-- under way or made anew, and in whatever order their answers arrive, renewals among them, as long as
-- nobody signs in: provided that each renewal brings a pair of tokens that are not empty or fails. And
-- no request that is sent meanwhile carries a token.
pub signed_out_stays :
    {p : Pool} {n : ℕ} {q : Pool}
    → p.world.session ≡ no_session
    → Run BringsPairs KeepsOut p n q
    → (q.world.session ≡ no_session)
      × ((ds : List Event) × (q.world.log ≡ ds ++ p.world.log) × All IsBare ds)
unfolding begin change_session arrive
signed_out_stays e start = (e, ([], refl, tt))
signed_out_stays e (begins {q} r x) = send-IsQuiet _ (fresh x) q.world refl (signed_out_stays e r)
signed_out_stays e (changes r f h) = let (s, l) = signed_out_stays e r in (ap f s ∙ h, l)
signed_out_stays e (arrives {q} r i a x h) =
    advance_at-IsQuiet _ i a q.calls q.world h (signed_out_stays e r)

-- A call waits for a renewal, and meanwhile the user signs out and someone else signs in with a user's
-- record and tokens of their own. When the renewal brings its pair, the session is that of the second
-- user with the tokens of the first, in memory and in storage, and the call of the first user is made
-- again in it.
pub renewal_mixes_users :
    (w : World) (status : Option ℕ) (token access r : Text) (c : Config) (cs : List Phase)
    (access' r' : Text) (u : User)
    → c.retried ≡ true
    → truthy r ≡ true
    → let p : Pool = record { world = w; calls = renewing status token c ∷ cs } in
      let q = change_session (set_auth access' r' u) (change_session clear_auth p) in
      let z = arrive 0 (renews (some (access, some r))) q in
      (z.world.session ≡ set_auth access r u w.session)
      × (z.calls ≡ waiting (again_with access c) ∷ cs)
      × (z.world.log ≡ sent (again_with access c) ∷ w.log)
unfolding arrive advance_at advance renewed store_renewal set_auth clear_auth change_session send
renewal_mixes_users w status token access [] c cs access' r' u m h = absurd (cc)
renewal_mixes_users w status token access (x ∷ r) c cs access' r' u m h =
    let s = set_auth access' r' u (clear_auth w.session) in
    let d : Config = record c { authorization = some access } in
    let e : d ≡ again_with access c = rw m refl in
    let f =
      ap (authorize (set_auth access (x ∷ r) u s)) e ∙ authorize-again_with access (x ∷ r) u s c in
    (refl, ap (λ y. waiting y ∷ cs) f, ap (λ y. sent y ∷ w.log) f)
