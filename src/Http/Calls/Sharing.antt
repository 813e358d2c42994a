-- ===== src/Http/Calls/Sharing.antt =====
-- What calls that are under way at once do to the session that they share.
use zhici_photo_upload_platf.Auth.{Session, User, clear_auth, present, set_auth}
use zhici_photo_upload_platf.Auth.Laws.{IsSynced, clear_auth-IsSynced}
use zhici_photo_upload_platf.Http.{
  Answer, Config, World, failure, give_up, is_401, response, store_renewal, refreshed, authorize,
  sent,
}
use zhici_photo_upload_platf.Http.Calls.{
  Arrival, Phase, Pool, advance, advance_at, answers, answered, arrive, ask_renewal, begin,
  change_session, done, renews, renewed, renewing, send, waiting,
}
use zhici_photo_upload_platf.Http.Calls.Settling.{Run, arrives, begins, changes, start}
use zhici_photo_upload_platf.Http.Renewal.{store_renewal-IsSynced}
use zhici_photo_upload_platf.Prelude.{
  Bool-cases, List, Option, Option-cases, Text, [], false, inl, inr, none, not, some, suc, true,
  truthy, zero, ℕ, ◌&&◌, ◌∷◌, ◌≡◌, ap, refl, ◌∙◌,
}

-- What the backend documents of a renewal: it brings a new pair of tokens, neither empty, or fails.
abbrev pub BringsPairs : Arrival → Type 0
BringsPairs (answers a) = Unit
BringsPairs (renews none) = Unit
BringsPairs (renews (some (access, r))) = (truthy access ≡ true) × (present r ≡ true)

-- A page signs in or out, which keeps memory and storage together.
abbrev pub KeepsSynced : (Session → Session) → Type 0
KeepsSynced f = (s : Session) → IsSynced s → IsSynced (f s)

give_up-IsSynced : (w : World) → IsSynced (give_up w).session
unfolding give_up
give_up-IsSynced w = clear_auth-IsSynced w.session

ask_renewal-IsSynced :
    (status : Option ℕ) (o : Option Text) (c : Config) (w : World)
    → IsSynced w.session
    → IsSynced (ask_renewal status o c w).1.session
unfolding ask_renewal
ask_renewal-IsSynced status none c w s = give_up-IsSynced w
ask_renewal-IsSynced status (some []) c w s = give_up-IsSynced w
ask_renewal-IsSynced status (some (x ∷ t)) c w s = s

answered-IsSynced :
    (a : Answer) (c : Config) (w : World) → IsSynced w.session → IsSynced (answered a c w).1.session
unfolding answered
answered-IsSynced (response n) c w s = s
answered-IsSynced (failure status) c w s = elim (Bool-cases (is_401 status && not c.retried)) [
  | inl e ↦ rw (e, answered) (ask_renewal-IsSynced status _ _ w s)
  | inr e ↦ rw (e, answered) s
]

renewed-IsSynced :
    (o : Option (Text × Option Text)) (status : Option ℕ) (c : Config) (w : World)
    → BringsPairs (renews o)
    → IsSynced w.session
    → IsSynced (renewed o status c w).1.session
unfolding renewed send
renewed-IsSynced none status c w p s = give_up-IsSynced w
renewed-IsSynced (some (access, r)) status c w p s =
    elim (Option-cases (store_renewal access r w.session)) [
      | inl e ↦ rw (e, renewed) (give_up-IsSynced w)
      | inr (s', e) ↦ rw (e, renewed) (store_renewal-IsSynced access r w.session p.0 p.1 e)
    ]

advance-IsSynced :
    (a : Arrival) (c : Phase) (w : World)
    → BringsPairs a
    → IsSynced w.session
    → IsSynced (advance a c w).1.session
unfolding advance
advance-IsSynced (answers a) (waiting c) w p s = answered-IsSynced a c w s
advance-IsSynced (answers a) (renewing status token c) w p s = s
advance-IsSynced (answers a) (done b) w p s = s
advance-IsSynced (renews o) (waiting c) w p s = s
advance-IsSynced (renews o) (renewing status token c) w p s = renewed-IsSynced o status c w p s
advance-IsSynced (renews o) (done b) w p s = s

advance_at-IsSynced :
    (i : ℕ) (a : Arrival) (cs : List Phase) (w : World)
    → BringsPairs a
    → IsSynced w.session
    → IsSynced (advance_at i a cs w).1.session
unfolding advance_at
advance_at-IsSynced i a [] w p s = s
advance_at-IsSynced zero a (c ∷ cs) w p s = advance-IsSynced a c w p s
advance_at-IsSynced (suc i) a (c ∷ cs) w p s = advance_at-IsSynced i a cs w p s

-- Provided that each renewal brings a pair of tokens that are not empty or fails, and that pages change
-- the session by operations that keep memory and storage together: whatever calls are under way at
-- once and in whatever order their answers arrive, a reload of the page reads the session that the
-- memory has.
pub calls-IsSynced :
    {p : Pool} {n : ℕ} {q : Pool}
    → IsSynced p.world.session
    → Run BringsPairs KeepsSynced p n q
    → IsSynced q.world.session
unfolding begin send change_session arrive
calls-IsSynced s start = s
calls-IsSynced s (begins r x) = calls-IsSynced s r
calls-IsSynced s (changes r f h) = h _ (calls-IsSynced s r)
calls-IsSynced s (arrives {q} r i a e h) =
    advance_at-IsSynced i a q.calls q.world h (calls-IsSynced s r)

-- Two calls get the answer 401 before either renewal has ended.
abbrev pub both_refused : World → Config → Config → Pool
both_refused w c d = arrive 1 (answers (failure (some 401))) (
    arrive 0 (answers (failure (some 401)))
      (record { world = w; calls = waiting c ∷ waiting d ∷ [] }))

refused :
    (w : World) (c : Config) (t : Text)
    → w.session.state.refresh_token ≡ some t
    → truthy t ≡ true
    → c.retried ≡ false
    → answered (failure (some 401)) c w ≡ (
      renewing (some 401) t (record c { retried = true }),
      record w { log = refreshed t ∷ w.log },
    )
unfolding answered ask_renewal
refused w c t ht h hc = rw (hc, answered) (rw (ht, ask_renewal) (rw (h, ask_renewal) refl))

pair_stored :
    (w : World) (c : Config) (access r : Text) (u : User)
    → w.session.state.user ≡ some u
    → truthy r ≡ true
    → renewed (some (access, some r)) (some 401) c w
      ≡ send
          (record c { authorization = some access })
          (record w { session = set_auth access r u w.session })
unfolding renewed store_renewal set_auth
pair_stored w c access r u hu h = rw (h, renewed) (rw (hu, renewed) refl)

abbrev renewing_with : Text → Config → Phase
renewing_with t c = renewing (some 401) t (record c { retried = true })

both_refused_lem :
    (w : World) (c d : Config) (t : Text)
    → w.session.state.refresh_token ≡ some t
    → truthy t ≡ true
    → (c.retried ≡ false) × (d.retried ≡ false)
    → both_refused w c d ≡ record {
      world = record w { log = refreshed t ∷ refreshed t ∷ w.log };
      calls = renewing_with t c ∷ renewing_with t d ∷ [];
    }
unfolding arrive advance_at advance
both_refused_lem w c d t ht h (hc, hd) =
    rw (refused w c t ht h hc)
      (rw (refused (record w { log = refreshed t ∷ w.log }) d t ht h hd) refl)

-- The call as it is made again: marked, and with the new access token.
abbrev pub again_with : Text → Config → Config
again_with access c = record c { retried = true; authorization = some access }

pub authorize-again_with :
    (access r : Text) (u : User) (s : Session) (c : Config)
    → authorize (set_auth access r u s) (again_with access c) ≡ again_with access c
unfolding authorize set_auth
authorize-again_with access r u s c = elim (Bool-cases (truthy access)) [
  | inl e ↦ rw (e, authorize) refl
  | inr e ↦ rw (e, authorize) refl
]

pub send-again_with :
    (access r : Text) (u : User) (w : World) (c : Config)
    → send (again_with access c) (record w { session = set_auth access r u w.session }) ≡ (
      waiting (again_with access c),
      record w {
        session = set_auth access r u w.session;
        log = sent (again_with access c) ∷ w.log;
      },
    )
unfolding send
send-again_with access r u w c =
    ap
      (λ d. (waiting d, record w { session = set_auth access r u w.session; log = sent d ∷ w.log }))
      (authorize-again_with access r u w.session c)

-- When two calls get the answer 401 before either renewal has ended, both renewals send the same
-- refresh token. The backend takes a refresh token once. So when the first renewal has brought a new
-- pair of tokens for the user, the first call is made again with the new access token; and when the
-- second renewal is refused, the new session is dropped and the browser sent to the login page, while
-- the first call still waits for its answer.
pub renewals_race :
    (w : World) (c d : Config) (t access r : Text) (u : User)
    → w.session.state.refresh_token ≡ some t
    → w.session.state.user ≡ some u
    → (truthy t ≡ true) × (truthy r ≡ true)
    → (c.retried ≡ false) × (d.retried ≡ false)
    → let p = both_refused w c d in
      let q = arrive 0 (renews (some (access, some r))) p in
      let z = arrive 1 (renews none) q in
      (p.world.log ≡ refreshed t ∷ refreshed t ∷ w.log)
      × (q.world.session ≡ set_auth access r u w.session)
      × (q.world.log ≡ sent (again_with access c) ∷ refreshed t ∷ refreshed t ∷ w.log)
      × (z.calls ≡ waiting (again_with access c) ∷ done (failure (some 401)) ∷ [])
      × (z.world.session ≡ clear_auth w.session)
      × (z.world.location ≡ some "/login")
unfolding arrive advance_at advance renewed give_up clear_auth
renewals_race w c d t access r u ht hu (h, k) hr =
    let v : World = record w { log = refreshed t ∷ refreshed t ∷ w.log } in
    let e = both_refused_lem w c d t ht h hr in
    let f =
      pair_stored v (record c { retried = true }) access r u hu k
      ∙ send-again_with access r u v c in
    let first = arrive 0 (renews (some (access, some r))) in
    let g =
      ap first e
      ∙ ap (λ (x : Phase × World). record { world = x.1; calls = x.0 ∷ renewing_with t d ∷ [] })
          f in
    (
      ap (λ (p : Pool). p.world.log) e,
      ap (λ (p : Pool). p.world.session) g,
      ap (λ (p : Pool). p.world.log) g,
      ap (λ (p : Pool). (arrive 1 (renews none) p).calls) g,
      ap (λ (p : Pool). (arrive 1 (renews none) p).world.session) g,
      ap (λ (p : Pool). (arrive 1 (renews none) p).world.location) g,
    )
