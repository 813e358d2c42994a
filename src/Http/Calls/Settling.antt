-- ===== src/Http/Calls/Settling.antt =====
-- Calls that are under way at once all come to an end.
use zhici_photo_upload_platf.Api.{Request}
use zhici_photo_upload_platf.Auth.{Session}
use zhici_photo_upload_platf.Http.{
  World, failure, response, Answer, Config, authorize, store_renewal,
}
use zhici_photo_upload_platf.Http.Calls.{
  Arrival, Phase, Pool, advance, answers, answered, arrive, ask_renewal, begin, change_session,
  done, renews, renewed, renewing, send, waiting, advance_at, fresh,
}
use zhici_photo_upload_platf.Prelude.{
  List, [], arith, if◌then◌else◌, none, some, suc, true, zero, ℕ, ◌+◌, ◌<◌, ◌∷◌, ◌≡◌, All,
  All-append, Option, Option-cases, Text, ap, inl, inr, length, length-append, refl, ◌*◌, ◌++◌, ◌≤◌,
  ◌⊎◌,
}

-- What a call waits for.
abbrev pub Expects : Arrival → Phase → Type 0
Expects (answers a) (waiting c) = Unit
Expects (answers a) (renewing status token c) = ⊥
Expects (answers a) (done b) = ⊥
Expects (renews o) (waiting c) = ⊥
Expects (renews o) (renewing status token c) = Unit
Expects (renews o) (done b) = ⊥

-- The call at an index waits for it.
abbrev pub Awaited : ℕ → Arrival → List Phase → Type 0
Awaited i a [] = ⊥
Awaited zero a (c ∷ cs) = Expects a c
Awaited (suc i) a (c ∷ cs) = Awaited i a cs

-- Runs, with the number of arrivals that a call waited for. What may arrive and how the pages may
-- change the session are parameters.
pub data Run (Arrives : Arrival → Type 0) (Changes : (Session → Session) → Type 0) (p : Pool)
    : ℕ → Pool → Type 0 where
  start : Run Arrives Changes p 0 p
  begins :
      {n : ℕ} {q : Pool}
      → Run Arrives Changes p n q
      → (r : Request) → Run Arrives Changes p n (begin r q)
  changes :
      {n : ℕ} {q : Pool}
      → Run Arrives Changes p n q
      → (f : Session → Session) → Changes f
      → Run Arrives Changes p n (change_session f q)
  arrives :
      {n : ℕ} {q : Pool}
      → Run Arrives Changes p n q
      → (i : ℕ) (a : Arrival) → Awaited i a q.calls
      → Arrives a
      → Run Arrives Changes p (suc n) (arrive i a q)

-- Once the renewal is under way, the retry is marked as such.
abbrev IsMarked : Phase → Type 0
IsMarked (waiting c) = Unit
IsMarked (renewing status token c) = c.retried ≡ true
IsMarked (done a) = Unit

-- The arrivals that are left for a call, at most.
abbrev pub left : Phase → ℕ
left (waiting c) = if c.retried then 1 else 3
left (renewing status token c) = 2
left (done a) = 0

abbrev pub total_left : List Phase → ℕ
total_left [] = 0
total_left (c ∷ cs) = left c + total_left cs

Shrinks : ℕ → Phase × World → Type 0
Shrinks n r = IsMarked r.0 × (left r.0 < n)

send-Shrinks : (c : Config) (w : World) → c.retried ≡ true → Shrinks 2 (send c w)
unfolding send authorize Shrinks
send-Shrinks c w m = elim (Option-cases w.session.state.access_token) [
  | inl e ↦ (tt, ground (arith, e, m))
  | inr (t, e) ↦ (tt, ground (arith, e, m))
]

answered-Shrinks :
    (a : Answer) (c : Config) (w : World) → Shrinks (left (waiting c)) (answered a c w)
unfolding answered ask_renewal Shrinks
answered-Shrinks (response n) c w = (tt, ground arith)
answered-Shrinks (failure status) c w = ground arith

renewed-Shrinks :
    (o : Option (Text × Option Text)) (status : Option ℕ) (c : Config) (w : World)
    → c.retried ≡ true
    → Shrinks 2 (renewed o status c w)
unfolding renewed Shrinks
renewed-Shrinks none status c w m = (tt, omega arith)
renewed-Shrinks (some (access, r)) status c w m =
    elim (Option-cases (store_renewal access r w.session)) [
      | inl e ↦ rw (e, renewed) (tt, omega arith)
      | inr (s, e) ↦
          rw (e, renewed)
            (send-Shrinks (record c { authorization = some access }) (record w { session = s }) m)
    ]

advance-Shrinks :
    (a : Arrival) (c : Phase) (w : World)
    → Expects a c
    → IsMarked c
    → Shrinks (left c) (advance a c w)
unfolding advance
advance-Shrinks (answers a) (waiting c) w e m = answered-Shrinks a c w
advance-Shrinks (answers a) (renewing status token c) w e m = absurd e
advance-Shrinks (answers a) (done b) w e m = absurd e
advance-Shrinks (renews o) (waiting c) w e m = absurd e
advance-Shrinks (renews o) (renewing status token c) w e m = renewed-Shrinks o status c w m
advance-Shrinks (renews o) (done b) w e m = absurd e

advance_at-Shrinks :
    (i : ℕ) (a : Arrival) (cs : List Phase) (w : World)
    → Awaited i a cs
    → All IsMarked cs
    → All IsMarked (advance_at i a cs w).0
      × (total_left (advance_at i a cs w).0 < total_left cs)
      × (length (advance_at i a cs w).0 ≡ length cs)
unfolding advance_at Shrinks
advance_at-Shrinks i a [] w e m = absurd e
advance_at-Shrinks zero a (c ∷ cs) w e m =
    let s = advance-Shrinks a c w e m.0 in ((s.0, m.1), omega (arith, s.1), refl)
advance_at-Shrinks (suc i) a (c ∷ cs) w e m =
    let (k, l, n) = advance_at-Shrinks i a cs w e m.1 in ((m.0, k), omega (arith, l), ap suc n)

total_left-append : (cs ds : List Phase) → total_left (cs ++ ds) ≡ total_left cs + total_left ds
total_left-append [] ds = omega arith
total_left-append (c ∷ cs) ds = omega (arith, total_left-append cs ds)

-- What is left after a number of arrivals, of three for each call.
abbrev Budget : ℕ → Pool → Type 0
Budget n p = All IsMarked p.calls × (n + total_left p.calls ≤ 3 * length p.calls)

left-send : (c : Config) (w : World) → left (send c w).0 ≤ 3
unfolding send
left-send c w = ground arith

begin-Budget : (n : ℕ) (q : Request) (p : Pool) → Budget n p → Budget n (begin q p)
unfolding begin send
begin-Budget n q p (m, l) =
    let c = (send (fresh q) p.world).0 in
    (
      All-append IsMarked p.calls (c ∷ []) m (tt, tt),
      omega (
        arith,
        l,
        left-send (fresh q) p.world,
        total_left-append p.calls (c ∷ []),
        length-append p.calls (c ∷ []),
      ),
    )

arrive-Budget :
    (n i : ℕ) (a : Arrival) (p : Pool)
    → Awaited i a p.calls
    → Budget n p
    → Budget (suc n) (arrive i a p)
unfolding arrive
arrive-Budget n i a p e (m, l) =
    let (k, s, c) = advance_at-Shrinks i a p.calls p.world e m in (k, omega (arith, l, s, c))

Run-Budget :
    {P : Arrival → Type 0} {F : (Session → Session) → Type 0} {p : Pool} {n : ℕ} {q : Pool}
    → Budget 0 p
    → Run P F p n q
    → Budget n q
unfolding change_session
Run-Budget b start = b
Run-Budget b (begins {n} {q} r x) = begin-Budget n x q (Run-Budget b r)
Run-Budget b (changes r f h) = Run-Budget b r
Run-Budget b (arrives {n} {q} r i a e h) = arrive-Budget n i a q e (Run-Budget b r)

abbrev pub Always {ℓ} : {A : Type ℓ} → A → Type 0
Always x = Unit

-- Either some call waits for something, or all callers have their answers.
abbrev pub IsSettled : Phase → Type 0
IsSettled (waiting c) = ⊥
IsSettled (renewing status token c) = ⊥
IsSettled (done a) = Unit

IsSettled-or_waits :
    (cs : List Phase) → All IsSettled cs ⊎ ((i : ℕ) × (a : Arrival) × Awaited i a cs)
IsSettled-or_waits [] = inl tt
IsSettled-or_waits (waiting c ∷ cs) = inr (0, answers (failure none), tt)
IsSettled-or_waits (renewing status token c ∷ cs) = inr (0, renews none, tt)
IsSettled-or_waits (done a ∷ cs) = elim (IsSettled-or_waits cs) [
  | inl h ↦ inl (tt, h)
  | inr (i, b, e) ↦ inr (suc i, b, e)
]

-- Whatever calls the pages make, however they change the session meanwhile, and in whatever order the
-- network brings the answers: at most three arrivals are needed for each call, and as long as a
-- caller has no answers, some arrival is waited for. So no order of the answers keeps a call going for
-- ever, and none blocks one.
pub calls_settle :
    (w : World) {n : ℕ} {q : Pool}
    → Run Always Always (record { world = w; calls = [] }) n q
    → (n ≤ 3 * length q.calls)
      × (All IsSettled q.calls ⊎ ((i : ℕ) × (a : Arrival) × Awaited i a q.calls))
calls_settle w {n} {q} r =
    let (m, l) = Run-Budget (tt, omega arith) r in (omega (arith, l), IsSettled-or_waits q.calls)
