-- ===== src/Upload/Sending.antt =====
-- The upload page on top of the HTTP client: each round of the loop is a call of api/images.ts, which
-- passes the interceptors of api/client.ts.
use zhici_photo_upload_platf.Api.{Request, post, with_body, word, upload_form}
use zhici_photo_upload_platf.Auth.{User}
use zhici_photo_upload_platf.Http.{Answer, Config, Event, Network, World, client, failure, response}
use zhici_photo_upload_platf.Http.Calls.{fresh}
use zhici_photo_upload_platf.Http.InTurn.{Holds, Promises, call-GoesWell, IsGuarded}
use zhici_photo_upload_platf.Prelude.{
  List, Option, Text, [], ap, length, none, refl, some, suc, true, zero, ℕ, ◌∙◌, ◌∷◌, ◌≡◌, ◌≢◌, ◌≤◌,
  sym, ==_refl, All, arith,
}
use zhici_photo_upload_platf.Upload.{
  Msg, State, start, start_upload, update, Run, FileEntry, advance,
}
use zhici_photo_upload_platf.Upload.Completion.{
  Answers, Distinct, IsSettled, settle, upload_completes, waiting_of, settle_idle, answer_msg,
  waiting_of-Distinct,
}
use zhici_photo_upload_platf.Api.Backend.{handlers}
use zhici_photo_upload_platf.Upload.Rounds.{
  count_after, settle-agree, settle-step, state_after, update-advance, with_answer,
  with_answer-agree,
}

-- `imagesAPI.upload(formData)`.
abbrev pub upload_request : ℕ → List Text → Request
upload_request file tags =
    with_body post (word "images" ∷ word "upload" ∷ []) (upload_form file tags)

-- What becomes of an upload: `none` is one that went well. The message in the body of a failure is a
-- parameter.
abbrev pub verdict : (Option ℕ → Option Text) → Answer → Option (Option Text)
verdict message (response n) = none
verdict message (failure status) = some (message status)

-- What the loop makes of an answer.
abbrev answer_of : (Option ℕ → Option Text) → Answer → Msg
answer_of message x = answer_msg (verdict message x)

-- The loop goes on with the answer of a call, if there is one.
abbrev carry_on :
    (State → World → State × World)
    → (Option ℕ → Option Text)
    → State
    → World
    → Option (Answer × World)
    → State × World
carry_on go_on message s w none = (s, w)
carry_on go_on message s w (some (x, v)) = go_on (update (answer_of message x) s).0 v

-- The call that the loop waits for, if it runs.
abbrev round :
    (State → World → State × World)
    → Network
    → (Option ℕ → Option Text)
    → State
    → World
    → Option Run
    → State × World
round go_on net message s w none = (s, w)
round go_on net message s w (some r) =
    carry_on go_on message s w (client 2 net (fresh (upload_request r.current.id r.tags)) w)

-- The loop with its calls, one for each unit of fuel.
unfoldable pub settle_over : ℕ → Network → (Option ℕ → Option Text) → State → World → State × World
settle_over zero net message s w = (s, w)
settle_over (suc fuel) net message s w = round (settle_over fuel net message) net message s w s.run

-- What becomes of an upload is the network's answer to a request for it, and that is not 401.
abbrev pub IsTold :
    Network → (Option ℕ → Option Text) → List Text → Option (Option Text) → FileEntry → Type 0
IsTold net message tags o e =
    (log : List Event) × (c : Config) × (c.request ≡ upload_request e.id tags)
    × (net.server log c ≢ failure (some 401))
    × (o ≡ verdict message (net.server log c))

settle_over-step :
    (net : Network) (message : Option ℕ → Option Text) (fuel : ℕ) (s : State) (w : World) (r : Run)
    (x : Answer) (v : World)
    → s.run ≡ some r
    → client 2 net (fresh (upload_request r.current.id r.tags)) w ≡ some (x, v)
    → settle_over (suc fuel) net message s w
      ≡ settle_over fuel net message (update (answer_of message x) s).0 v
unfolding settle_over
settle_over-step net message fuel s w r x v e f =
    ap (round (settle_over fuel net message) net message s w) e
    ∙ ap (carry_on (settle_over fuel net message) message s w) f

settle_over_idle :
    (net : Network) (message : Option ℕ → Option Text) (fuel : ℕ) (s : State) (w : World)
    → s.run ≡ none
    → settle_over fuel net message s w ≡ (s, w)
unfolding settle_over
settle_over_idle net message zero s w e = refl
settle_over_idle net message (suc fuel) s w e =
    ap (round (settle_over fuel net message) net message s w) e

IsTold-agree :
    (net : Network) (message : Option ℕ → Option Text) (tags : List Text)
    (answers answers' : Answers) (es : List FileEntry)
    → All (λ (e : FileEntry). answers e.id ≡ answers' e.id) es
    → All (λ (e : FileEntry). IsTold net message tags (answers' e.id) e) es
    → All (λ (e : FileEntry). IsTold net message tags (answers e.id) e) es
IsTold-agree net message tags answers answers' [] h k = tt
IsTold-agree net message tags answers answers' (e ∷ es) h k =
    let (log, c, q, ne, b) = k.0 in
    ((log, c, q, ne, h.0 ∙ b), IsTold-agree net message tags answers answers' es h.1 k.1)

upload_request-IsGuarded : (file : ℕ) (tags : List Text) → IsGuarded (upload_request file tags)
unfolding handlers
upload_request-IsGuarded file [] = refl
upload_request-IsGuarded file (t ∷ ts) = refl

module _ (net : Network) (p : Promises net) (u : User) (message : Option ℕ → Option Text) where
  -- The loop ends as it does for some answers, each of them one of the network's.
  abbrev Sends : ℕ → List Text → List FileEntry → State → World → Type 0
  Sends fuel tags es s w =
      (answers : Answers) × (v : World) × (settle_over fuel net message s w
        ≡ (settle fuel answers s, v))
      × All (λ (e : FileEntry). IsTold net message tags (answers e.id) e) es
      × Holds net p u v
      × (v.location ≡ w.location)

  advance-Sends :
      (fuel : ℕ) (tags : List Text) (n : ℕ) (es : List FileEntry) (s : State) (w : World)
      → length es ≤ fuel
      → Distinct es
      → Holds net p u w
      → Sends fuel tags es (advance tags n es s).0 w
  unfolding advance
  advance-Sends fuel tags n [] s w l d h = (
    λ id. none,
    w,
    settle_over_idle net message fuel _ w refl
        ∙ ap (λ x. (x, w)) (sym (settle_idle fuel (λ id. none) _ refl)),
    tt,
    h,
    refl,
  )
  advance-Sends zero tags n (e ∷ es) s w l d h = absurd (omega (arith, l))
  advance-Sends (suc fuel) tags n (e ∷ es) s w l d h =
      let ((x, v), f, g) =
        call-GoesWell net p u (fresh (upload_request e.id tags)) w
          (upload_request-IsGuarded e.id tags) h refl in
      let o = verdict message x in
      let (log, c, q, b) = g.brought in
      let (answers, z, k, told, m, a) =
        advance-Sends fuel tags (count_after o n) es (state_after o tags n e es s) v
          (omega (arith, l)) d.1 g.holds in
      let all = with_answer e.id o answers in
      let agree = with_answer-agree e.id o answers es d.0 in
      let own : all e.id ≡ o = rw (==_refl e.id) refl in
      (
        all,
        z,
        settle_over-step net message fuel _ w _ x v refl f
            ∙ ap (λ y. settle_over fuel net message y v) (update-advance o tags n e es s)
            ∙ k
            ∙ ap (λ y. (y, z))
                (sym (
                  settle-step all o fuel tags n e es s own
                  ∙ settle-agree all answers fuel tags (count_after o n) es
                      (state_after o tags n e es s) agree)),
        (
          (log, c, q, (λ y. g.taken (b ∙ y)), own ∙ ap (verdict message) b),
          IsTold-agree net message tags all answers es agree told,
        ),
        m,
        a ∙ g.location,
      )

  start-Sends :
      (fuel : ℕ) (es : List FileEntry) (s : State) (w : World)
      → length es ≤ fuel
      → Distinct es
      → es ≢ []
      → Holds net p u w
      → Sends fuel s.tags es (start es s).0 w
  unfolding start
  start-Sends fuel [] s w l d ne h = absurd (ne refl)
  start-Sends fuel (e ∷ es) s w l d ne h =
      advance-Sends fuel s.tags 0 (e ∷ es) (record s { uploading = true; done_count = 0 }) w l d h

  start_upload-Sends :
      (fuel : ℕ) (s : State) (w : World)
      → Holds net p u w
      → length (waiting_of s.files) ≤ fuel
      → Distinct s.files
      → waiting_of s.files ≢ []
      → Sends fuel s.tags (waiting_of s.files) (update start_upload s).0 w
  unfolding update
  start_upload-Sends fuel s w h l d ne =
      start-Sends fuel (waiting_of s.files) s w l (waiting_of-Distinct s.files d) ne h

  -- With a backend that keeps its promises of tokens: a user who is signed in with a good refresh token
  -- starts an upload on a queue whose entries have distinct ids, and nothing else happens meanwhile.
  -- However often the access token runs out in between, no file fails for it: the loop ends, one round
  -- for each waiting file is enough, each of those is done at 100 percent or failed as the network
  -- answered a request for it, by an answer other than 401, every other entry stays as it was, the
  -- count is the number of files that went well, and the user is signed in as before.
  pub uploads_go_through :
      (fuel : ℕ) (s : State) (w : World)
      → Holds net p u w
      → length (waiting_of s.files) ≤ fuel
      → Distinct s.files
      → waiting_of s.files ≢ []
      → let r = settle_over fuel net message (update start_upload s).0 w in
        (answers : Answers) × IsSettled answers (waiting_of s.files) 0 s r.0
        × All (λ (e : FileEntry). IsTold net message s.tags (answers e.id) e) (waiting_of s.files)
        × Holds net p u r.1
        × (r.1.location ≡ w.location)
  uploads_go_through fuel s w h l d ne =
      let (answers, v, e, told, k, m) = start_upload-Sends fuel s w h l d ne in
      (answers, rw e (upload_completes answers fuel s l d ne), told, rw e k, rw e m)
