-- ===== src/Mobile/Client/Calls/Alike.antt =====
-- The calls of the mobile client that are under way at once go as those of the web client do.
use mathlib.Core.Path.{ap₂}
use zhici_photo_upload_platf.Auth
use zhici_photo_upload_platf.Auth.{AuthState, Session, empty_storage, User}
use zhici_photo_upload_platf.Http
use zhici_photo_upload_platf.Http.Calls
use zhici_photo_upload_platf.Http.{Answer, Config, failure, is_401, response, sent, refreshed}
use zhici_photo_upload_platf.Http.Calls.{
  Arrival, Phase, answers, done, renewing, renews, waiting, change_session, fresh,
}
use zhici_photo_upload_platf.Mobile.Client.{World, give_up, store_renewal}
use zhici_photo_upload_platf.Mobile.Client.Calls.{
  advance, answered, ask_renewal, renewed, send, Pool, advance_at, arrive, begin, change_app,
}
use zhici_photo_upload_platf.Mobile.Client.Web.{
  IsLike, StoresLike, authorize-web, give_up-web, store_renewal-web,
}
use zhici_photo_upload_platf.Mobile.Session.{App, clear_auth, set_auth}
use zhici_photo_upload_platf.Prelude.{
  Bool-cases, Option, Text, ap, inl, inr, none, not, refl, some, ℕ, ◌&&◌, ◌∷◌, ◌≡◌, List, [], suc,
  zero, ◌++◌,
}
use zhici_photo_upload_platf.Api.{Request}

-- Two calls stand alike.
abbrev pub StandsLike : Phase × Http.World → Phase × World → Type 0
StandsLike r s = (r.0 ≡ s.0) × IsLike r.1 s.1

send-StandsLike :
    (c : Config) (w : Http.World) (v : World) → IsLike w v → StandsLike (Calls.send c w) (send c v)
unfolding Calls.send send
send-StandsLike c w v (e, l) =
    let h = authorize-web w.session v.app c e in (ap waiting h, (e, ap₂ (λ x y. sent x ∷ y) h l))

dropped-StandsLike :
    (status : Option ℕ) (w : Http.World) (v : World)
    → IsLike w v
    → StandsLike (done (failure status), Http.give_up w) (done (failure status), give_up v)
dropped-StandsLike status w v k = (refl, (give_up-web status w v k.1).1)

same_renewal-StandsLike :
    (status : Option ℕ) (o : Option Text) (c : Config) (w : Http.World) (v : World)
    → IsLike w v
    → StandsLike (Calls.ask_renewal status o c w) (ask_renewal status o c v)
unfolding Calls.ask_renewal ask_renewal
same_renewal-StandsLike status none c w v k = dropped-StandsLike status w v k
same_renewal-StandsLike status (some []) c w v k = dropped-StandsLike status w v k
same_renewal-StandsLike status (some (x ∷ t)) c w v k =
    (refl, (k.0, ap (λ es. refreshed (x ∷ t) ∷ es) k.1))

ask_renewal-StandsLike :
    (status : Option ℕ) (o p : Option Text) (c : Config) (w : Http.World) (v : World)
    → o ≡ p
    → IsLike w v
    → StandsLike (Calls.ask_renewal status o c w) (ask_renewal status p c v)
ask_renewal-StandsLike status o p c w v e k = rw e (same_renewal-StandsLike status p c w v k)

answered-StandsLike :
    (a : Answer) (c : Config) (w : Http.World) (v : World)
    → IsLike w v
    → StandsLike (Calls.answered a c w) (answered a c v)
unfolding Calls.answered answered
answered-StandsLike (response n) c w v k = (refl, k)
answered-StandsLike (failure status) c w v k = elim (Bool-cases (is_401 status && not c.retried)) [
  | inl e ↦
      rw (e, Calls.answered, answered)
        (ask_renewal-StandsLike status _ _ _ w v (ap (λ (s : AuthState). s.refresh_token) k.0) k)
  | inr e ↦ rw (e, Calls.answered, answered) (refl, k)
]

stored-StandsLike :
    (access : Text) (r : Option Text) (status : Option ℕ) (c : Config) (w : Http.World) (v : World)
    (o : Option Auth.Session) (p : Option App)
    → Http.store_renewal access r w.session ≡ o
    → store_renewal access r v.app ≡ p
    → StoresLike o p
    → IsLike w v
    → StandsLike
        (Calls.renewed (some (access, r)) status c w)
        (renewed (some (access, r)) status c v)
unfolding Calls.renewed renewed
stored-StandsLike access r status c w v none none e f k h =
    rw (e, Calls.renewed) (rw (f, renewed) (dropped-StandsLike status w v h))
stored-StandsLike access r status c w v none (some a) e f k h = absurd k
stored-StandsLike access r status c w v (some s) none e f k h = absurd k
stored-StandsLike access r status c w v (some s) (some a) e f k h =
    rw (e, Calls.renewed)
      (rw (f, renewed)
        (send-StandsLike (record c { authorization = some access }) (record w { session = s })
          (record v { app = a }) (k, h.1)))

renewed-StandsLike :
    (o : Option (Text × Option Text)) (status : Option ℕ) (c : Config) (w : Http.World) (v : World)
    → IsLike w v
    → StandsLike (Calls.renewed o status c w) (renewed o status c v)
unfolding Calls.renewed renewed
renewed-StandsLike none status c w v k = dropped-StandsLike status w v k
renewed-StandsLike (some (access, r)) status c w v k =
    stored-StandsLike access r status c w v _ _ refl refl
      (store_renewal-web access r w.session v.app k.0) k

advance-StandsLike :
    (a : Arrival) (c : Phase) (w : Http.World) (v : World)
    → IsLike w v
    → StandsLike (Calls.advance a c w) (advance a c v)
unfolding Calls.advance advance
advance-StandsLike (answers a) (waiting c) w v k = answered-StandsLike a c w v k
advance-StandsLike (answers a) (renewing status token c) w v k = (refl, k)
advance-StandsLike (answers a) (done b) w v k = (refl, k)
advance-StandsLike (renews o) (waiting c) w v k = (refl, k)
advance-StandsLike (renews o) (renewing status token c) w v k = renewed-StandsLike o status c w v k
advance-StandsLike (renews o) (done b) w v k = (refl, k)

-- The same calls stand at the same, and the clients have the same in memory and have sent the same.
abbrev pub IsLikePool : Calls.Pool → Pool → Type 0
IsLikePool p q = (p.calls ≡ q.calls) × IsLike p.world q.world

advance_at-web :
    (i : ℕ) (a : Arrival) (cs : List Phase) (w : Http.World) (v : World)
    → IsLike w v
    → ((Calls.advance_at i a cs w).0 ≡ (advance_at i a cs v).0)
      × IsLike (Calls.advance_at i a cs w).1 (advance_at i a cs v).1
unfolding Calls.advance_at advance_at
advance_at-web i a [] w v k = (refl, k)
advance_at-web zero a (c ∷ cs) w v k =
    let (e, h) = advance-StandsLike a c w v k in (ap (λ x. x ∷ cs) e, h)
advance_at-web (suc i) a (c ∷ cs) w v k =
    let (e, h) = advance_at-web i a cs w v k in (ap (λ x. c ∷ x) e, h)

arrive-IsLikePool :
    (i : ℕ) (a : Arrival) (p : Calls.Pool) (q : Pool)
    → IsLikePool p q
    → IsLikePool (Calls.arrive i a p) (arrive i a q)
unfolding Calls.arrive arrive
arrive-IsLikePool i a p q (e, k) = rw e (advance_at-web i a q.calls p.world q.world k)

begin-IsLikePool :
    (r : Request) (p : Calls.Pool) (q : Pool)
    → IsLikePool p q
    → IsLikePool (Calls.begin r p) (begin r q)
unfolding Calls.begin begin
begin-IsLikePool r p q (e, k) =
    let (f, h) = send-StandsLike (fresh r) p.world q.world k in (ap₂ (λ cs c. cs ++ c ∷ []) e f, h)

-- What may happen, to either client: a page makes a call, signs the user in or out, or the network
-- brings something to the call at an index.
pub data Action : Type 0 where
  makes : Request → Action
  signs_in : (access renewal : Text) → User → Action
  signs_out : Action
  gets : ℕ → Arrival → Action

-- Each with the client's own interceptors and its own store.
abbrev pub web_does : Action → Calls.Pool → Calls.Pool
web_does (makes r) p = Calls.begin r p
web_does (signs_in access renewal u) p = Calls.change_session (Auth.set_auth access renewal u) p
web_does signs_out p = Calls.change_session Auth.clear_auth p
web_does (gets i a) p = Calls.arrive i a p

abbrev pub mobile_does : Action → Pool → Pool
mobile_does (makes r) q = begin r q
mobile_does (signs_in access renewal u) q = change_app (set_auth access renewal u) q
mobile_does signs_out q = change_app clear_auth q
mobile_does (gets i a) q = arrive i a q

abbrev pub web_after : List Action → Calls.Pool → Calls.Pool
web_after [] p = p
web_after (x ∷ xs) p = web_after xs (web_does x p)

abbrev pub mobile_after : List Action → Pool → Pool
mobile_after [] q = q
mobile_after (x ∷ xs) q = mobile_after xs (mobile_does x q)

does-IsLikePool :
    (x : Action) (p : Calls.Pool) (q : Pool)
    → IsLikePool p q
    → IsLikePool (web_does x p) (mobile_does x q)
unfolding Calls.change_session change_app Auth.set_auth set_auth Auth.clear_auth clear_auth
does-IsLikePool (makes r) p q k = begin-IsLikePool r p q k
does-IsLikePool (signs_in access renewal u) p q (e, k) = (e, (refl, k.1))
does-IsLikePool signs_out p q (e, k) = (e, (refl, k.1))
does-IsLikePool (gets i a) p q k = arrive-IsLikePool i a p q k

-- The web client and the mobile client go alike with any number of calls at once: when the same calls
-- stand at the same in both, with the same in memory and the same sent, and then the same happens to
-- both in the same order - calls that pages make, sign-ins, sign-outs, and answers and renewals that
-- the network brings to the calls in any order - then again the same calls stand at the same, with the
-- same in memory and the same sent.
pub pools_agree :
    (xs : List Action) (p : Calls.Pool) (q : Pool)
    → IsLikePool p q
    → IsLikePool (web_after xs p) (mobile_after xs q)
pools_agree [] p q k = k
pools_agree (x ∷ xs) p q k =
    pools_agree xs (web_does x p) (mobile_does x q) (does-IsLikePool x p q k)
