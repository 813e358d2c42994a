-- ===== src/Http/Tests.antt =====
-- A network whose first answer is 401, and the theorems for a call on it.
use mathlib.Core.Path.{subst}
use zhici_photo_upload_platf.Api.{get, word}
use zhici_photo_upload_platf.Auth.{empty_storage, open_app, present, set_auth}
use zhici_photo_upload_platf.Auth.Laws.{IsSynced, set_auth-IsSynced}
use zhici_photo_upload_platf.Auth.Tests.{ann, signed_session}
use zhici_photo_upload_platf.Http.{Answer, Config, Network, World, client, failure, response, Event}
use zhici_photo_upload_platf.Http.Laws.{client_ends, Transcript}
use zhici_photo_upload_platf.Http.Renewal.{RenewsPairs}
use zhici_photo_upload_platf.Prelude.{
  Option, Text, [], codes, false, if◌then◌else◌, length, none, refl, some, true, truthy, ◌==◌, ◌∷◌,
  ◌≡◌, All, List, ◌≢◌, arith, suc, ℕ,
}
use zhici_photo_upload_platf.Http.InTurn.{Holds, Promises, calls_go_well, calls_in_turn, IsGuarded}
use zhici_photo_upload_platf.Api.Backend.{handlers}

abbrev pub net : Network
net = record {
  server = λ log c. if length log == 0 then failure (some 401) else response 200;
  renewal = λ log t. some (codes "a2", some (codes "r2"));
}

abbrev pub get_me : Config
get_me = record {
  request = record { method = get; path = word "auth" ∷ word "me" ∷ []; params = []; body = [] };
  authorization = none;
  retried = false;
}

abbrev pub world : World
world = record { session = signed_session; log = []; location = none }

abbrev PairOk : Option (Text × Option Text) → Type 0
PairOk none = Unit
PairOk (some (a, r)) = (truthy a ≡ true) × (present r ≡ true)

pub net_renews : RenewsPairs net
net_renews log t access r e = subst PairOk e (refl, refl)

pub signed_session-IsSynced : IsSynced signed_session
signed_session-IsSynced =
    set_auth-IsSynced (codes "a1") (codes "r1") ann (open_app empty_storage) refl

call_ends :
    (r : Answer × World) × ((fuel : ℕ) → client (suc (suc fuel)) net get_me world ≡ some r)
    × Transcript get_me.request world.log r.1.log
call_ends = client_ends net get_me world

net-takes :
    (log : List Event) (a : Text) (c : Config)
    → log ≢ []
    → IsGuarded c.request
    → c.authorization ≡ some a
    → net.server log c ≢ failure (some 401)
net-takes [] a c h g k e = h refl
net-takes (x ∷ log) a c h g k e = absurd (ground (arith, e))

-- Once something was sent, any token is taken.
pub net_promises : Promises net
net_promises = record {
  IsGood = λ log t. Unit;
  IsTaken = λ log a. log ≢ [];
  renews = λ log t g. (codes "a2", codes "r2", refl, (refl, refl), tt, (λ e. absurd (cc)));
  takes = net-takes;
  keeps = λ log t c gd g. tt;
}

pub world-Holds : Holds net net_promises ann world
unfolding set_auth net_promises
world-Holds = record { token = codes "r1"; kept = refl; signed = refl; not_empty = refl; good = tt }

get_me-IsGuarded : IsGuarded get_me.request
unfolding handlers
get_me-IsGuarded = refl

two_calls_go_well :
    (xs : List Answer) × (v : World) × (calls_in_turn net
        (get_me.request ∷ get_me.request ∷ [])
        world
      ≡ some (xs, v))
    × (length xs ≡ length (get_me.request ∷ get_me.request ∷ []))
    × All (λ x. x ≢ failure (some 401)) xs
    × Holds net net_promises ann v
    × (v.location ≡ world.location)
two_calls_go_well =
    calls_go_well net net_promises ann (get_me.request ∷ get_me.request ∷ []) world
      (get_me-IsGuarded, (get_me-IsGuarded, tt)) world-Holds
