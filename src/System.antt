-- ===== src/System.antt =====
-- The relay as a whole: the database and the background tasks in flight, and the events that change
-- them, in any order. A finalize request is two events, since others may run between its checks
-- and its claim; a challenge run is two, since it waits for the network in between.
pub mod Invariant
pub mod Writes
pub mod Outcomes
pub mod Steps
pub mod Proof
pub mod Ready
pub mod Safety
pub mod Sealed
pub mod Requests
pub mod Runs
pub mod Once
pub mod Reopen
mod Tests
use jackdaw.Db.{Db, Identifier, Problem, Account, Nonce}
use jackdaw.Jws.Keys.{Env, Bytes}
use jackdaw.Base.{
  String, List, Bool, ◌≡◌, ◌∷◌, if◌then◌else◌, none, ◌==◌, [], Option, ◌&&◌, false, any, ℕ,
}
use jackdaw.Tasks.{Task, challenge, finalize}
use jackdaw.Result.{Result, ok, raised, uncaught}
use jackdaw.Orders.{create_order, Draws}
use jackdaw.Ownership.{find_order}
use jackdaw.Worker.{
  Begun, begin_challenge, ended, finish_challenge, validating, finish_finalize, Issued,
}
use jackdaw.Challenge.{acknowledge}
use jackdaw.Config.{Settings}
use jackdaw.Orders.Finalize.{claim_order}
use jackdaw.Startup.{reset_processing_orders}
use jackdaw.CertStore.{X509}

pub record System : Type 0 where
  pub db : Db
  pub tasks : List Task

pub data Event : Type 0 where
  -- a verified `POST /acme/new-order`
  ordered :
      (env : Env) (draws : Draws) (account_id : String) (identifiers : List Identifier) → Event
  -- a verified `POST /acme/challenge/{authz_id}`
  acknowledged : (settings : Settings) (authz_id account_id : String) → Event
  -- the first part of `run_challenge`
  begun : (key_authorization : String → String → Option String) (authz_id order_id : String) → Event
  -- the last part of `run_challenge`; `none` is a validation that held
  validated : (authz_id order_id : String) (outcome : Option Problem) → Event
  -- the claim of a `POST /acme/order/{id}/finalize` whose checks passed at some time
  claimed : (order_id domain : String) (csr_der : Bytes) → Event
  -- the end of `process_finalize`
  issued : (x : X509) (now : ℕ) (cert_id order_id : String) (result : Issued) → Event
  -- a restart of the process
  restarted : Event
  -- what other requests write: accounts and nonces
  other : (accounts : List Account) (nonces : List Nonce) → Event

abbrev pub is_challenge : String → String → Task → Bool
is_challenge authz_id order_id (challenge z j) = z == authz_id && j == order_id
is_challenge authz_id order_id _ = false

abbrev pub is_finalize : String → Task → Bool
is_finalize order_id (finalize j domain csr_der) = j == order_id
is_finalize order_id _ = false

-- The task ends: the first that fits is taken out.
unfoldable pub remove_first : (Task → Bool) → List Task → List Task
remove_first p [] = []
remove_first p (t ∷ ts) = let rest = t ∷ remove_first p ts in if p t then ts else rest

-- A reply with a task starts the task.
abbrev pub start : {A : Type 0} → System → Result (A × Task) × Db → System
start s (ok (reply, t), db) = record { db = db; tasks = t ∷ s.tasks }
start s (raised e, db) = record s { db = db }
start s (uncaught, db) = record s { db = db }

abbrev pub start_claimed : System → Task → Result (Unit {0}) × Db → System
start_claimed s t (ok u, db) = record { db = db; tasks = t ∷ s.tasks }
start_claimed s t (raised e, db) = record s { db = db }
start_claimed s t (uncaught, db) = record s { db = db }

abbrev pub after_begin : System → String → String → Begun → System
after_begin s authz_id order_id (ended db) = record {
  db = db;
  tasks = remove_first (is_challenge authz_id order_id) s.tasks;
}
after_begin s authz_id order_id (validating v) = s

-- An event about a task that is not in flight does nothing.
unfoldable pub step : System → Event → System
unfolding create_order acknowledge begin_challenge finish_challenge claim_order finish_finalize
    reset_processing_orders remove_first
step s (ordered env draws account_id identifiers) = record s {
  db = (create_order env draws account_id identifiers s.db).1;
}
step s (acknowledged settings authz_id account_id) =
    start s (acknowledge settings authz_id account_id s.db)
step s (begun key_authorization authz_id order_id) =
    if any (is_challenge authz_id order_id) s.tasks
    then after_begin s authz_id order_id (begin_challenge key_authorization authz_id order_id s.db)
    else s
step s (validated authz_id order_id outcome) =
    if any (is_challenge authz_id order_id) s.tasks
    then record {
      db = finish_challenge authz_id order_id outcome s.db;
      tasks = remove_first (is_challenge authz_id order_id) s.tasks;
    }
    else s
step s (claimed order_id domain csr_der) =
    start_claimed s (finalize order_id domain csr_der) (claim_order order_id s.db)
step s (issued x now cert_id order_id result) =
    if any (is_finalize order_id) s.tasks
    then record {
      db = finish_finalize x now cert_id order_id result s.db;
      tasks = remove_first (is_finalize order_id) s.tasks;
    }
    else s
step s restarted = record { db = reset_processing_orders s.db; tasks = [] }
step s (other accounts nonces) = record s {
  db = record s.db { accounts = accounts; nonces = nonces };
}

unfoldable pub run : System → List Event → System
run s [] = s
run s (e ∷ es) = run (step s e) es

-- The drawn order id is in no row.
abbrev pub IsFresh : System → Event → Type 0
IsFresh s (ordered env draws account_id identifiers) = find_order s.db draws.order_id ≡ none
IsFresh s _ = Unit

abbrev pub AllFresh : System → List Event → Type 0
AllFresh s [] = Unit
AllFresh s (e ∷ es) = IsFresh s e × AllFresh (step s e) es
