-- ===== src/System/Tests.antt =====
-- The theorems on runs of the relay at a concrete history.
use jackdaw.Db.{Identifier, Db, Order, Authorization, empty_db, Status}
use jackdaw.Orders.{Draws, pending_order, pending_authz, create_order}
use jackdaw.Jws.Keys.{Env}
use jackdaw.System.{
  System, run, Event, step, AllFresh, ordered, acknowledged, begun, validated, claimed, issued,
  restarted,
}
use jackdaw.Base.{List, ◌≡◌, [], ◌∷◌, refl, some, none, subst, ◌≢◌}
use jackdaw.Base.Table.{get, select, update, count}
use jackdaw.Jws.Samples.{sample_env, alice}
use jackdaw.Json.{str}
use jackdaw.System.Safety.{run-Inv, start-Inv}
use jackdaw.Challenge.{acknowledge}
use jackdaw.Config.{defaults, allowed_domain_list}
use jackdaw.Worker.{begin_challenge, finish_challenge, chain, finish_finalize}
use jackdaw.Base.Text.{strip}
use jackdaw.Ownership.{require_authz_owner}
use jackdaw.System.Invariant.{Inv}
use jackdaw.CertStore.{X509}
use jackdaw.Orders.Finalize.{claim_order}
use jackdaw.Tasks.{challenge}
use jackdaw.Result.{ok}
use jackdaw.System.Once.{claimed_once}
use jackdaw.System.Reopen.{late_validation_reopens}

abbrev host : Identifier
host = record { type = "dns"; value = "host.example.com" }

abbrev draws : Draws
draws = record { order_id = "o1"; authz_id = λ i. "z1"; token = λ i. "t" }

abbrev env : Env
env = sample_env (str "") (str "")

abbrev db : Db
db = record empty_db { accounts = alice ∷ [] }

abbrev idle : System
idle = record { db = db; tasks = [] }

-- Alice orders a name, answers the challenge, and the validation holds.
abbrev history : List Event
history =
    ordered env draws "a1" (host ∷ [])
    ∷ acknowledged defaults "z1" "a1"
    ∷ begun (λ t k. some t) "z1" "o1"
    ∷ validated "z1" "o1" none
    ∷ []

abbrev ready_order : Order
ready_order = record (pending_order 1000 "o1" "a1" (host ∷ [])) { status = Status.ready }

abbrev valid_authz : Authorization
valid_authz = record (pending_authz 1000 "z1" "o1" "host.example.com" "t") { status = Status.valid }

abbrev after : System
after = record {
  db = record db { orders = ready_order ∷ []; authorizations = valid_authz ∷ [] };
  tasks = [];
}

history-after : run idle history ≡ after
unfolding run step create_order acknowledge begin_challenge finish_challenge strip
    allowed_domain_list get select update require_authz_owner
history-after = refl

all_fresh : AllFresh idle history
unfolding get
all_fresh = (refl, (tt, (tt, (tt, tt))))

after-Inv : Inv after
after-Inv = subst Inv history-after (run-Inv history idle all_fresh (start-Inv db refl))

abbrev x509 : X509
x509 = record { pem_serial = λ s. none; pem_not_after = λ s. some 5000; der_serial = λ d. none }

-- A restart comes in between, and an order for another name.
abbrev later : List Event
later =
    claimed "o1" "host.example.com" []
    ∷ acknowledged defaults "z1" "a1"
    ∷ ordered env (record { order_id = "o2"; authz_id = λ i. "z2"; token = λ i. "u" }) "a1"
        (host ∷ [])
    ∷ issued x509 2000 "c1" "o1" (chain "pem")
    ∷ restarted
    ∷ []

claim-after : (claim_order "o1" after.db).0 ≡ ok tt
unfolding claim_order count
claim-after = refl

later-fresh : AllFresh after (claimed "o1" "host.example.com" [] ∷ later)
unfolding get step claim_order acknowledge count update require_authz_owner
later-fresh = (tt, (tt, (tt, (refl, (tt, (tt, tt))))))

claimed_once_example :
    (claim_order "o1" (run after (claimed "o1" "host.example.com" [] ∷ later)).db).0 ≢ ok tt
claimed_once_example =
    claimed_once after later "o1" "host.example.com" [] after-Inv refl claim-after later-fresh

-- The challenge is answered twice, and the order is issued before the second run ends.
abbrev answered_twice : List Event
answered_twice =
    ordered env draws "a1" (host ∷ [])
    ∷ acknowledged defaults "z1" "a1"
    ∷ acknowledged defaults "z1" "a1"
    ∷ begun (λ t k. some t) "z1" "o1"
    ∷ validated "z1" "o1" none
    ∷ claimed "o1" "host.example.com" []
    ∷ issued x509 2000 "c1" "o1" (chain "pem")
    ∷ []

abbrev issued_order : Order
issued_order = record ready_order { status = Status.valid; cert_id = some "c1" }

abbrev twice : System
twice = record {
  db = record db {
    orders = issued_order ∷ [];
    authorizations = valid_authz ∷ [];
    certificates =
        record {
          id = "c1";
          order_id = "o1";
          pem_chain = "pem";
          issued_at = 2000;
          expires_at = 5000;
          serial = none;
        }
        ∷ [];
  };
  tasks = challenge "z1" "o1" ∷ [];
}

twice_reached : run idle answered_twice ≡ twice
unfolding run step create_order acknowledge begin_challenge finish_challenge claim_order
    finish_finalize strip allowed_domain_list get select update count require_authz_owner
twice_reached = refl

late_validation_reopens_example :
    (claim_order "o1" (step twice (validated "z1" "o1" none)).db).0 ≡ ok tt
unfolding get select
late_validation_reopens_example =
    late_validation_reopens twice "z1" "o1" valid_authz issued_order refl refl refl refl
