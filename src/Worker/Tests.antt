-- ===== src/Worker/Tests.antt =====
-- The theorem on the end of a challenge run at a concrete database.
use mathlib.Core.Option
use jackdaw.Db.{Order, Authorization, Db, Status, empty_db}
use jackdaw.Base.Table.{get, select}
use jackdaw.Base.{[], some, ◌∷◌, none, ◌≡◌, refl}
use jackdaw.Ownership.{find_authz, find_order}
use jackdaw.Worker.{finish_challenge}
use jackdaw.Worker.Outcomes.{finish_challenge_statuses}

abbrev order : Order
order = record {
  id = "o1";
  account_id = "a1";
  status = Status.processing;
  identifiers = [];
  cert_id = none;
  expires_at = 900;
  created_at = 100;
  error = none;
}

abbrev authz : Authorization
authz = record {
  id = "z1";
  order_id = "o1";
  identifier = "host.example.com";
  status = Status.processing;
  challenge_token = some "t";
  created_at = 100;
  error = none;
}

abbrev db : Db
db = record empty_db { orders = order ∷ []; authorizations = authz ∷ [] }

finish_challenge_statuses_example :
    (Option.map (λ r. r.status) (find_authz (finish_challenge "z1" "o1" none db) "z1")
      ≡ some Status.valid)
    × (Option.map (λ r. r.status) (find_order (finish_challenge "z1" "o1" none db) "o1")
        ≡ some Status.ready)
unfolding get select
finish_challenge_statuses_example =
    finish_challenge_statuses "z1" "o1" none db authz order refl refl
