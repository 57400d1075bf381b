-- ===== src/Challenge/Tests.antt =====
-- The theorems on challenge requests and challenge runs at a concrete database.
use jackdaw.Db.{Order, Authorization, Db, Status, empty_db}
use jackdaw.Challenge.{start_challenge, ChallengeObject, acknowledge}
use jackdaw.Tasks.{Task}
use jackdaw.Base.{[], some, ◌∷◌, none, ◌≢◌, ◌≡◌, ◌⊎◌, refl}
use jackdaw.Config.{defaults}
use jackdaw.Result.{ok}
use jackdaw.Challenge.Starting.{acknowledge-Started, Started}
use jackdaw.Base.Table.{update, get}

abbrev order : Order
order = record {
  id = "o1";
  account_id = "a1";
  status = Status.processing;
  identifiers = [];
  cert_id = none;
  expires_at = 900;
  created_at = 100;
  error = none;
}

abbrev authz : Authorization
authz = record {
  id = "z1";
  order_id = "o1";
  identifier = "host.example.com";
  status = Status.processing;
  challenge_token = some "t";
  created_at = 100;
  error = none;
}

abbrev db : Db
db = record empty_db { orders = order ∷ []; authorizations = authz ∷ [] }

acknowledge-Started_example :
    (((r : ChallengeObject × Task) → (acknowledge defaults "z1" "a1" db).0 ≢ ok r)
      × ((acknowledge defaults "z1" "a1" db).1 ≡ db))
    ⊎ ((reply : ChallengeObject) × (task : Task) × ((acknowledge defaults "z1" "a1" db).0
          ≡ ok (reply, task))
        × Started "z1" "a1" db reply task (acknowledge defaults "z1" "a1" db).1)
acknowledge-Started_example = acknowledge-Started defaults "z1" "a1" db

-- The order is pending, and starts with its authorization.
abbrev first_db : Db
first_db = record empty_db {
  orders = record order { status = Status.pending } ∷ [];
  authorizations = record authz { status = Status.pending } ∷ [];
}

both_start : (acknowledge defaults "z1" "a1" first_db).1 ≡ db
unfolding acknowledge update get
both_start = refl

-- The database after the first of two requests has run to its end, and then the commit of the second,
-- which loaded the authorization when it was pending, and the order now.
abbrev done_db : Db
done_db = record empty_db {
  orders = record order { status = Status.ready } ∷ [];
  authorizations = record authz { status = Status.valid } ∷ [];
}

overtaken :
    start_challenge (record authz { status = Status.pending }) done_db
    ≡ record done_db { authorizations = authz ∷ [] }
unfolding start_challenge update
overtaken = refl
