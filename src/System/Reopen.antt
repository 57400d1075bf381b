-- ===== src/System/Reopen.antt =====
-- A second challenge run of an order that is past `ready`.
use mathlib.Core.Option
use jackdaw.Orders.Finalize.{claim_order, claimable}
use jackdaw.System.{step, System, is_challenge, validated}
use jackdaw.Base.{String, ◌≡◌, some, any, Option, true, arith, none, eq_iff, refl}
use jackdaw.Db.{Db, Authorization, Order, ready}
use jackdaw.Ownership.{find_order, find_authz}
use jackdaw.Result.{ok}
use jackdaw.Worker.Outcomes.{others_valid, finish_challenge_statuses}
use jackdaw.Base.Table.{get-count, key-get}

claim-ready :
    (j : String) (db : Db)
    → Option.map (λ o. o.status) (find_order db j) ≡ some ready
    → (claim_order j db).0 ≡ ok tt
unfolding claim_order
claim-ready j db h = at (find_order db j) refl h
  where
    at :
        (o : Option Order)
        → find_order db j ≡ o
        → Option.map (λ r. r.status) o ≡ some ready
        → (claim_order j db).0 ≡ ok tt
    at none e k = absurd (cc)
    at (some o) e k = ground (
      arith,
      get-count (λ r. r.id) (claimable j) j db.orders o e,
      key-get (λ r. r.id) j db.orders e,
      eq_iff o.id j,
    )

-- A challenge run in flight, whose authorization and order exist, ends with a validation that held,
-- while every other authorization of the order is valid. Whatever the status of the order was,
-- also "processing" or "valid", the next claim of it then wins.
pub late_validation_reopens :
    (s : System) (z j : String) (a : Authorization) (o : Order)
    → find_authz s.db z ≡ some a
    → find_order s.db j ≡ some o
    → any (is_challenge z j) s.tasks ≡ true
    → others_valid z j s.db ≡ true
    → (claim_order j (step s (validated z j none)).db).0 ≡ ok tt
unfolding step
late_validation_reopens s z j a o fa fo there others =
    claim-ready j _ (ground (arith, (finish_challenge_statuses z j none s.db a o fa fo).1))
