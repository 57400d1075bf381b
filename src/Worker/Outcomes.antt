-- ===== src/Worker/Outcomes.antt =====
-- src/jackdaw/worker.py: what the end of `run_challenge` makes of the two rows.
use mathlib.Core.Option
use jackdaw.Base.{
  Option, String, Bool, List, all, some, ◌||◌, if◌then◌else◌, ◌==◌, none, ◌≡◌, ◌∷◌, arith, [], refl,
  eq_iff, ap, true, false, subst, sym,
}
use jackdaw.Base.Table.{select, update, get-update, key-get}
use jackdaw.Worker.{finish_challenge, record_outcome, ready_if_all_valid, fail_challenge}
use jackdaw.Db.{Problem, Db, Status, valid, Authorization, invalid, is_valid, ready, Order}
use jackdaw.Rows.{
  set_authz_status, set_order_status, authz_has_id, authz_with_status, has_id, with_status,
}
use jackdaw.Orders.{order_authzs}
use jackdaw.Ownership.{find_authz, find_order}

-- What `run_challenge` means to do to the authorization.
abbrev pub authz_status_after : Option Problem → Status
authz_status_after none = valid
authz_status_after (some p) = invalid

-- Every other authorization of the order was valid before.
abbrev pub others_valid : String → String → Db → Bool
others_valid z j db = all (λ a. is_valid a.status || authz_has_id z a) (order_authzs db j)

-- What it means to do to the order.
abbrev pub order_status_after : String → String → Option Problem → Db → Status → Status
order_status_after z j (some p) db s = invalid
order_status_after z j none db s = if others_valid z j db then ready else s

all_valid-update :
    (z j : String) (rows : List Authorization)
    → all
        (λ a. is_valid a.status)
        (select (λ a. a.order_id == j) (update (authz_has_id z) (authz_with_status valid) rows))
      ≡ all (λ a. is_valid a.status || authz_has_id z a) (select (λ a. a.order_id == j) rows)
unfolding select update
all_valid-update z j [] = refl
all_valid-update z j (a ∷ rows) = ground (arith, all_valid-update z j rows)

-- With both rows there, the outcome is recorded.
finish_challenge-found :
    (z j : String) (outcome : Option Problem) (db : Db) (a : Authorization) (o : Order)
    → find_authz db z ≡ some a
    → find_order db j ≡ some o
    → finish_challenge z j outcome db ≡ record_outcome z j outcome db
unfolding finish_challenge
finish_challenge-found z j outcome db a o fa fo = at (find_authz db z) (find_order db j) fa fo
  where
    at :
        (x : Option Authorization) (y : Option Order)
        → x ≡ some a
        → y ≡ some o
        → (elim x [
          | none ↦ db
          | some authz ↦ elim y [ none ↦ db | some order ↦ record_outcome z j outcome db ]
        ])
          ≡ record_outcome z j outcome db
    at none y h k = absurd (cc)
    at (some x) none h k = absurd (cc)
    at (some x) (some y) h k = refl

abbrev Statuses : String → String → Db → Order → Option Problem → Db → Type 0
Statuses z j db o outcome db' =
    (Option.map (λ r. r.status) (find_authz db' z) ≡ some (authz_status_after outcome))
    × (Option.map (λ r. r.status) (find_order db' j)
        ≡ some (order_status_after z j outcome db o.status))

module _ (z j : String) (db : Db) (a : Authorization) (o : Order) (fa : find_authz db z ≡ some a)
    (fo : find_order db j ≡ some o) where
  authz-update :
      (f : Authorization → Authorization)
      → ((r : Authorization) → (f r).id ≡ r.id)
      → find_authz (record db { authorizations = update (authz_has_id z) f db.authorizations }) z
        ≡ some (f a)
  authz-update f keep = ground (
    arith,
    get-update (λ r. r.id) (authz_has_id z) f keep z db.authorizations,
    key-get (λ r. r.id) z db.authorizations fa,
    eq_iff a.id z,
  )

  order-update :
      (f : Order → Order)
      → ((r : Order) → (f r).id ≡ r.id)
      → find_order (record db { orders = update (has_id j) f db.orders }) j ≡ some (f o)
  order-update f keep = ground (
    arith,
    get-update (λ r. r.id) (has_id j) f keep j db.orders,
    key-get (λ r. r.id) j db.orders fo,
    eq_iff o.id j,
  )

  record_outcome-Statuses :
      (outcome : Option Problem) → Statuses z j db o outcome (record_outcome z j outcome db)
  unfolding record_outcome ready_if_all_valid fail_challenge set_authz_status set_order_status
  record_outcome-Statuses (some p) = (
    ap (Option.map (λ r. r.status))
        (authz-update (λ r. record r { status = invalid; error = some p }) (λ r. refl)),
    ap (Option.map (λ r. r.status)) (order-update (with_status invalid) (λ r. refl)),
  )
  record_outcome-Statuses none =
      rw (all_valid-update z j db.authorizations) (at (others_valid z j db) refl)
    where
      db1 : Db
      db1 = set_authz_status z valid db

      at :
          (b : Bool)
          → others_valid z j db ≡ b
          → Statuses z j db o none (if b then set_order_status j ready db1 else db1)
      at true e = rw e (
        ap (Option.map (λ r. r.status)) (authz-update (authz_with_status valid) (λ r. refl)),
        ap (Option.map (λ r. r.status)) (order-update (with_status ready) (λ r. refl)),
      )
      at false e = rw e (
        ap (Option.map (λ r. r.status)) (authz-update (authz_with_status valid) (λ r. refl)),
        ap (Option.map (λ r. r.status)) fo,
      )

-- Both rows are there when the network run is over. Then the authorization is valid if the validation
-- held and invalid if not; the order is invalid if it did not hold, ready if it held and every
-- other authorization of the order was valid already, and as it was in the third case.
pub finish_challenge_statuses :
    (z j : String) (outcome : Option Problem) (db : Db) (a : Authorization) (o : Order)
    → find_authz db z ≡ some a
    → find_order db j ≡ some o
    → (Option.map (λ r. r.status) (find_authz (finish_challenge z j outcome db) z)
        ≡ some (authz_status_after outcome))
      × (Option.map (λ r. r.status) (find_order (finish_challenge z j outcome db) j)
          ≡ some (order_status_after z j outcome db o.status))
finish_challenge_statuses z j outcome db a o fa fo =
    subst (Statuses z j db o outcome) (sym (finish_challenge-found z j outcome db a o fa fo))
      (record_outcome-Statuses z j db a o fa fo outcome)
