-- ===== src/Challenge/Starting.antt =====
-- What acknowledging a challenge writes.
use mathlib.Core.Option
use jackdaw.Base.{
  String, Bool, Option, ◌≡◌, ◌≢◌, ◌⊎◌, some, none, inl, inr, arith, refl, eq_iff, eq_refl,
  if◌then◌else◌, true, false, ap, ◌∙◌, ◌&&◌, ◌==◌, sym, Bool-cases, subst,
}
use jackdaw.Base.Table.{get-update, key-get}
use jackdaw.Config.{Settings}
use jackdaw.Db.{Db, Authorization, Order, Status, is_pending, pending, processing}
use jackdaw.Challenge.{acknowledge, ChallengeObject, start_challenge, is_open}
use jackdaw.Challenge.Cases.{acknowledge_cases}
use jackdaw.Ownership.{find_authz, find_order}
use jackdaw.Ownership.Exact.{require_authz_owner_iff}
use jackdaw.Result.{ok}
use jackdaw.Rows.{authz_has_id, authz_with_status, has_id, with_status}
use jackdaw.Tasks.{Task, challenge}

-- The status of an order whose authorization is acknowledged.
abbrev pub begun : Status → Status
begun s = elim s [ pending ↦ processing | t ↦ t ]

map_id : {A : Type 0} (o : Option A) → o ≡ Option.map (λ a. a) o
map_id none = refl
map_id (some a) = refl

module _ (authz : Authorization) (db : Db) where
  started_authz :
      (z : String)
      → find_authz (start_challenge authz db) z
        ≡ Option.map
            (λ a.
              if is_pending authz.status && (a.id == authz.id)
              then record a { status = processing }
              else a)
            (find_authz db z)
  unfolding start_challenge
  started_authz z = elim (Bool-cases (is_pending authz.status)) [
    | inl is ↦ rw is (
        get-update (λ (a : Authorization). a.id) (authz_has_id authz.id)
          (authz_with_status processing) (λ a. refl) z db.authorizations)
    | inr not ↦ rw not (map_id (find_authz db z))
  ]

  started_order :
      (j : String)
      → find_order (start_challenge authz db) j
        ≡ Option.map
            (λ o.
              if is_pending authz.status && ((o.id == authz.order_id) && is_pending o.status)
              then record o { status = processing }
              else o)
            (find_order db j)
  unfolding start_challenge
  started_order j = elim (Bool-cases (is_pending authz.status)) [
    | inl is ↦ rw is (
        get-update (λ (o : Order). o.id) (λ o. has_id authz.order_id o && is_pending o.status)
          (with_status processing) (λ o. refl) j db.orders)
    | inr not ↦ rw not (map_id (find_order db j))
  ]

-- The reply and the rows after a challenge that was acknowledged.
pub record Started (authz_id account_id : String) (db : Db) (reply : ChallengeObject) (task : Task)
    (db' : Db) : Type 0 where
  pub authz : Authorization
  pub order : Order
  pub found : find_authz db authz_id ≡ some authz
  pub parent : find_order db authz.order_id ≡ some order
  pub owned : order.account_id ≡ account_id
  pub open_now : (authz.status ≡ pending) ⊎ (authz.status ≡ processing)
  pub task_is : task ≡ challenge authz_id authz.order_id
  pub shown : reply.status ≡ processing
  pub authz_processing : find_authz db' authz_id ≡ some (record authz { status = processing })
  pub order_begun :
      find_order db' authz.order_id
      ≡ some (record order {
        status = if is_pending authz.status then begun order.status else order.status;
      })
  pub other_authzs : (z : String) → z ≢ authz_id → find_authz db' z ≡ find_authz db z
  pub other_orders : (j : String) → j ≢ authz.order_id → find_order db' j ≡ find_order db j

open_cases : (s : Status) → is_open s ≡ true → (s ≡ pending) ⊎ (s ≡ processing)
open_cases pending h = inl refl
open_cases processing h = inr refl
open_cases Status.ready h = absurd (cc)
open_cases Status.valid h = absurd (cc)
open_cases Status.invalid h = absurd (cc)

begin_authz :
    (authz : Authorization)
    → (authz.status ≡ pending) ⊎ (authz.status ≡ processing)
    → (if is_pending authz.status && (authz.id == authz.id)
        then record authz { status = processing }
        else authz)
      ≡ record authz { status = processing }
begin_authz authz (inl e) = rw (e, eq_refl authz.id) refl
begin_authz authz (inr e) = rw e refl

begin_order :
    (b : Bool) (order : Order)
    → (if b && ((order.id == order.id) && is_pending order.status)
        then record order { status = processing }
        else order)
      ≡ record order { status = if b then begun order.status else order.status }
begin_order false order = refl
begin_order true order = rw (eq_refl order.id) (at order.status refl)
  where
    at :
        (s : Status)
        → order.status ≡ s
        → (if is_pending s then record order { status = processing } else order)
          ≡ record order { status = begun s }
    at pending e = refl
    at processing e = ap (λ t. record order { status = t }) e
    at Status.ready e = ap (λ t. record order { status = t }) e
    at Status.valid e = ap (λ t. record order { status = t }) e
    at Status.invalid e = ap (λ t. record order { status = t }) e

-- What `started_authz` and `started_order` leave as it was.
unchanged_authz :
    (b : Bool) (id z : String) (o : Option Authorization)
    → ((a : Authorization) → o ≡ some a → a.id ≡ z)
    → z ≢ id
    → Option.map (λ a. if b && (a.id == id) then record a { status = processing } else a) o ≡ o
unchanged_authz b id z none key h = refl
unchanged_authz b id z (some a) key h = ground (arith, eq_iff a.id id, key a refl)

unchanged_order :
    (b : Bool) (id j : String) (o : Option Order)
    → ((a : Order) → o ≡ some a → a.id ≡ j)
    → j ≢ id
    → Option.map
        (λ a.
          if b && ((a.id == id) && is_pending a.status)
          then record a { status = processing }
          else a)
        o
      ≡ o
unchanged_order b id j none key h = refl
unchanged_order b id j (some a) key h = ground (arith, eq_iff a.id id, key a refl)

-- Either nothing is written and no task starts, or the authorization with the requested id belongs to an
-- order of the account and is pending or processing, and then: it is processing afterwards; its
-- order becomes processing if both were pending, and is what it was otherwise; no other column and no
-- other row of the two tables changes; and a challenge task starts for the two.
pub acknowledge-Started :
    (settings : Settings) (authz_id account_id : String) (db : Db)
    → (((r : ChallengeObject × Task) → (acknowledge settings authz_id account_id db).0 ≢ ok r)
        × ((acknowledge settings authz_id account_id db).1 ≡ db))
      ⊎ ((reply : ChallengeObject) × (task : Task) × ((acknowledge settings authz_id account_id
              db).0
            ≡ ok (reply, task))
          × Started authz_id account_id db reply task
              (acknowledge settings authz_id account_id db).1)
acknowledge-Started settings authz_id account_id db =
    elim (acknowledge_cases settings authz_id account_id db) [
      | inl refused ↦ inl refused
      | inr (authz, reply, shown, owner, opened, done) ↦
          let (found, (order, parent, owned)) =
            (require_authz_owner_iff db authz_id account_id authz).0 owner in
          let id_is : authz.id ≡ authz_id = key-get (λ a. a.id) authz_id db.authorizations found in
          let order_is : order.id ≡ authz.order_id =
            key-get (λ o. o.id) authz.order_id db.orders parent in
          let open_now = open_cases authz.status opened in
          inr (
            reply,
            challenge authz_id authz.order_id,
            ap (λ r. r.0) done,
            rw done (record {
              authz = authz;
              order = order;
              found = found;
              parent = parent;
              owned = owned;
              open_now = open_now;
              task_is = refl;
              shown = shown;
              authz_processing =
                  subst
                    (λ z.
                      find_authz (start_challenge authz db) z
                      ≡ some (record authz { status = processing }))
                    id_is
                    (started_authz authz db authz.id
                      ∙ (rw (subst (λ z. find_authz db z ≡ some authz) (sym id_is) found)
                          (ap some (begin_authz authz open_now))));
              order_begun =
                  started_order authz db authz.order_id
                  ∙ (rw parent (
                      ap some (
                        subst
                          (λ i.
                            (if is_pending authz.status
                                && ((order.id == i) && is_pending order.status)
                              then record order { status = processing }
                              else order)
                            ≡ record order {
                              status =
                                  if is_pending authz.status
                                  then begun order.status
                                  else order.status;
                            })
                          order_is (begin_order (is_pending authz.status) order))));
              other_authzs = λ z other.
                  started_authz authz db z
                  ∙ unchanged_authz (is_pending authz.status) authz.id z (find_authz db z)
                      (λ a k. key-get (λ (x : Authorization). x.id) z db.authorizations k)
                      (λ k. other (k ∙ id_is));
              other_orders = λ j other.
                  started_order authz db j
                  ∙ unchanged_order (is_pending authz.status) authz.order_id j (find_order db j)
                      (λ a k. key-get (λ (x : Order). x.id) j db.orders k) other;
            }),
          )
    ]
