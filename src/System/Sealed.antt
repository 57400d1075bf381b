-- ===== src/System/Sealed.antt =====
-- An order whose claim has happened, with no challenge run of it left: what keeps it from being
-- claimed again.
use jackdaw.Base.{
  String, Bool, ◌≡◌, Option, false, ◌≢◌, ◌==◌, some, eqb, All, if◌then◌else◌, ap, arith, eq_iff,
  some-injective, true, refl, none,
}
use jackdaw.Db.{Order, Authorization, is_ready, valid, processing}
use jackdaw.Orders.Finalize.{claim_order, claimable, not_ready_error, current_status}
use jackdaw.Tasks.{Task, challenge, finalize}
use jackdaw.System.{System}
use jackdaw.Rows.Rewrites.{Rewrites}
use jackdaw.Base.Table.{Unique, count, update, count-get, key-get}
use jackdaw.Ownership.{find_authz, find_order}
use jackdaw.Result.{ok}
use jackdaw.Exec.{raise, pure}
use jackdaw.Rows.{with_status}
use mathlib.Core.Option

abbrev pub is_for : String → Task → Bool
is_for j (challenge z k) = k == j
is_for j (finalize k domain csr_der) = false

abbrev pub Quiet : String → Task → Type 0
Quiet j t = is_for j t ≡ false

-- The order is there and not ready, its authorizations are valid, and no challenge run of it is in
-- flight.
pub record Sealed (j : String) (s : System) : Type 0 where
  pub there : Option.map (λ o. is_ready o.status) (find_order s.db j) ≡ some false
  pub settled :
      (z : String) (a : Authorization)
      → find_authz s.db z ≡ some a
      → a.order_id ≡ j
      → a.status ≡ valid
  pub quiet : All (Quiet j) s.tasks

pub Rewrites-Sealed :
    {F : Order → Order} {G : Authorization → Authorization} (j : String) (s t : System)
    → Rewrites s.db t.db F G
    → ((o : Order) → o.id ≡ j → is_ready o.status ≡ false → is_ready (F o).status ≡ false)
    → ((z : String) (a : Authorization)
        → find_authz s.db z ≡ some a
        → a.order_id ≡ j
        → a.status ≡ valid
        → (G a).status ≡ valid)
    → All (Quiet j) t.tasks
    → Sealed j s
    → Sealed j t
Rewrites-Sealed {F} {G} j s t w orders authzs quiet sealed = record {
  there = rw (w.orders j) (order (find_order s.db j) refl sealed.there);
  settled = λ z a' found owned. authz z a' (find_authz s.db z) refl found owned;
  quiet = quiet;
}
  where
    order :
        (o : Option Order)
        → find_order s.db j ≡ o
        → Option.map (λ r. is_ready r.status) o ≡ some false
        → Option.map (λ r. is_ready r.status) (Option.map F o) ≡ some false
    order none e h = absurd (cc)
    order (some o) e h =
        ap some (orders o (key-get (λ r. r.id) j s.db.orders e) (some-injective _ _ h))

    authz :
        (z : String) (a' : Authorization) (a : Option Authorization)
        → find_authz s.db z ≡ a
        → find_authz t.db z ≡ some a'
        → a'.order_id ≡ j
        → a'.status ≡ valid
    authz z a' none e found owned = absurd (ground (arith, w.authzs z))
    authz z a' (some a) e found owned =
        ground (arith, w.authzs z, w.owner a, authzs z a e, sealed.settled z a e)

-- A sealed order is not claimed.
pub claim-Sealed :
    (j : String) (s : System)
    → Sealed j s
    → Unique (λ o. o.id) s.db.orders
    → (claim_order j s.db).0 ≢ ok tt
unfolding claim_order
claim-Sealed j s sealed u = at (eqb (count (claimable j) s.db.orders) 0) refl
  where
    at :
        (b : Bool)
        → eqb (count (claimable j) s.db.orders) 0 ≡ b
        → (if b
            then raise (not_ready_error (current_status (find_order s.db j))) s.db
            else pure tt (record s.db {
              orders = update (claimable j) (with_status processing) s.db.orders;
            })).0
          ≢ ok tt
    at true e h = cc
    at false e h =
        let (o, found, holds) =
          count-get (λ r. r.id) (claimable j) j (λ r k. ground (arith, eq_iff r.id j)) s.db.orders u
            (λ z. ground arith) in
        ground (arith, sealed.there)
