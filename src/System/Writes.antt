-- ===== src/System/Writes.antt =====
-- The writes of the handlers and of the worker as functions of the rows, and what they do to
-- `IsProven`.
use mathlib.Core.Option
use jackdaw.Db.{Problem, Authorization, Order, Db, invalid, is_pending, processing, is_processing}
use jackdaw.Base.{String, Bool, some, ◌≡◌, ◌&&◌, arith, refl, eq_iff, true, if◌then◌else◌, false}
use jackdaw.Worker.{fail_challenge}
use jackdaw.Challenge.{start_challenge, start_order}
use jackdaw.Rows.Rewrites.{Rewrites, apply_if, Rewrites-update, Rewrites-orders}
use jackdaw.Ownership.{find_authz}
use jackdaw.Rows.{has_id, with_status, authz_has_id, set_authz_status, authz_with_status}
use jackdaw.System.Invariant.{IsProven, IsProven-Rewrites}
use jackdaw.Base.Table.{key-get, update}
use jackdaw.Startup.{interrupted, reset_processing_orders}
use jackdaw.Orders.Finalize.{claimable}

abbrev fail_authz : Problem → Authorization → Authorization
fail_authz p a = record a { status = invalid; error = some p }

abbrev pub starts : String → Order → Bool
starts j o = has_id j o && is_pending o.status

pub fail_challenge-Rewrites :
    (z j : String) (p : Problem) (db : Db)
    → Rewrites db
        (fail_challenge z j p db)
        (apply_if (has_id j) (with_status invalid))
        (apply_if (authz_has_id z) (fail_authz p))
unfolding fail_challenge
fail_challenge-Rewrites z j p db =
    Rewrites-update (has_id j) (with_status invalid) (authz_has_id z) (fail_authz p) (λ o. refl)
      (λ a. refl) (λ a. refl) db (fail_challenge z j p db) refl refl

-- A failure of a linked challenge makes the order of the authorization invalid too.
pub fail_challenge-IsProven :
    (z j : String) (p : Problem) (db : Db)
    → Option.map (λ a. a.order_id) (find_authz db z) ≡ some j
    → IsProven db
    → IsProven (fail_challenge z j p db)
fail_challenge-IsProven z j p db link proven =
    IsProven-Rewrites (fail_challenge-Rewrites z j p db) proven
      λ k y o a fo fa owned before isready. ground (
        arith,
        key-get (λ r. r.id) y db.authorizations fa,
        key-get (λ r. r.id) k db.orders fo,
        eq_iff a.id z,
        eq_iff o.id j,
      )

-- `start_challenge` for a pending authorization.
abbrev pub started : Authorization → Db → Db
started authz db = start_order authz.order_id (set_authz_status authz.id processing db)

pub started-Rewrites :
    (authz : Authorization) (db : Db)
    → Rewrites db
        (started authz db)
        (apply_if (starts authz.order_id) (with_status processing))
        (apply_if (authz_has_id authz.id) (authz_with_status processing))
unfolding set_authz_status
started-Rewrites authz db =
    Rewrites-update (starts authz.order_id) (with_status processing) (authz_has_id authz.id)
      (authz_with_status processing) (λ o. refl) (λ a. refl) (λ a. refl) db (started authz db) refl
      refl

-- It rewrites the rows, one way or the other.
pub start_challenge_cases {ℓ} :
    (P : Db → Type ℓ) (authz : Authorization) (db : Db)
    → (is_pending authz.status ≡ true → P (started authz db))
    → P db
    → P (start_challenge authz db)
unfolding start_challenge
start_challenge_cases P authz db yes_case no_case = at (is_pending authz.status) yes_case
  where
    at : (b : Bool) → (b ≡ true → P (started authz db)) → P (if b then started authz db else db)
    at true k = k refl
    at false k = no_case

pub started-IsProven :
    (authz : Authorization) (db : Db)
    → find_authz db authz.id ≡ some authz
    → is_pending authz.status ≡ true
    → IsProven db
    → IsProven (started authz db)
started-IsProven authz db found is_new proven =
    IsProven-Rewrites (started-Rewrites authz db) proven λ k y o a fo fa owned before isready.
      ground (arith, key-get (λ r. r.id) y db.authorizations fa, eq_iff a.id authz.id)

pub claim-Rewrites :
    (j : String) (db : Db)
    → Rewrites db
        (record db { orders = update (claimable j) (with_status processing) db.orders })
        (apply_if (claimable j) (with_status processing))
        (λ a. a)
claim-Rewrites j db =
    Rewrites-orders (claimable j) (with_status processing) (λ o. refl) db
      (record db { orders = update (claimable j) (with_status processing) db.orders }) refl refl

abbrev interrupt : Order → Order
interrupt o = record o { status = invalid; error = some interrupted }

pub reset-Rewrites :
    (db : Db)
    → Rewrites db
        (reset_processing_orders db)
        (apply_if (λ o. is_processing o.status) interrupt)
        (apply_if (λ a. is_processing a.status) (authz_with_status invalid))
unfolding reset_processing_orders
reset-Rewrites db =
    Rewrites-update (λ o. is_processing o.status) interrupt (λ a. is_processing a.status)
      (authz_with_status invalid) (λ o. refl) (λ a. refl) (λ a. refl) db
      (reset_processing_orders db) refl refl

pub reset-IsProven : (db : Db) → IsProven db → IsProven (reset_processing_orders db)
reset-IsProven db proven =
    IsProven-Rewrites (reset-Rewrites db) proven λ k y o a fo fa owned before isready. ground arith

pub claim-IsProven :
    (j : String) (db : Db)
    → IsProven db
    → IsProven (record db { orders = update (claimable j) (with_status processing) db.orders })
claim-IsProven j db proven =
    IsProven-Rewrites (claim-Rewrites j db) proven
      λ k y o a fo fa owned before isready. ground arith
