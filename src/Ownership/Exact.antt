-- ===== src/Ownership/Exact.antt =====
-- Who may see which row.
use jackdaw.Ownership.{
  require_order_owner, owned_by, require_authz_owner, require_cert_owner, find_order, find_authz,
  find_cert, not_owner,
}
use jackdaw.Db.{Db, Order, Authorization, Certificate}
use jackdaw.Base.{String, ◌≡◌, some, true, ◌↔◌, Option, arith, eq_iff, none, refl, ◌==◌}
use jackdaw.Result.{ok, guarded_iff, http}

-- `require_order_owner` returns a row exactly when it has that id and belongs to the account.
pub require_order_owner_iff :
    (db : Db) (order_id account_id : String) (order : Order)
    → (require_order_owner db order_id account_id ≡ ok order)
      ↔ ((find_order db order_id ≡ some order) × (order.account_id ≡ account_id))
unfolding require_order_owner
require_order_owner_iff db order_id account_id order =
    let g =
      guarded_iff (find_order db order_id) (λ o. o.account_id == account_id)
        (http 404 "Order not found") not_owner order in
    let same = eq_iff order.account_id account_id in
    ((λ h. let p = g.0 h in (p.0, same.0 p.1)), (λ h. g.1 (h.0, same.1 h.1)))

-- The order that a row names exists and belongs to the account.
abbrev pub OwnedBy : Db → String → String → Type 0
OwnedBy db order_id account_id =
    (order : Order) × (find_order db order_id ≡ some order) × (order.account_id ≡ account_id)

owned_by_iff :
    (db : Db) (order_id account_id : String)
    → (owned_by (find_order db order_id) account_id ≡ true) ↔ OwnedBy db order_id account_id
unfolding owned_by
owned_by_iff db order_id account_id = at (find_order db order_id) refl
  where
    at :
        (o : Option Order)
        → find_order db order_id ≡ o
        → (owned_by o account_id ≡ true) ↔ OwnedBy db order_id account_id
    at none e = ((λ h. absurd (cc)), λ h. absurd (ground arith))
    at (some order) e = (
      (λ h. (order, e, (eq_iff order.account_id account_id).0 h)),
      λ h. (eq_iff order.account_id account_id).1 (ground arith),
    )

-- `require_authz_owner` returns an authorization exactly when it has that id and its order exists
-- and belongs to the account.
pub require_authz_owner_iff :
    (db : Db) (authz_id account_id : String) (authz : Authorization)
    → (require_authz_owner db authz_id account_id ≡ ok authz)
      ↔ ((find_authz db authz_id ≡ some authz) × OwnedBy db authz.order_id account_id)
unfolding require_authz_owner
require_authz_owner_iff db authz_id account_id authz =
    let g =
      guarded_iff (find_authz db authz_id) (λ a. owned_by (find_order db a.order_id) account_id)
        (http 404 "Authorization not found") not_owner authz in
    let own = owned_by_iff db authz.order_id account_id in
    ((λ h. let p = g.0 h in (p.0, own.0 p.1)), (λ h. g.1 (h.0, own.1 h.1)))

-- `require_cert_owner` returns a certificate exactly when it has that id and its order exists and
-- belongs to the account.
pub require_cert_owner_iff :
    (db : Db) (cert_id account_id : String) (cert : Certificate)
    → (require_cert_owner db cert_id account_id ≡ ok cert)
      ↔ ((find_cert db cert_id ≡ some cert) × OwnedBy db cert.order_id account_id)
unfolding require_cert_owner
require_cert_owner_iff db cert_id account_id cert =
    let g =
      guarded_iff (find_cert db cert_id) (λ c. owned_by (find_order db c.order_id) account_id)
        (http 404 "Certificate not found") not_owner cert in
    let own = owned_by_iff db cert.order_id account_id in
    ((λ h. let p = g.0 h in (p.0, own.0 p.1)), (λ h. g.1 (h.0, own.1 h.1)))
