-- ===== src/Ownership.antt =====
-- src/jackdaw/services/ownership.py.
pub mod Exact
mod Tests
use jackdaw.Result.{◌>>=◌, ◌>>◌, require, or_raise, HttpException, http_problem, Result, http, ok}
use jackdaw.Db.{Db, Order, Authorization, Certificate, Account}
use jackdaw.Base.{Option, String, Bool, false, some, ◌==◌, none}
use jackdaw.AcmeErrors.{unauthorized}
use jackdaw.Base.Table.{get}

-- `_UNAUTHORIZED`; its `status` repeats the status code.
abbrev pub not_owner : HttpException
not_owner = http_problem 403 unauthorized "This resource does not belong to the requesting account"

abbrev pub find_order : Db → String → Option Order
find_order db id = get (λ o. o.id) id db.orders

abbrev pub find_authz : Db → String → Option Authorization
find_authz db id = get (λ a. a.id) id db.authorizations

abbrev pub find_cert : Db → String → Option Certificate
find_cert db id = get (λ c. c.id) id db.certificates

abbrev pub find_account : Db → String → Option Account
find_account db id = get (λ a. a.id) id db.accounts

unfoldable pub require_order_owner : Db → String → String → Result Order
require_order_owner db order_id account_id = do
  order ← or_raise (find_order db order_id) (http 404 "Order not found")
  require (order.account_id == account_id) not_owner
  ok order

-- The parent order of an authorization or a certificate is the account's.
pub owned_by : Option Order → String → Bool
owned_by none account_id = false
owned_by (some order) account_id = order.account_id == account_id

unfoldable pub require_authz_owner : Db → String → String → Result Authorization
unfolding owned_by
require_authz_owner db authz_id account_id = do
  authz ← or_raise (find_authz db authz_id) (http 404 "Authorization not found")
  require (owned_by (find_order db authz.order_id) account_id) not_owner
  ok authz

unfoldable pub require_cert_owner : Db → String → String → Result Certificate
unfolding owned_by
require_cert_owner db cert_id account_id = do
  cert ← or_raise (find_cert db cert_id) (http 404 "Certificate not found")
  require (owned_by (find_order db cert.order_id) account_id) not_owner
  ok cert
