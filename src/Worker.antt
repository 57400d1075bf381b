-- ===== src/Worker.antt =====
-- src/jackdaw/worker.py: the two background tasks, each cut where it waits for the network.
pub mod Outcomes
mod Tests
use jackdaw.Base.{String, Option, Bool, if◌then◌else◌, ℕ, all, some, none}
use jackdaw.Db.{Db, Problem, Order, Authorization, ready, valid, is_valid, invalid}
use jackdaw.Rows.{set_authz_status, set_order_status, authz_has_id, has_id, with_status}
use jackdaw.CertStore.{store_cert, X509, cert_expiry_from_pem}
use jackdaw.Base.Table.{update}
use jackdaw.Ownership.{find_authz, find_order, find_account}
use jackdaw.AcmeErrors.{server_internal}
use jackdaw.Orders.{order_authzs}
use jackdaw.Http01.{Checked, passed, rejected, crashed}

abbrev pub problem : String → String → Problem
problem type detail = record { type = type; detail = detail }

-- Both rows become invalid; the authorization carries the reason.
unfoldable pub fail_challenge : String → String → Problem → Db → Db
fail_challenge authz_id order_id p db = record db {
  authorizations =
      update (authz_has_id authz_id) (λ a. record a { status = invalid; error = some p })
        db.authorizations;
  orders = update (has_id order_id) (with_status invalid) db.orders;
}

-- What `run_challenge` asks the network: to fetch a token of a domain and compare the answer.
pub record Validation : Type 0 where
  pub domain : String
  pub token : String
  pub expected : String

-- The first part of `run_challenge` ends the task, or goes on to a validation.
pub data Begun : Type 0 where
  ended : Db → Begun
  validating : Validation → Begun

abbrev pub begin_with : (String → String → Option String) → Db → Authorization → Order → Begun
begin_with key_authorization db authz order = elim authz.challenge_token [
  | none ↦ ended (
      fail_challenge authz.id order.id
        (problem server_internal "Authorization has no challenge token") db)
  | some token ↦ elim (find_account db order.account_id) [
    | none ↦ ended (
        fail_challenge authz.id order.id
          (problem server_internal "Account for this authorization no longer exists") db)
    | some account ↦ elim (key_authorization token account.public_key) [
      -- The exception ends the task, and the rows stay as they are.
      | none ↦ ended db
      | some expected ↦
          validating (record { domain = authz.identifier; token = token; expected = expected })
    ]
  ]
]

unfoldable pub begin_challenge : (String → String → Option String) → String → String → Db → Begun
unfolding fail_challenge
begin_challenge key_authorization authz_id order_id db = elim (find_authz db authz_id) [
  | none ↦ ended db
  | some authz ↦ elim (find_order db order_id) [
    | none ↦ ended db
    | some order ↦ begin_with key_authorization db authz order
  ]
]

abbrev pub all_valid : String → Db → Bool
all_valid order_id db = all (λ a. is_valid a.status) (order_authzs db order_id)

-- The order becomes ready once every authorization that it owns is valid.
unfoldable pub ready_if_all_valid : String → Db → Db
ready_if_all_valid order_id db =
    if all_valid order_id db then set_order_status order_id ready db else db

-- The rest of `run_challenge`, for rows that are still there: `none` is a validation that held.
unfoldable pub record_outcome : String → String → Option Problem → Db → Db
unfolding set_authz_status set_order_status fail_challenge ready_if_all_valid
record_outcome authz_id order_id none db =
    ready_if_all_valid order_id (set_authz_status authz_id valid db)
record_outcome authz_id order_id (some p) db = fail_challenge authz_id order_id p db

unfoldable pub finish_challenge : String → String → Option Problem → Db → Db
unfolding record_outcome
finish_challenge authz_id order_id outcome db = elim (find_authz db authz_id) [
  | none ↦ db
  | some authz ↦ elim (find_order db order_id) [
    | none ↦ db
    | some order ↦ record_outcome authz_id order_id outcome db
  ]
]

-- The `try` around the validation: `none` is a validation that held.
abbrev pub outcome_of : Checked (Unit {0}) → Option Problem
outcome_of (passed u) = none
outcome_of (rejected p) = some p
outcome_of (crashed text) =
    some (problem server_internal "Unexpected error during HTTP-01 validation")

-- What `le.order_cert` came to: a chain, or an exception with its problem document.
pub data Issued : Type 0 where
  chain : (pem : String) → Issued
  failed : Problem → Issued

abbrev pub complete_order : String → Order → Order
complete_order cert_id o = record o { cert_id = some cert_id; status = valid }

-- The end of `process_finalize`, for an order that is still there; the certificate is committed first.
unfoldable pub finish_order : X509 → ℕ → String → String → Issued → Db → Db
unfolding store_cert cert_expiry_from_pem
finish_order x now cert_id order_id (failed p) db = record db {
  orders = update (has_id order_id) (λ o. record o { status = invalid; error = some p }) db.orders;
}
finish_order x now cert_id order_id (chain pem) db =
    let db' = store_cert x now cert_id order_id pem (cert_expiry_from_pem x now pem) db in
    record db' { orders = update (has_id order_id) (complete_order cert_id) db'.orders }

unfoldable pub finish_finalize : X509 → ℕ → String → String → Issued → Db → Db
unfolding finish_order
finish_finalize x now cert_id order_id issued db = elim (find_order db order_id) [
  | none ↦ db
  | some order ↦ finish_order x now cert_id order_id issued db
]
