-- ===== src/Orders/Finalize.antt =====
-- src/jackdaw/routes/order.py: `finalize_order`.
use jackdaw.Exec.{Exec, pure, raise, lift, query, ◌>>=◌, ◌>>◌}
use jackdaw.Result
use jackdaw.Base.{String, Option, Bool, some, List, if◌then◌else◌, ◌&&◌, eqb, ◌<>◌, none, ◌∷◌, []}
use jackdaw.Db.{Order, Db, Identifier, status_text, processing, is_ready}
use jackdaw.Jws.Keys.{Codec, Env, Bytes, Request, b64url_decode}
use jackdaw.Config.{Settings}
use jackdaw.Jws.Verify.{verify_jws}
use jackdaw.Result.{HttpException, http_problem, Result, raised, require, ok, or_crash, http}
use jackdaw.Schemas.{parse_finalize}
use jackdaw.Base.Text.{repr}
use jackdaw.Rows.{has_id, with_status}
use jackdaw.Orders.{OrderResponse, authz_urls, order_authzs, order_url}
use jackdaw.AcmeErrors.{order_not_ready}
use jackdaw.Ownership.{require_order_owner, find_order}
use jackdaw.Tasks.{Task, finalize}
use jackdaw.Base.Table.{count, update}
use jackdaw.Json.{str}

pub record Finalizing : Type 0 where
  pub domain : String
  pub csr_der : Bytes
  pub order : Order

abbrev pub not_ready_error : String → HttpException
not_ready_error current =
    http_problem 403 order_not_ready ("Order status is " <> (current <> ", expected 'ready'"))

first_domain : Order → Bytes → List Identifier → Result Finalizing
first_domain order csr_der [] = raised (http 400 "Order has no identifiers")
first_domain order csr_der (ident ∷ rest) =
    ok (record { domain = ident.value; csr_der = csr_der; order = order })

-- The checks of `finalize_order`, up to the claim.
unfoldable pub finalize_checks : Codec → Db → String → String → String → Result Finalizing
unfolding first_domain
finalize_checks c db order_id account_id csr =
    Result.◌>>=◌ (require_order_owner db order_id account_id) λ order.
      Result.◌>>◌
        (require (is_ready order.status) (not_ready_error (repr (status_text order.status))))
        (Result.◌>>=◌ (or_crash (b64url_decode c (str csr)))
          λ csr_der. first_domain order csr_der order.identifiers)

-- `f"{current!r}"` of `db.scalar(select(Order.status)…)`.
abbrev pub current_status : Option Order → String
current_status none = "None"
current_status (some o) = repr (status_text o.status)

abbrev pub claimable : String → Order → Bool
claimable order_id o = has_id order_id o && is_ready o.status

-- The conditional UPDATE: one request wins the transition from ready to processing.
unfoldable pub claim_order : String → Exec Db (Unit {0})
claim_order order_id db =
    if eqb (count (claimable order_id) db.orders) 0
    then raise (not_ready_error (current_status (find_order db order_id))) db
    else pure tt
        (record db { orders = update (claimable order_id) (with_status processing) db.orders })

abbrev pub finalize_reply : Settings → Db → Order → OrderResponse
finalize_reply settings db order = record {
  status = processing;
  identifiers = order.identifiers;
  authorizations = authz_urls settings (order_authzs db order.id);
  finalize = order_url settings order.id <> "/finalize";
  certificate = none;
  expires = order.expires_at;
  error = none;
}

-- `finalize_order` for a verified request; it starts the task that is returned.
unfoldable pub begin_finalize : Env → String → String → String → Exec Db (OrderResponse × Task)
unfolding finalize_checks claim_order
begin_finalize env order_id account_id csr = do
  f ← query (λ db. finalize_checks env.codec db order_id account_id csr)
  claim_order order_id
  body ← query (λ db. ok (finalize_reply env.settings db f.order))
  pure (body, finalize order_id f.domain f.csr_der)

unfoldable pub finalize_order : Env → String → Request → Exec Db (OrderResponse × Task)
unfolding verify_jws parse_finalize begin_finalize
finalize_order env order_id request = do
  verified ← verify_jws env request
  csr ← lift (or_crash (parse_finalize verified.0))
  begin_finalize env order_id verified.1 csr
