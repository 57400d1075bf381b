-- ===== src/Startup.antt =====
-- src/jackdaw/main.py: `_reset_processing_orders`, which runs before any request is served.
use jackdaw.Db.{Problem, Db, is_processing, invalid}
use jackdaw.Base.Table.{update}
use jackdaw.Base.{some}
use jackdaw.Rows.{authz_with_status}

abbrev pub interrupted : Problem
interrupted = record {
  type = "urn:ietf:params:acme:error:serverInternal";
  detail = "Certificate issuance was interrupted by a relay restart; submit a new order.";
}

unfoldable pub reset_processing_orders : Db → Db
reset_processing_orders db = record db {
  orders =
      update (λ o. is_processing o.status)
        (λ o. record o { status = invalid; error = some interrupted }) db.orders;
  authorizations =
      update (λ a. is_processing a.status) (authz_with_status invalid) db.authorizations;
}
