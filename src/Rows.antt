-- ===== src/Rows.antt =====
-- The writes that the routes and the worker make to one order or one authorization.
pub mod Rewrites
use jackdaw.Base.{String, Bool, ◌==◌}
use jackdaw.Db.{Status, Order, Authorization, Db}
use jackdaw.Base.Table.{update}

abbrev pub has_id : String → Order → Bool
has_id id o = o.id == id

abbrev pub authz_has_id : String → Authorization → Bool
authz_has_id id a = a.id == id

abbrev pub with_status : Status → Order → Order
with_status s o = record o { status = s }

abbrev pub authz_with_status : Status → Authorization → Authorization
authz_with_status s a = record a { status = s }

-- `order.status = s` of the row with that id, and a commit.
unfoldable pub set_order_status : String → Status → Db → Db
set_order_status id s db = record db { orders = update (has_id id) (with_status s) db.orders }

unfoldable pub set_authz_status : String → Status → Db → Db
set_authz_status id s db = record db {
  authorizations = update (authz_has_id id) (authz_with_status s) db.authorizations;
}
