-- ===== src/Ownership/Tests.antt =====
-- The ownership theorems at a concrete database.
use jackdaw.Db.{Order, Authorization, Certificate, Db, Status, empty_db}
use jackdaw.Ownership.{
  require_order_owner, require_authz_owner, require_cert_owner, find_order, find_authz, find_cert,
}
use jackdaw.Base.{some, ◌≡◌, [], none, ◌∷◌, ◌↔◌}
use jackdaw.Result.{ok}
use jackdaw.Ownership.Exact.{
  require_order_owner_iff, OwnedBy, require_authz_owner_iff, require_cert_owner_iff,
}

abbrev order : Order
order = record {
  id = "o1";
  account_id = "a1";
  status = Status.pending;
  identifiers = [];
  cert_id = some "c1";
  expires_at = 900;
  created_at = 100;
  error = none;
}

abbrev authz : Authorization
authz = record {
  id = "z1";
  order_id = "o1";
  identifier = "host.example.com";
  status = Status.pending;
  challenge_token = some "t";
  created_at = 100;
  error = none;
}

abbrev cert : Certificate
cert = record {
  id = "c1";
  order_id = "o1";
  pem_chain = "pem";
  issued_at = 200;
  expires_at = 900;
  serial = some "1f";
}

abbrev db : Db
db = record empty_db { orders = order ∷ []; authorizations = authz ∷ []; certificates = cert ∷ [] }

require_order_owner_iff_example :
    (require_order_owner db "o1" "a1" ≡ ok order)
    ↔ ((find_order db "o1" ≡ some order) × (order.account_id ≡ "a1"))
require_order_owner_iff_example = require_order_owner_iff db "o1" "a1" order

require_authz_owner_iff_example :
    (require_authz_owner db "z1" "a1" ≡ ok authz)
    ↔ ((find_authz db "z1" ≡ some authz) × OwnedBy db "o1" "a1")
require_authz_owner_iff_example = require_authz_owner_iff db "z1" "a1" authz

require_cert_owner_iff_example :
    (require_cert_owner db "c1" "a1" ≡ ok cert)
    ↔ ((find_cert db "c1" ≡ some cert) × OwnedBy db "o1" "a1")
require_cert_owner_iff_example = require_cert_owner_iff db "c1" "a1" cert
