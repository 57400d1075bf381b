-- ===== src/Orders.antt =====
-- src/jackdaw/routes/order.py: creating an order and reading it. The random ids and tokens are
-- arguments.
pub mod Finalize
pub mod Policy
pub mod RateLimit
pub mod Creation
pub mod Accepted
mod Tests
use jackdaw.Exec.{Exec, pure, lift, query, modify, ◌>>=◌, ◌>>◌}
use mathlib.Core.Option
use jackdaw.Result
use jackdaw.Db.{Status, Identifier, Db, Order, Authorization, pending, Problem}
use jackdaw.Base.{
  String, ℕ, List, Bool, Option, ◌==◌, ◌++◌, map, ◌<>◌, ◌&&◌, ◌||◌, if◌then◌else◌, none, some, ◌∷◌,
  not, is_empty, leb, ◌+◌, suc, [], any, ◌-◌, ltb,
}
use jackdaw.Base.Text.{strip, ends_with}
use jackdaw.Jws.Keys.{Codec, Env, Request}
use jackdaw.Config.{allowed_domain_list, Settings, relay_base_url}
use jackdaw.Jws.Verify.{verify_jws}
use jackdaw.Result.{HttpException, Result, http_problem, raised, ok, or_crash, require}
use jackdaw.Schemas.{parse_new_order}
use jackdaw.Ownership.{require_order_owner}
use jackdaw.Base.Table.{select, count}
use jackdaw.AcmeErrors.{rate_limited, malformed, rejected_identifier}
use jackdaw.Json.{num, str}

-- `_isoformat_utc` renders the stored time; the reply holds the time itself.
pub record OrderResponse : Type 0 where
  pub status : Status
  pub identifiers : List Identifier
  pub authorizations : List String
  pub finalize : String
  pub certificate : Option String
  pub expires : ℕ
  pub error : Option Problem

pub record Created : Type 0 where
  pub body : OrderResponse
  pub location : String

-- What `uuid.uuid4` and `secrets.token_urlsafe` draw while an order is created.
pub record Draws : Type 0 where
  pub order_id : String
  pub authz_id : ℕ → String
  pub token : ℕ → String

identifier_ok : Identifier → Bool
identifier_ok ident = ident.type == "dns" && not (strip ident.value == "")

unfoldable pub validate_identifiers : List Identifier → Result (Unit {0})
unfolding identifier_ok
validate_identifiers [] =
    raised (http_problem 400 malformed "Order must contain at least one identifier")
validate_identifiers (ident ∷ []) =
    require (identifier_ok ident)
      (http_problem 400 malformed "Each identifier must be type 'dns' with a non-empty value")
validate_identifiers (ident ∷ other ∷ rest) = raised (
    http_problem 400 malformed
      "This relay issues one domain per order; multi-identifier (SAN) orders are not supported")

-- `value == base or value.endswith(f".{base}")`
unfoldable pub under_base : String → String → Bool
unfolding ends_with
under_base value base = value == base || ends_with value ("." <> base)

unfoldable pub domains_allowed : Codec → List String → List Identifier → Result (Unit {0})
unfolding under_base
domains_allowed c allowed [] = ok tt
domains_allowed c allowed (ident ∷ rest) =
    Result.◌>>◌
      (require (any (under_base ident.value) allowed) (
        http_problem 403 rejected_identifier
          ("Domain " <> (c.repr (str ident.value) <> " is not under an allowed base domain"))))
      (domains_allowed c allowed rest)

unfoldable pub check_domain_policy : Codec → Settings → List Identifier → Result (Unit {0})
unfolding domains_allowed
check_domain_policy c settings identifiers =
    if is_empty (allowed_domain_list settings)
    then ok tt
    else domains_allowed c (allowed_domain_list settings) identifiers

-- The condition of the count in `_check_order_rate_limit`. A window that begins before the epoch
-- begins at 0 here.
abbrev pub in_window : Settings → ℕ → String → Order → Bool
in_window settings now account_id o =
    o.account_id == account_id && leb (now - settings.order_rate_window) o.created_at

abbrev pub rate_limit_error : Codec → Settings → HttpException
rate_limit_error c settings = http_problem 429 rate_limited (
    "Order rate limit of "
    <> (c.format (num settings.order_rate_limit)
        <> (" per " <> (c.format (num settings.order_rate_window) <> "s exceeded"))))

unfoldable pub check_order_rate_limit :
    Codec → Settings → ℕ → List Order → String → Result (Unit {0})
check_order_rate_limit c settings now orders account_id =
    if leb settings.order_rate_limit 0
    then ok tt
    else require (ltb (count (in_window settings now account_id) orders) settings.order_rate_limit)
        (rate_limit_error c settings)

abbrev pub pending_order : ℕ → String → String → List Identifier → Order
pending_order now order_id account_id identifiers = record {
  id = order_id;
  account_id = account_id;
  status = pending;
  identifiers = identifiers;
  cert_id = none;
  expires_at = now + 86400;
  created_at = now;
  error = none;
}

abbrev pub pending_authz : ℕ → String → String → String → String → Authorization
pending_authz now authz_id order_id identifier token = record {
  id = authz_id;
  order_id = order_id;
  identifier = identifier;
  status = pending;
  challenge_token = some token;
  created_at = now;
  error = none;
}

-- One authorization for each identifier; `i` counts the draws.
unfoldable pub new_authzs : ℕ → Draws → ℕ → List Identifier → List Authorization
new_authzs now draws i [] = []
new_authzs now draws i (ident ∷ rest) =
    pending_authz now (draws.authz_id i) draws.order_id ident.value (draws.token i)
    ∷ new_authzs now draws (suc i) rest

-- The rows of a new order.
unfoldable pub insert_order : ℕ → Draws → String → List Identifier → Db → Db
unfolding new_authzs
insert_order now draws account_id identifiers db = record db {
  orders = db.orders ++ pending_order now draws.order_id account_id identifiers ∷ [];
  authorizations = db.authorizations ++ new_authzs now draws 0 identifiers;
}

abbrev pub authz_urls : Settings → List Authorization → List String
authz_urls settings = map (λ a. relay_base_url settings <> ("/acme/authz/" <> a.id))

abbrev pub order_url : Settings → String → String
order_url settings order_id = relay_base_url settings <> ("/acme/order/" <> order_id)

pub created_reply : Settings → ℕ → Draws → List Identifier → Created
created_reply settings now draws identifiers = record {
  body = record {
    status = pending;
    identifiers = identifiers;
    authorizations = authz_urls settings (new_authzs now draws 0 identifiers);
    finalize = order_url settings draws.order_id <> "/finalize";
    certificate = none;
    expires = now + 86400;
    error = none;
  };
  location = order_url settings draws.order_id;
}

-- `new_order` for a verified request that no other one overtakes: the checks, and the two inserts.
unfoldable pub create_order : Env → Draws → String → List Identifier → Exec Db Created
unfolding validate_identifiers check_domain_policy check_order_rate_limit insert_order created_reply
create_order env draws account_id identifiers = do
  lift (validate_identifiers identifiers)
  lift (check_domain_policy env.codec env.settings identifiers)
  query (λ db. check_order_rate_limit env.codec env.settings env.now db.orders account_id)
  modify (insert_order env.now draws account_id identifiers)
  pure (created_reply env.settings env.now draws identifiers)

unfoldable pub new_order : Env → Draws → Request → Exec Db Created
unfolding verify_jws parse_new_order create_order
new_order env draws request = do
  verified ← verify_jws env request
  identifiers ← lift (or_crash (parse_new_order verified.0))
  create_order env draws verified.1 identifiers

abbrev pub order_authzs : Db → String → List Authorization
order_authzs db order_id = select (λ a. a.order_id == order_id) db.authorizations

abbrev pub order_response : Settings → Db → Order → OrderResponse
order_response settings db order = record {
  status = order.status;
  identifiers = order.identifiers;
  authorizations = authz_urls settings (order_authzs db order.id);
  finalize = order_url settings order.id <> "/finalize";
  certificate = Option.map (λ c. relay_base_url settings <> ("/acme/cert/" <> c)) order.cert_id;
  expires = order.expires_at;
  error = order.error;
}

unfoldable pub get_order : Env → String → Request → Exec Db OrderResponse
unfolding verify_jws require_order_owner
get_order env order_id request = do
  verified ← verify_jws env request
  order ← query (λ db. require_order_owner db order_id verified.1)
  query (λ db. ok (order_response env.settings db order))
