-- ===== src/Orders/Tests.antt =====
-- The theorems on new orders at concrete requests.
use jackdaw.Orders.RateLimit
use jackdaw.Db.{Identifier, empty_db, pending}
use jackdaw.Base.{
  String, List, ◌∷◌, ◌==◌, ◌<>◌, [], ◌≡◌, ◌<◌, ◌≢◌, some, refl, ◌↔◌, arith, ◌⊎◌, All, none,
}
use jackdaw.Jws.Keys.{Env}
use jackdaw.Config.{Settings, defaults, allowed_domain_list, relay_base_url}
use jackdaw.Orders.{
  check_domain_policy, create_order, Draws, created_reply, order_authzs, validate_identifiers,
  check_order_rate_limit, insert_order,
}
use jackdaw.Base.Table.{count, get, select}
use jackdaw.Jws.Samples.{sample_env}
use jackdaw.Orders.RateLimit.{
  Ticket, Shared, Event, checked, written, Overlap, recent, rate_limit_holds,
}
use jackdaw.Json.{str}
use jackdaw.Ownership.{find_order}
use jackdaw.Result.{ok}
use jackdaw.Base.Text.{strip}
use jackdaw.Orders.Policy.{Any, Under, check_domain_policy_iff}
use jackdaw.Orders.Accepted.{create_order_rows}

abbrev host : Identifier
host = record { type = "dns"; value = "host.example.com" }

abbrev draws_of : String → Draws
draws_of id = record { order_id = id; authz_id = λ i. id <> "-z"; token = λ i. "t" }

abbrev env : Env
env = sample_env (str "") (str "")

abbrev limited : Env
limited = record env {
  settings = record defaults { order_rate_limit = 1; order_rate_window = 100 };
}

abbrev based : Settings
based = record defaults { allowed_domains = "example.com" }

check_domain_policy_iff_example : (check_domain_policy env.codec based (host ∷ []) ≡ ok tt) ↔ (
    (allowed_domain_list based ≡ [])
    ⊎ All (λ ident. Any (Under ident.value) (allowed_domain_list based)) (host ∷ []))
check_domain_policy_iff_example = check_domain_policy_iff env.codec based (host ∷ [])

abbrev ticket : String → Ticket
ticket id = record { account_id = "a1"; identifiers = host ∷ []; draws = draws_of id }

abbrev none_waiting : Shared
none_waiting = record { db = empty_db; waiting = [] }

-- The second request finds the first order and is refused.
abbrev in_turn : List Event
in_turn =
    checked 1000 (ticket "o1") ∷ written 1010 0 ∷ checked 1050 (ticket "o2") ∷ written 1060 0 ∷ []

one_order :
    count (λ o. o.account_id == "a1") (RateLimit.run limited none_waiting in_turn).db.orders ≡ 1
unfolding RateLimit.run RateLimit.step count strip allowed_domain_list validate_identifiers
    check_domain_policy check_order_rate_limit insert_order
one_order = refl

-- Both count before either commits: the account gets two orders where one is allowed.
abbrev overlapping : List Event
overlapping =
    checked 1000 (ticket "o1") ∷ checked 1001 (ticket "o2") ∷ written 1010 0 ∷ written 1011 0 ∷ []

two_orders :
    count (λ o. o.account_id == "a1") (RateLimit.run limited none_waiting overlapping).db.orders ≡ 2
unfolding RateLimit.run RateLimit.step count strip allowed_domain_list validate_identifiers
    check_domain_policy check_order_rate_limit insert_order
two_orders = refl

two_at_most : Overlap limited "a1" 2 none_waiting overlapping
unfolding RateLimit.step count strip allowed_domain_list validate_identifiers check_domain_policy
    check_order_rate_limit
two_at_most = (omega arith, (omega arith, (omega arith, (omega arith, omega arith))))

rate_limit_holds_example :
    recent limited.settings 1011 "a1" (RateLimit.run limited none_waiting overlapping).db < 3
unfolding count
rate_limit_holds_example =
    rate_limit_holds limited empty_db 900 2 overlapping "a1" (omega arith) (omega arith)
      (omega arith, (omega arith, (omega arith, (omega arith, tt)))) two_at_most (omega arith)

created_ok :
    (create_order env (draws_of "o1") "a1" (host ∷ []) empty_db).0
    ≡ ok (created_reply env.settings 1000 (draws_of "o1") (host ∷ []))
unfolding create_order strip allowed_domain_list
created_ok = refl

create_order_rows_example :
    let db' = (create_order env (draws_of "o1") "a1" (host ∷ []) empty_db).1 in
    let reply = created_reply env.settings 1000 (draws_of "o1") (host ∷ []) in
    (find_order db' "o1"
      ≡ some (record {
        id = "o1";
        account_id = "a1";
        status = pending;
        identifiers = host ∷ [];
        cert_id = none;
        expires_at = 87400;
        created_at = 1000;
        error = none;
      }))
    × ((ident : Identifier) × (host ∷ [] ≡ ident ∷ [])
        × (order_authzs db' "o1"
            ≡ record {
              id = "o1-z";
              order_id = "o1";
              identifier = ident.value;
              status = pending;
              challenge_token = some "t";
              created_at = 1000;
              error = none;
            }
              ∷ []))
    × (reply.location ≡ relay_base_url env.settings <> ("/acme/order/" <> "o1"))
    × (reply.body.status ≡ pending)
    × (reply.body.authorizations ≡ (relay_base_url env.settings <> ("/acme/authz/" <> "o1-z")) ∷ [])
    × ((j : String)
        → j ≢ "o1"
        → (find_order db' j ≡ find_order empty_db j)
          × (order_authzs db' j ≡ order_authzs empty_db j))
unfolding get select
create_order_rows_example =
    create_order_rows env (draws_of "o1") "a1" (host ∷ []) empty_db
      (created_reply env.settings 1000 (draws_of "o1") (host ∷ [])) created_ok refl refl
