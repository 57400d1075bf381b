-- ===== src/Orders/Accepted.antt =====
-- Which requests for a new order succeed, and what is stored for them.
use jackdaw.Base.{
  ℕ, String, List, ◌≡◌, ◌≢◌, ◌⊎◌, ◌&&◌, ◌==◌, ◌<◌, ◌-◌, leb, [], ◌∷◌, inl, inr, refl, All, ◌+◌,
  some, none, ◌∙◌, sym, ap, ◌<>◌,
}
use jackdaw.Base.Table.{count}
use jackdaw.Base.Text.{strip}
use jackdaw.Config.{Settings, allowed_domain_list, relay_base_url}
use jackdaw.Db.{Db, Identifier, Order, pending}
use jackdaw.Jws.Keys.{Env}
use jackdaw.Result.{ok, ok-injective}
use jackdaw.Ownership.{find_order}
use jackdaw.Orders.{create_order, Created, Draws, order_authzs, created_reply, new_authzs}
use jackdaw.Orders.Policy.{Any, Under, validate_identifiers_iff}
use jackdaw.Orders.Creation.{
  create_order_cases, order-insert_self, order-insert_ne, authzs-insert, authzs-insert_ne,
}

-- One identifier of type "dns" with more than white space in it.
abbrev pub IsSingleDns : List Identifier → Type 0
IsSingleDns identifiers =
    (ident : Identifier) × (identifiers ≡ ident ∷ [])
    × (ident.type ≡ "dns")
    × (strip ident.value ≢ "")

-- No base domains are configured, or each name is one of them or below one.
abbrev pub IsPermitted : Settings → List Identifier → Type 0
IsPermitted settings identifiers =
    (allowed_domain_list settings ≡ [])
    ⊎ All (λ ident. Any (Under ident.value) (allowed_domain_list settings)) identifiers

-- There is no limit, or the account has fewer orders in the window.
abbrev pub HasRoom : Settings → ℕ → List Order → String → Type 0
HasRoom settings now orders account_id =
    (settings.order_rate_limit ≡ 0)
    ⊎ (count
          (λ o. (o.account_id == account_id) && leb (now - settings.order_rate_window) o.created_at)
          orders
        < settings.order_rate_limit)

module _ (env : Env) (draws : Draws) (account_id : String) (identifiers : List Identifier)
    (db : Db) where
  -- The order that is created can be read back: pending, the account's, with the one name that was
  -- asked for, no certificate and no error, and it expires a day later. It has one authorization,
  -- pending, for that name, with the token that was drawn. The reply names the order and that
  -- authorization. Every other order is what it was, and so are its authorizations; all this if the drawn
  -- order id was in no row.
  pub create_order_rows :
      (reply : Created)
      → (create_order env draws account_id identifiers db).0 ≡ ok reply
      → find_order db draws.order_id ≡ none
      → order_authzs db draws.order_id ≡ []
      → let db' = (create_order env draws account_id identifiers db).1 in
        (find_order db' draws.order_id
          ≡ some (record {
            id = draws.order_id;
            account_id = account_id;
            status = pending;
            identifiers = identifiers;
            cert_id = none;
            expires_at = env.now + 86400;
            created_at = env.now;
            error = none;
          }))
        × ((ident : Identifier) × (identifiers ≡ ident ∷ [])
            × (order_authzs db' draws.order_id
                ≡ record {
                  id = draws.authz_id 0;
                  order_id = draws.order_id;
                  identifier = ident.value;
                  status = pending;
                  challenge_token = some (draws.token 0);
                  created_at = env.now;
                  error = none;
                }
                  ∷ []))
        × (reply.location ≡ relay_base_url env.settings <> ("/acme/order/" <> draws.order_id))
        × (reply.body.status ≡ pending)
        × (reply.body.authorizations
            ≡ (relay_base_url env.settings <> ("/acme/authz/" <> draws.authz_id 0)) ∷ [])
        × ((j : String)
            → j ≢ draws.order_id
            → (find_order db' j ≡ find_order db j) × (order_authzs db' j ≡ order_authzs db j))
  unfolding new_authzs created_reply
  create_order_rows reply created no_order no_authzs =
      elim (create_order_cases env draws account_id identifiers db) [
        | inl (refused, same) ↦ absurd (refused reply created)
        | inr (a, b, c, done) ↦
            let (ident, single, dns, filled) = (validate_identifiers_iff identifiers).0 a in
            let is_reply : created_reply env.settings env.now draws identifiers ≡ reply =
              ok-injective (sym (ap (λ r. r.0) done) ∙ created) in
            rw done (
              order-insert_self env.now draws account_id identifiers db no_order,
              (
                ident,
                single,
                authzs-insert env.now draws account_id identifiers db no_authzs ∙ rw single refl,
              ),
              rw (sym is_reply) refl,
              rw (sym is_reply) refl,
              rw (sym is_reply, single) refl,
              λ j other. (
                order-insert_ne env.now draws account_id identifiers db j other,
                authzs-insert_ne env.now draws account_id identifiers db j other,
              ),
            )
      ]
