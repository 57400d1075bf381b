-- ===== src/Orders/Creation.antt =====
-- What creating an order writes.
use jackdaw.Exec.{◌>>◌, continue, lift, query, modify, pure, Exec}
use jackdaw.Orders.{
  create_order, Draws, new_authzs, Created, validate_identifiers, check_domain_policy, order_authzs,
  check_order_rate_limit, created_reply, insert_order, pending_order,
}
use jackdaw.Base.Table.{select, select-append, get-append}
use mathlib.Core.List.{append-nil}
use jackdaw.Jws.Keys.{Env}
use jackdaw.Base.{
  String, ℕ, List, ◌==◌, ◌≡◌, ◌≢◌, ◌⊎◌, none, [], some, inl, inr, if◌then◌else◌, ◌∙◌, arith, ◌∷◌,
  eq_refl, eq_iff, ap, ◌++◌, refl, suc,
}
use jackdaw.Db.{Identifier, Db}
use jackdaw.Result.{ok, Result, raised, uncaught}
use jackdaw.Ownership.{find_order}

-- An order is created only if the three checks pass, and then two inserts are all that happens;
-- if a check fails nothing is written.
pub create_order_cases :
    (env : Env) (draws : Draws) (account_id : String) (identifiers : List Identifier) (db : Db)
    → (((r : Created) → (create_order env draws account_id identifiers db).0 ≢ ok r)
        × ((create_order env draws account_id identifiers db).1 ≡ db))
      ⊎ ((validate_identifiers identifiers ≡ ok tt)
          × (check_domain_policy env.codec env.settings identifiers ≡ ok tt)
          × (check_order_rate_limit env.codec env.settings env.now db.orders account_id ≡ ok tt)
          × (create_order env draws account_id identifiers db ≡ (
            ok (created_reply env.settings env.now draws identifiers),
            insert_order env.now draws account_id identifiers db,
          )))
unfolding create_order
create_order_cases env draws account_id identifiers db =
    at (validate_identifiers identifiers) (check_domain_policy env.codec env.settings identifiers)
  where
    inserted : Db
    inserted = insert_order env.now draws account_id identifiers db

    reply : Created
    reply = created_reply env.settings env.now draws identifiers

    write : Exec Db Created
    write = modify (insert_order env.now draws account_id identifiers) >> pure reply

    limit : Db → Result (Unit {0})
    limit d = check_order_rate_limit env.codec env.settings env.now d.orders account_id

    chain : (a b : Result (Unit {0})) → Result Created × Db
    chain a b = continue a (λ _. lift b >> (query limit >> write)) db

    last :
        (c : Result (Unit {0}))
        → (((r : Created) → (continue c (λ _. write) db).0 ≢ ok r)
            × ((continue c (λ _. write) db).1 ≡ db))
          ⊎ ((c ≡ ok tt) × (continue c (λ _. write) db ≡ (ok reply, inserted)))
    last (ok u) = inr (refl, refl)
    last (raised x) = inl ((λ r h. cc), refl)
    last uncaught = inl ((λ r h. cc), refl)

    at :
        (a b : Result (Unit {0}))
        → (((r : Created) → (chain a b).0 ≢ ok r) × ((chain a b).1 ≡ db))
          ⊎ ((a ≡ ok tt) × (b ≡ ok tt) × (limit db ≡ ok tt) × (chain a b ≡ (ok reply, inserted)))
    at (ok u) (ok v) = elim (last (limit db)) [
      | inl no_reply ↦ inl no_reply
      | inr (passed, done) ↦ inr (refl, refl, passed, done)
    ]
    at (ok u) (raised x) = inl ((λ r h. cc), refl)
    at (ok u) uncaught = inl ((λ r h. cc), refl)
    at (raised x) b = inl ((λ r h. cc), refl)
    at uncaught b = inl ((λ r h. cc), refl)

-- The rows of a new order.
select-new_authzs :
    (now : ℕ) (draws : Draws) (i : ℕ) (identifiers : List Identifier)
    → select (λ a. a.order_id == draws.order_id) (new_authzs now draws i identifiers)
      ≡ new_authzs now draws i identifiers
unfolding select new_authzs
select-new_authzs now draws i [] = refl
select-new_authzs now draws i (ident ∷ rest) =
    ground (arith, eq_refl draws.order_id, select-new_authzs now draws (suc i) rest)

select-new_authzs_ne :
    (now : ℕ) (draws : Draws) (i : ℕ) (identifiers : List Identifier) (j : String)
    → j ≢ draws.order_id
    → select (λ a. a.order_id == j) (new_authzs now draws i identifiers) ≡ []
unfolding select new_authzs
select-new_authzs_ne now draws i [] j h = refl
select-new_authzs_ne now draws i (ident ∷ rest) j h =
    ground (arith, eq_iff draws.order_id j, select-new_authzs_ne now draws (suc i) rest j h)

module _ (now : ℕ) (draws : Draws) (account_id : String) (identifiers : List Identifier)
    (db : Db) where
  pub order-insert :
      (j : String)
      → find_order (insert_order now draws account_id identifiers db) j ≡ (elim (find_order db j) [
        | some r ↦ some r
        | none ↦
            if draws.order_id == j
            then some (pending_order now draws.order_id account_id identifiers)
            else none
      ])
  unfolding insert_order
  order-insert j = get-append (λ o. o.id) j db.orders _

  pub order-insert_self :
      find_order db draws.order_id ≡ none
      → find_order (insert_order now draws account_id identifiers db) draws.order_id
        ≡ some (pending_order now draws.order_id account_id identifiers)
  order-insert_self h = order-insert draws.order_id ∙ (rw (h, eq_refl draws.order_id))

  pub order-insert_ne :
      (j : String)
      → j ≢ draws.order_id
      → find_order (insert_order now draws account_id identifiers db) j ≡ find_order db j
  order-insert_ne j h = ground (arith, order-insert j, eq_iff draws.order_id j)

  pub authzs-insert :
      order_authzs db draws.order_id ≡ []
      → order_authzs (insert_order now draws account_id identifiers db) draws.order_id
        ≡ new_authzs now draws 0 identifiers
  unfolding insert_order
  authzs-insert h =
      select-append (λ a. a.order_id == draws.order_id) db.authorizations
        (new_authzs now draws 0 identifiers)
      ∙ (rw h (select-new_authzs now draws 0 identifiers))

  pub authzs-insert_ne :
      (j : String)
      → j ≢ draws.order_id
      → order_authzs (insert_order now draws account_id identifiers db) j ≡ order_authzs db j
  unfolding insert_order
  authzs-insert_ne j h =
      select-append (λ a. a.order_id == j) db.authorizations (new_authzs now draws 0 identifiers)
      ∙ (ap (λ l. order_authzs db j ++ l) (select-new_authzs_ne now draws 0 identifiers j h)
          ∙ append-nil (order_authzs db j))
