-- ===== src/System/Outcomes.antt =====
-- The ends of the two background tasks and a new order, as functions of the rows.
use jackdaw.Rows.{
  set_authz_status, set_order_status, authz_has_id, has_id, authz_with_status, with_status,
}
use jackdaw.Base.{
  String, List, ◌≡◌, all, true, arith, ◌==◌, some, eq_iff, refl, ◌∷◌, [], ℕ, none, ◌≢◌, inl, All,
  ◌⊎◌, suc, Option, inr,
}
use jackdaw.Base.Table.{
  select, get, key-get, get-update, get-append_list, Unique, Unique-append, All-get,
}
use jackdaw.Worker.{all_valid, Issued, finish_order, failed, chain, complete_order}
use jackdaw.Db.{Db, Status, valid, Authorization, is_valid, ready, Order, invalid, Identifier}
use jackdaw.Rows.Rewrites.{Rewrites, apply_if, map-same, Rewrites-orders}
use jackdaw.System.Invariant.{IsProven, IsProven-Rewrites, Linked}
use jackdaw.Ownership.{find_order, find_authz}
use jackdaw.CertStore.{X509}
use jackdaw.Orders.{Draws, insert_order, new_authzs}
use jackdaw.Tasks.{Task, challenge, finalize}
use jackdaw.Orders.Creation.{order-insert}

pub valid-Rewrites :
    (z : String) (db : Db)
    → Rewrites db
        (set_authz_status z valid db)
        (λ o. o)
        (apply_if (authz_has_id z) (authz_with_status valid))
unfolding set_authz_status
valid-Rewrites z db = record {
  order_id = λ o. refl;
  owner = λ a. ground arith;
  orders = λ j. ground (arith, map-same (find_order db j));
  authzs = λ y.
      get-update (λ r. r.id) (authz_has_id z) (authz_with_status valid) (λ r. refl) y
        db.authorizations;
  unique = λ u. u;
}

pub valid-IsProven : (z : String) (db : Db) → IsProven db → IsProven (set_authz_status z valid db)
valid-IsProven z db proven =
    IsProven-Rewrites (valid-Rewrites z db) proven
      λ k y o a fo fa owned before isready. ground arith

-- An authorization that a key finds is among those of its order.
all_valid-get :
    (j z : String) (rows : List Authorization) (a : Authorization)
    → all (λ x. is_valid x.status) (select (λ x. x.order_id == j) rows) ≡ true
    → get (λ x. x.id) z rows ≡ some a
    → a.order_id ≡ j
    → a.status ≡ valid
unfolding select get
all_valid-get j z [] a h found owned = absurd (cc)
all_valid-get j z (b ∷ bs) a h found owned =
    ground (arith, eq_iff b.order_id j, all_valid-get j z bs a)

pub ready-Rewrites :
    (j : String) (s : Status) (db : Db)
    → Rewrites db (set_order_status j s db) (apply_if (has_id j) (with_status s)) (λ a. a)
unfolding set_order_status
ready-Rewrites j s db =
    Rewrites-orders (has_id j) (with_status s) (λ o. refl) db (set_order_status j s db) refl refl

pub ready-IsProven :
    (j : String) (db : Db)
    → all_valid j db ≡ true
    → IsProven db
    → IsProven (set_order_status j ready db)
ready-IsProven j db all_ok proven =
    IsProven-Rewrites (ready-Rewrites j ready db) proven λ k y o a fo fa owned before isready.
      ground (
        arith,
        key-get (λ r. r.id) k db.orders fo,
        eq_iff o.id j,
        all_valid-get j y db.authorizations a all_ok fa,
      )

abbrev pub concluded : String → Issued → Order → Order
concluded cert_id (failed p) o = record o { status = invalid; error = some p }
concluded cert_id (chain pem) o = complete_order cert_id o

-- The end of an issuance rewrites the order.
pub finish_order-Rewrites :
    (x : X509) (now : ℕ) (cert_id j : String) (result : Issued) (db : Db)
    → Rewrites db
        (finish_order x now cert_id j result db)
        (apply_if (has_id j) (concluded cert_id result))
        (λ a. a)
unfolding finish_order
finish_order-Rewrites x now cert_id j (failed p) db =
    Rewrites-orders (has_id j) (concluded cert_id (failed p)) (λ o. refl) db
      (finish_order x now cert_id j (failed p) db) refl refl
finish_order-Rewrites x now cert_id j (chain pem) db =
    Rewrites-orders (has_id j) (concluded cert_id (chain pem)) (λ o. refl) db
      (finish_order x now cert_id j (chain pem) db) refl refl

pub finish_order-not_ready :
    (cert_id : String) (result : Issued) (o : Order) → (concluded cert_id result o).status ≢ ready
finish_order-not_ready cert_id (failed p) o h = cc
finish_order-not_ready cert_id (chain pem) o h = cc

pub finish_order-IsProven :
    (x : X509) (now : ℕ) (cert_id j : String) (result : Issued) (db : Db)
    → IsProven db
    → IsProven (finish_order x now cert_id j result db)
finish_order-IsProven x now cert_id j result db proven =
    IsProven-Rewrites (finish_order-Rewrites x now cert_id j result db) proven
      λ k y o a fo fa owned before isready. ground (arith, finish_order-not_ready cert_id result o)

-- The rows of a new order leave what is found alone.
module _ (now : ℕ) (draws : Draws) (account_id : String) (identifiers : List Identifier) (db : Db)
    (fresh : find_order db draws.order_id ≡ none) where
  abbrev inserted : Db
  inserted = insert_order now draws account_id identifiers db

  new_authzs-owner :
      (i : ℕ) (idents : List Identifier)
      → All (λ a. a.order_id ≡ draws.order_id) (new_authzs now draws i idents)
  unfolding new_authzs
  new_authzs-owner i [] = tt
  new_authzs-owner i (ident ∷ rest) = (refl, new_authzs-owner (suc i) rest)

  authz-inserted :
      (z : String)
      → find_authz inserted z ≡ (elim (find_authz db z) [
        | some a ↦ some a
        | none ↦ get (λ a. a.id) z (new_authzs now draws 0 identifiers)
      ])
  unfolding insert_order
  authz-inserted z =
      get-append_list (λ a. a.id) z db.authorizations (new_authzs now draws 0 identifiers)

  pub authz-inserted_old :
      (z : String) (a : Authorization)
      → find_authz inserted z ≡ some a
      → (find_authz db z ≡ some a) ⊎ (a.order_id ≡ draws.order_id)
  authz-inserted_old z a h = at (find_authz db z) refl
    where
      at :
          (o : Option Authorization)
          → find_authz db z ≡ o
          → (o ≡ some a) ⊎ (a.order_id ≡ draws.order_id)
      at (some b) e = inl (ground (arith, authz-inserted z))
      at none e = inr (
          All-get (λ x. x.id) (λ x. x.order_id ≡ draws.order_id) z
            (new_authzs now draws 0 identifiers) {r = a} (new_authzs-owner 0 identifiers)
            (ground (arith, authz-inserted z)))

  pub insert-IsProven : IsProven db → IsProven inserted
  insert-IsProven proven = record {
    at = λ j z o a fo fa owned isready. elim (authz-inserted_old z a fa) [
      | inl old ↦ ground (
        arith,
        order-insert now draws account_id identifiers db j,
        eq_iff draws.order_id j,
        proven.at j z o a,
      )
      | inr new ↦
          ground
            (arith, order-insert now draws account_id identifiers db j, eq_iff draws.order_id j)
    ];
  }

  pub insert-Unique : Unique (λ o. o.id) db.orders → Unique (λ o. o.id) inserted.orders
  unfolding insert_order
  insert-Unique u = Unique-append (λ o. o.id) db.orders _ u fresh

  pub insert-Linked : (ts : List Task) → All (Linked db) ts → All (Linked inserted) ts
  insert-Linked [] h = tt
  insert-Linked (challenge z j ∷ ts) h = (at (find_authz db z) refl, insert-Linked ts h.1)
    where
      at : (o : Option Authorization) → find_authz db z ≡ o → Linked inserted (challenge z j)
      at (some a) e = rw (authz-inserted z, e) (ground (arith, h.0))
      at none e = absurd (ground (arith, h.0))
  insert-Linked (finalize j d c ∷ ts) h = (tt, insert-Linked ts h.1)
