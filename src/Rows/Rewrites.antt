-- ===== src/Rows/Rewrites.antt =====
-- Writes that keep the rows and their keys: each order and authorization found before is found
-- after, as a function of what it was.
use mathlib.Core.Option
use jackdaw.Db.{Db, Order, Authorization}
use jackdaw.Base.{Bool, Option, String, if◌then◌else◌, ◌≡◌, some, true, none, false, refl}
use jackdaw.Ownership.{find_order, find_authz}
use jackdaw.Base.Table.{update, get-update, Unique, Unique-update}

pub record Rewrites (db db' : Db) (F : Order → Order) (G : Authorization → Authorization)
    : Type 0 where
  pub order_id : (o : Order) → (F o).id ≡ o.id
  pub owner : (a : Authorization) → (G a).order_id ≡ a.order_id
  pub orders : (j : String) → find_order db' j ≡ Option.map F (find_order db j)
  pub authzs : (z : String) → find_authz db' z ≡ Option.map G (find_authz db z)
  pub unique : Unique (λ o. o.id) db.orders → Unique (λ o. o.id) db'.orders

abbrev pub apply_if {ℓ} : {R : Type ℓ} → (R → Bool) → (R → R) → R → R
apply_if p f r = if p r then f r else r

pub map-same {ℓ} : {R : Type ℓ} (o : Option R) → o ≡ Option.map (λ r. r) o
map-same none = refl
map-same (some r) = refl

keeps {ℓ} :
    {R : Type ℓ} (key : R → String) (p : R → Bool) (f : R → R)
    → ((r : R) → key (f r) ≡ key r)
    → (r : R) → key (apply_if p f r) ≡ key r
keeps key p f h r = at (p r)
  where
    at : (b : Bool) → key (if b then f r else r) ≡ key r
    at true = h r
    at false = refl

module _ (p : Order → Bool) (f : Order → Order) (q : Authorization → Bool)
    (g : Authorization → Authorization) (f_id : (o : Order) → (f o).id ≡ o.id)
    (g_id : (a : Authorization) → (g a).id ≡ a.id)
    (g_owner : (a : Authorization) → (g a).order_id ≡ a.order_id) (db db' : Db) where
  -- Both tables are updated.
  pub Rewrites-update :
      db'.orders ≡ update p f db.orders
      → db'.authorizations ≡ update q g db.authorizations
      → Rewrites db db' (apply_if p f) (apply_if q g)
  Rewrites-update o a = record {
    order_id = keeps (λ r. r.id) p f f_id;
    owner = keeps (λ r. r.order_id) q g g_owner;
    orders = λ j. rw o (get-update (λ r. r.id) p f f_id j db.orders);
    authzs = λ z. rw a (get-update (λ r. r.id) q g g_id z db.authorizations);
    unique = λ u. rw o (Unique-update (λ r. r.id) p f f_id db.orders u);
  }

-- Only the orders are updated.
pub Rewrites-orders :
    (p : Order → Bool) (f : Order → Order)
    → ((o : Order) → (f o).id ≡ o.id)
    → (db db' : Db) → db'.orders ≡ update p f db.orders
    → db'.authorizations ≡ db.authorizations
    → Rewrites db db' (apply_if p f) (λ a. a)
Rewrites-orders p f f_id db db' o a = record {
  order_id = keeps (λ r. r.id) p f f_id;
  owner = λ r. refl;
  orders = λ j. rw o (get-update (λ r. r.id) p f f_id j db.orders);
  authzs = λ z. rw a (map-same (find_authz db z));
  unique = λ u. rw o (Unique-update (λ r. r.id) p f f_id db.orders u);
}

-- Neither is.
pub Rewrites-same :
    (db db' : Db)
    → db'.orders ≡ db.orders
    → db'.authorizations ≡ db.authorizations
    → Rewrites db db' (λ o. o) (λ a. a)
Rewrites-same db db' o a = record {
  order_id = λ r. refl;
  owner = λ r. refl;
  orders = λ j. rw o (map-same (find_order db j));
  authzs = λ z. rw a (map-same (find_authz db z));
  unique = λ u. rw o u;
}
