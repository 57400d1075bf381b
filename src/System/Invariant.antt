-- ===== src/System/Invariant.antt =====
-- The invariant of the relay, and the writes that keep it.
use mathlib.Core.Option
use jackdaw.Db.{Db, Order, Authorization, ready, valid}
use jackdaw.System.{System, remove_first, is_challenge}
use jackdaw.Tasks.{Task, challenge, finalize}
use jackdaw.Base.{
  String, All, Bool, List, any, ◌∷◌, ◌≡◌, Option, arith, [], some, true, ap, eq_iff, ◌∙◌,
  some-injective, none, refl,
}
use jackdaw.Base.Table.{Unique}
use jackdaw.Ownership.{find_authz, find_order}
use jackdaw.Rows.Rewrites.{Rewrites}

-- A challenge task names an authorization that exists, and the order that owns it.
abbrev pub Linked : Db → Task → Type 0
Linked db (challenge z j) = Option.map (λ a. a.order_id) (find_authz db z) ≡ some j
Linked db (finalize j domain csr_der) = Unit {0}

-- Every authorization of a ready order is valid.
pub record IsProven (db : Db) : Type 0 where
  pub at :
      (j z : String) (o : Order) (a : Authorization)
      → find_order db j ≡ some o
      → find_authz db z ≡ some a
      → a.order_id ≡ j
      → o.status ≡ ready
      → a.status ≡ valid

pub record Inv (s : System) : Type 0 where
  pub linked : All (Linked s.db) s.tasks
  pub proven : IsProven s.db
  pub unique : Unique (λ o. o.id) s.db.orders

module _ {db db' : Db} {F : Order → Order} {G : Authorization → Authorization}
    (w : Rewrites db db' F G) where
  pub Linked-Rewrites : (t : Task) → Linked db t → Linked db' t
  Linked-Rewrites (challenge z j) h = at (find_authz db z) refl
    where
      at : (o : Option Authorization) → find_authz db z ≡ o → Linked db' (challenge z j)
      at none e = absurd (ground (arith, h))
      at (some a) e =
          rw (w.authzs z, e) (ap some (w.owner a ∙ some-injective a.order_id j (ground (arith, h))))
  Linked-Rewrites (finalize j domain csr_der) h = tt

  pub All-Linked-Rewrites : (ts : List Task) → All (Linked db) ts → All (Linked db') ts
  All-Linked-Rewrites [] h = tt
  All-Linked-Rewrites (t ∷ ts) h = (Linked-Rewrites t h.0, All-Linked-Rewrites ts h.1)

  -- It is enough to look at an order and one of its authorizations.
  pub IsProven-Rewrites :
      IsProven db
      → ((j z : String) (o : Order) (a : Authorization)
          → find_order db j ≡ some o
          → find_authz db z ≡ some a
          → a.order_id ≡ j
          → (o.status ≡ ready → a.status ≡ valid)
          → (F o).status ≡ ready
          → (G a).status ≡ valid)
      → IsProven db'
  IsProven-Rewrites proven rows = record {
    at = λ j z o' a' fo fa owned isready.
        from j z o' a' (find_order db j) (find_authz db z) refl refl fo fa owned isready;
  }
    where
      from :
          (j z : String) (o' : Order) (a' : Authorization) (fo : Option Order)
          (fa : Option Authorization)
          → find_order db j ≡ fo
          → find_authz db z ≡ fa
          → find_order db' j ≡ some o'
          → find_authz db' z ≡ some a'
          → a'.order_id ≡ j
          → o'.status ≡ ready
          → a'.status ≡ valid
      from j z o' a' none fa p q r s owned isready = absurd (ground (arith, w.orders j))
      from j z o' a' (some o) none p q r s owned isready = absurd (ground (arith, w.authzs z))
      from j z o' a' (some o) (some a) p q r s owned isready =
          ground (arith, w.orders j, w.authzs z, w.owner a, rows j z o a, proven.at j z o a)

-- Taking a task out keeps the links.
pub All-remove_first :
    (P : Task → Type 0) (p : Task → Bool) (ts : List Task) → All P ts → All P (remove_first p ts)
unfolding remove_first
All-remove_first P p [] h = tt
All-remove_first P p (t ∷ ts) h = ground (arith, All-remove_first P p ts h.1)

-- A task that fits is there, with its link.
pub Linked-any :
    (db : Db) (z j : String) (ts : List Task)
    → any (is_challenge z j) ts ≡ true
    → All (Linked db) ts
    → Option.map (λ a. a.order_id) (find_authz db z) ≡ some j
Linked-any db z j [] h k = absurd (cc)
Linked-any db z j (challenge z' j' ∷ ts) h k =
    ground (arith, eq_iff z' z, eq_iff j' j, Linked-any db z j ts)
Linked-any db z j (finalize j' d c ∷ ts) h k = Linked-any db z j ts h k.1
