-- ===== src/System/Ready.antt =====
-- Challenge runs keep the invariant.
use jackdaw.System.{step, System, begun, remove_first, validated, is_challenge, after_begin}
use jackdaw.Worker.{record_outcome, ready_if_all_valid, begin_challenge, all_valid}
use jackdaw.Base.{String, Option, none, Bool, any, ◌≡◌, if◌then◌else◌, false, true, refl}
use jackdaw.System.Invariant.{Inv, All-remove_first, Linked}
use jackdaw.Db.{Problem, valid, ready}
use jackdaw.System.Steps.{validated_cases, begin_challenge_cases}
use jackdaw.Rows.{set_authz_status, set_order_status}
use jackdaw.System.Proof.{removed-Inv, failed-Inv, Rewrites-Inv}
use jackdaw.System.Outcomes.{valid-Rewrites, valid-IsProven, ready-Rewrites, ready-IsProven}

pub begun-Inv :
    (s : System) (k : String → String → Option String) (z j : String)
    → Inv s
    → Inv (step s (begun k z j))
unfolding step
begun-Inv s k z j inv = at (any (is_challenge z j) s.tasks) refl
  where
    at :
        (b : Bool)
        → any (is_challenge z j) s.tasks ≡ b
        → Inv (if b then after_begin s z j (begin_challenge k z j s.db) else s)
    at false e = inv
    at true e =
        begin_challenge_cases (λ b. Inv (after_begin s z j b)) k z j s.db
          (removed-Inv s (is_challenge z j) inv) (λ p. failed-Inv s z j p e inv) (λ v. inv)

-- Both writes of a validation that held.
succeeded-Inv :
    (s : System) (z j : String)
    → Inv s
    → Inv (record {
      db = record_outcome z j none s.db;
      tasks = remove_first (is_challenge z j) s.tasks;
    })
unfolding record_outcome ready_if_all_valid
succeeded-Inv s z j inv = at (all_valid j s1.db) refl
  where
    s1 : System
    s1 = record {
      db = set_authz_status z valid s.db;
      tasks = remove_first (is_challenge z j) s.tasks;
    }

    inv1 : Inv s1
    inv1 =
        Rewrites-Inv s s1 (valid-Rewrites z s.db)
          (All-remove_first (Linked s1.db) (is_challenge z j) s.tasks)
          (valid-IsProven z s.db inv.proven) inv

    at :
        (b : Bool)
        → all_valid j s1.db ≡ b
        → Inv (record s1 { db = if b then set_order_status j ready s1.db else s1.db })
    at true e =
        Rewrites-Inv s1 (record s1 { db = set_order_status j ready s1.db })
          (ready-Rewrites j ready s1.db) (λ h. h) (ready-IsProven j s1.db e inv1.proven) inv1
    at false e = inv1

pub validated-Inv :
    (s : System) (z j : String) (outcome : Option Problem)
    → Inv s
    → Inv (step s (validated z j outcome))
validated-Inv s z j outcome inv =
    validated_cases Inv s z j outcome inv (removed-Inv s (is_challenge z j) inv)
      (λ e. succeeded-Inv s z j inv) (λ e p. failed-Inv s z j p e inv)
