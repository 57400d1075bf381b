-- ===== src/System/Runs.antt =====
-- The background tasks and the claims of other orders keep a claimed order as it is.
-- The task in flight is of another order.
use jackdaw.Base.{
  String, List, any, Option, Bool, ℕ, ◌≡◌, true, if◌then◌else◌, All, arith, [], ◌==◌, refl, false,
  eq_iff, none, ◌∷◌,
}
use jackdaw.System.{
  step, System, is_challenge, claimed, restarted, remove_first, begun, validated, issued,
  after_begin, is_finalize,
}
use jackdaw.Tasks.{Task, challenge, finalize}
use jackdaw.Jws.Keys.{Bytes}
use jackdaw.CertStore.{X509}
use jackdaw.System.Sealed.{Sealed, Rewrites-Sealed, Quiet}
use jackdaw.System.Invariant.{Inv, All-remove_first, Linked-any}
use jackdaw.Db.{Problem, valid, ready}
use jackdaw.System.Steps.{claimed_cases, validated_cases, issued_cases, begin_challenge_cases}
use jackdaw.Worker.{
  Issued, fail_challenge, record_outcome, ready_if_all_valid, begin_challenge, finish_order,
  all_valid,
}
use jackdaw.System.Writes.{claim-Rewrites, fail_challenge-Rewrites, reset-Rewrites}
use jackdaw.Startup.{reset_processing_orders}
use jackdaw.Base.Table.{key-get}
use jackdaw.Rows.{set_authz_status, set_order_status}
use jackdaw.System.Outcomes.{
  finish_order-Rewrites, finish_order-not_ready, valid-Rewrites, ready-Rewrites,
}

Quiet-any :
    (j z k : String) (ts : List Task)
    → any (is_challenge z k) ts ≡ true
    → All (Quiet j) ts
    → (k == j) ≡ false
Quiet-any j z k [] h q = absurd (cc)
Quiet-any j z k (challenge y i ∷ ts) h q = ground (arith, eq_iff i k, Quiet-any j z k ts)
Quiet-any j z k (finalize i d c ∷ ts) h q = Quiet-any j z k ts h q.1

removed-Sealed :
    (j : String) (s : System) (p : Task → Bool)
    → Sealed j s
    → Sealed j (record s { tasks = remove_first p s.tasks })
removed-Sealed j s p sealed = record {
  there = sealed.there;
  settled = sealed.settled;
  quiet = All-remove_first (Quiet j) p s.tasks sealed.quiet;
}

module _ (j : String) (s : System) (z k : String) (e : any (is_challenge z k) s.tasks ≡ true)
    (inv : Inv s) (sealed : Sealed j s) where
  abbrev rest : List Task
  rest = remove_first (is_challenge z k) s.tasks

  rest-Quiet : All (Quiet j) rest
  rest-Quiet = All-remove_first (Quiet j) (is_challenge z k) s.tasks sealed.quiet

  failed-Sealed : (p : Problem) → Sealed j (record { db = fail_challenge z k p s.db; tasks = rest })
  failed-Sealed p =
      Rewrites-Sealed j s _ (fail_challenge-Rewrites z k p s.db)
        (λ o i h. ground (arith, eq_iff o.id k, Quiet-any j z k s.tasks e sealed.quiet))
        (λ y a fa owned h. ground (
          arith,
          eq_iff a.id z,
          eq_iff k j,
          key-get (λ r. r.id) y s.db.authorizations fa,
          Quiet-any j z k s.tasks e sealed.quiet,
          Linked-any s.db z k s.tasks e inv.linked,
        ))
        rest-Quiet sealed

  succeeded-Sealed : Sealed j (record { db = record_outcome z k none s.db; tasks = rest })
  unfolding record_outcome ready_if_all_valid
  succeeded-Sealed = at (all_valid k s1.db)
    where
      s1 : System
      s1 = record { db = set_authz_status z valid s.db; tasks = rest }

      sealed1 : Sealed j s1
      sealed1 =
          Rewrites-Sealed j s s1 (valid-Rewrites z s.db) (λ o i h. h)
            (λ y a fa owned h. ground arith) rest-Quiet sealed

      at :
          (b : Bool)
          → Sealed j (record s1 { db = if b then set_order_status k ready s1.db else s1.db })
      at true =
          Rewrites-Sealed j s1 (record s1 { db = set_order_status k ready s1.db })
            (ready-Rewrites k ready s1.db)
            (λ o i h. ground (arith, eq_iff o.id k, Quiet-any j z k s.tasks e sealed.quiet))
            (λ y a fa owned h. h) rest-Quiet sealed1
      at false = sealed1

pub begun-Sealed :
    (j : String) (s : System) (k : String → String → Option String) (z i : String)
    → Inv s
    → Sealed j s
    → Sealed j (step s (begun k z i))
unfolding step
begun-Sealed j s k z i inv sealed = at (any (is_challenge z i) s.tasks) refl
  where
    at :
        (b : Bool)
        → any (is_challenge z i) s.tasks ≡ b
        → Sealed j (if b then after_begin s z i (begin_challenge k z i s.db) else s)
    at false e = sealed
    at true e =
        begin_challenge_cases (λ b. Sealed j (after_begin s z i b)) k z i s.db
          (removed-Sealed j s (is_challenge z i) sealed) (λ p. failed-Sealed j s z i e inv sealed p)
          (λ v. sealed)

pub validated-Sealed :
    (j : String) (s : System) (z k : String) (outcome : Option Problem)
    → Inv s
    → Sealed j s
    → Sealed j (step s (validated z k outcome))
unfolding step
validated-Sealed j s z k outcome inv sealed =
    validated_cases (Sealed j) s z k outcome sealed (removed-Sealed j s (is_challenge z k) sealed)
      (λ e. succeeded-Sealed j s z k e inv sealed) (λ e p. failed-Sealed j s z k e inv sealed p)

pub claimed-Sealed :
    (j : String) (s : System) (k domain : String) (csr_der : Bytes)
    → Sealed j s
    → Sealed j (step s (claimed k domain csr_der))
claimed-Sealed j s k domain csr_der sealed =
    claimed_cases (Sealed j) s k domain csr_der sealed (λ found.
      Rewrites-Sealed j s _ (claim-Rewrites k s.db) (λ o i h. ground arith) (λ y a fa owned h. h)
        (refl, sealed.quiet) sealed)

pub issued-Sealed :
    (j : String) (s : System) (x : X509) (now : ℕ) (cert_id k : String) (result : Issued)
    → Sealed j s
    → Sealed j (step s (issued x now cert_id k result))
issued-Sealed j s x now cert_id k result sealed =
    issued_cases (Sealed j) s x now cert_id k result sealed
      (removed-Sealed j s (is_finalize k) sealed)
      (Rewrites-Sealed j s
        (record {
          db = finish_order x now cert_id k result s.db;
          tasks = remove_first (is_finalize k) s.tasks;
        })
        (finish_order-Rewrites x now cert_id k result s.db)
        (λ o i h. ground (arith, finish_order-not_ready cert_id result o)) (λ y a fa owned h. h)
        (All-remove_first (Quiet j) (is_finalize k) s.tasks sealed.quiet) sealed)

pub restarted-Sealed : (j : String) (s : System) → Sealed j s → Sealed j (step s restarted)
unfolding step
restarted-Sealed j s sealed =
    Rewrites-Sealed j s (record { db = reset_processing_orders s.db; tasks = [] })
      (reset-Rewrites s.db) (λ o i h. ground arith) (λ y a fa owned h. ground arith) tt sealed
