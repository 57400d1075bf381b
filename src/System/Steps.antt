-- ===== src/System/Steps.antt =====
-- The events in cases: what each may do to the state.
use jackdaw.Worker.{
  Begun, ended, fail_challenge, Validation, validating, begin_challenge, begin_with, problem,
  record_outcome, finish_challenge, finish_finalize, Issued, finish_order,
}
use jackdaw.System.{
  step, System, is_challenge, validated, remove_first, is_finalize, issued, claimed, start_claimed,
}
use jackdaw.Base.{
  String, Option, Bool, any, ◌≡◌, if◌then◌else◌, none, some, false, true, refl, List, ℕ, ◌∷◌, eqb,
}
use jackdaw.Db.{Db, Problem, Authorization, Order, Account, processing}
use jackdaw.Ownership.{find_authz, find_order, find_account}
use jackdaw.Base.Table.{key-get, update, count}
use jackdaw.AcmeErrors.{server_internal}
use jackdaw.Tasks.{Task, finalize}
use jackdaw.Rows.{with_status}
use jackdaw.Orders.Finalize.{claim_order, claimable, not_ready_error, current_status}
use jackdaw.Jws.Keys.{Bytes}
use jackdaw.CertStore.{X509}
use jackdaw.Result.{ok, Result}
use jackdaw.Exec.{raise, pure}

module _ (P : Begun → Type 0) (k : String → String → Option String) (z j : String) (db : Db)
    (same : P (ended db)) (fails : (p : Problem) → P (ended (fail_challenge z j p db)))
    (goes_on : (v : Validation) → P (validating v)) where
  begin_with_cases :
      (authz : Authorization) (order : Order)
      → authz.id ≡ z
      → order.id ≡ j
      → P (begin_with k db authz order)
  begin_with_cases authz order p q =
      at_token authz.challenge_token (find_account db order.account_id)
    where
      fails_here : (e : Problem) → P (ended (fail_challenge authz.id order.id e db))
      fails_here e = rw (p, q) (fails e)

      at_key :
          (token : String) (o : Option String)
          → P (elim o [
            | none ↦ ended db
            | some expected ↦
                validating
                  (record { domain = authz.identifier; token = token; expected = expected })
          ])
      at_key token none = same
      at_key token (some expected) = goes_on _

      at_token :
          (t : Option String) (a : Option Account)
          → P (elim t [
            | none ↦ ended (
                fail_challenge authz.id order.id
                  (problem server_internal "Authorization has no challenge token")
                  db)
            | some token ↦ elim a [
              | none ↦ ended (
                  fail_challenge authz.id order.id
                    (problem server_internal "Account for this authorization no longer exists")
                    db)
              | some account ↦ elim (k token account.public_key) [
                | none ↦ ended db
                | some expected ↦
                    validating
                      (record { domain = authz.identifier; token = token; expected = expected })
              ]
            ]
          ])
      at_token none a = fails_here _
      at_token (some token) none = fails_here _
      at_token (some token) (some account) = at_key token (k token account.public_key)

  -- What begins a challenge run, in cases.
  pub begin_challenge_cases : P (begin_challenge k z j db)
  unfolding begin_challenge
  begin_challenge_cases = at (find_authz db z) (find_order db j) refl refl
    where
      at :
          (a : Option Authorization) (o : Option Order)
          → find_authz db z ≡ a
          → find_order db j ≡ o
          → P (elim a [
            | none ↦ ended db
            | some authz ↦ elim o [ none ↦ ended db | some order ↦ begin_with k db authz order ]
          ])
      at none o p q = same
      at (some authz) none p q = same
      at (some authz) (some order) p q =
          begin_with_cases authz order (key-get (λ r. r.id) z db.authorizations p)
            (key-get (λ r. r.id) j db.orders q)

pub validated_cases :
    (P : System → Type 0) (s : System) (z j : String) (outcome : Option Problem)
    → P s
    → P (record s { tasks = remove_first (is_challenge z j) s.tasks })
    → (any (is_challenge z j) s.tasks ≡ true
        → P (record {
          db = record_outcome z j none s.db;
          tasks = remove_first (is_challenge z j) s.tasks;
        }))
    → (any (is_challenge z j) s.tasks ≡ true
        → (p : Problem)
        → P (record {
          db = fail_challenge z j p s.db;
          tasks = remove_first (is_challenge z j) s.tasks;
        }))
    → P (step s (validated z j outcome))
unfolding step finish_challenge record_outcome
validated_cases P s z j outcome same removed holds fails =
    at (any (is_challenge z j) s.tasks) refl (find_authz s.db z) (find_order s.db j)
  where
    rest : List Task
    rest = remove_first (is_challenge z j) s.tasks

    concludes :
        (r : Option Problem)
        → any (is_challenge z j) s.tasks ≡ true
        → P (record { db = record_outcome z j r s.db; tasks = rest })
    concludes none e = holds e
    concludes (some p) e = fails e p

    at :
        (b : Bool)
        → any (is_challenge z j) s.tasks ≡ b
        → (a : Option Authorization) (o : Option Order)
        → P (
            if b
            then record {
              db = elim a [
                | none ↦ s.db
                | some authz ↦ elim o [ none ↦ s.db | some order ↦ record_outcome z j outcome s.db ]
              ];
              tasks = rest;
            }
            else s)
    at false e a o = same
    at true e none o = removed
    at true e (some authz) none = removed
    at true e (some authz) (some order) = concludes outcome e

pub claimed_cases :
    (P : System → Type 0) (s : System) (j domain : String) (csr_der : Bytes)
    → P s
    → ((claim_order j s.db).0 ≡ ok tt
        → P (record {
          db = record s.db { orders = update (claimable j) (with_status processing) s.db.orders };
          tasks = finalize j domain csr_der ∷ s.tasks;
        }))
    → P (step s (claimed j domain csr_der))
unfolding step claim_order
claimed_cases P s j domain csr_der same wins = at (eqb (count (claimable j) s.db.orders) 0) wins
  where
    won : Db
    won = record s.db { orders = update (claimable j) (with_status processing) s.db.orders }

    outcome : Bool → Result (Unit {0}) × Db
    outcome b =
        if b then raise (not_ready_error (current_status (find_order s.db j))) s.db else pure tt won

    at :
        (b : Bool)
        → ((outcome b).0 ≡ ok tt
            → P (record { db = won; tasks = finalize j domain csr_der ∷ s.tasks }))
        → P (start_claimed s (finalize j domain csr_der) (outcome b))
    at true k = same
    at false k = k refl

pub issued_cases :
    (P : System → Type 0) (s : System) (x : X509) (now : ℕ) (cert_id j : String) (result : Issued)
    → P s
    → P (record s { tasks = remove_first (is_finalize j) s.tasks })
    → P (record {
      db = finish_order x now cert_id j result s.db;
      tasks = remove_first (is_finalize j) s.tasks;
    })
    → P (step s (issued x now cert_id j result))
unfolding step finish_finalize
issued_cases P s x now cert_id j result same removed ends =
    at (any (is_finalize j) s.tasks) (find_order s.db j)
  where
    at :
        (b : Bool) (o : Option Order)
        → P (
            if b
            then record {
              db = elim o [ none ↦ s.db | some order ↦ finish_order x now cert_id j result s.db ];
              tasks = remove_first (is_finalize j) s.tasks;
            }
            else s)
    at false o = same
    at true none = removed
    at true (some order) = ends
