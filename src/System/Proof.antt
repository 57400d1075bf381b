-- ===== src/System/Proof.antt =====
-- Every event keeps the invariant.
use mathlib.Core.Option
use jackdaw.Db.{Order, Authorization, Identifier, Db, Problem}
use jackdaw.System.{step, System, acknowledged, IsFresh, ordered, is_challenge, remove_first, start}
use jackdaw.Rows.Rewrites.{Rewrites}
use jackdaw.Jws.Keys.{Env}
use jackdaw.Config.{Settings}
use jackdaw.Base.{
  All, String, List, inl, inr, subst, sym, ap, ◌≢◌, ◌≡◌, any, Bool, true, ◌∷◌, refl, some,
}
use jackdaw.Orders.{Draws}
use jackdaw.System.Invariant.{
  Linked, Inv, IsProven, All-Linked-Rewrites, All-remove_first, Linked-any,
}
use jackdaw.Challenge.Cases.{acknowledge_cases}
use jackdaw.Orders.Creation.{create_order_cases}
use jackdaw.System.Outcomes.{insert-Linked, insert-IsProven, insert-Unique}
use jackdaw.Result.{Result, ok, raised, uncaught}
use jackdaw.Ownership.{require_authz_owner, find_authz}
use jackdaw.Challenge.{acknowledge}
use jackdaw.Tasks.{Task, challenge}
use jackdaw.Ownership.Exact.{require_authz_owner_iff}
use jackdaw.Base.Table.{key-get}
use jackdaw.Worker.{fail_challenge}
use jackdaw.System.Writes.{
  start_challenge_cases, fail_challenge-Rewrites, started, fail_challenge-IsProven,
  started-Rewrites, started-IsProven,
}

-- A rewriting of the rows that keeps `IsProven` keeps the invariant, for the tasks that were there.
pub Rewrites-Inv :
    {F : Order → Order} {G : Authorization → Authorization} (s t : System)
    → Rewrites s.db t.db F G
    → (All (Linked t.db) s.tasks → All (Linked t.db) t.tasks)
    → IsProven t.db
    → Inv s
    → Inv t
Rewrites-Inv s t w tasks proven inv = record {
  linked = tasks (All-Linked-Rewrites w s.tasks inv.linked);
  proven = proven;
  unique = w.unique inv.unique;
}

pub ordered-Inv :
    (s : System) (env : Env) (draws : Draws) (account_id : String) (identifiers : List Identifier)
    → IsFresh s (ordered env draws account_id identifiers)
    → Inv s
    → Inv (step s (ordered env draws account_id identifiers))
unfolding step
ordered-Inv s env draws account_id identifiers fresh inv =
    elim (create_order_cases env draws account_id identifiers s.db) [
      | inl (refused, same) ↦ subst (λ d. Inv (record s { db = d })) (sym same) inv
      | inr (a, b, c, done) ↦
          subst (λ (d : Db). Inv (record s { db = d })) (sym (ap (λ r. r.1) done))
            (record {
              linked =
                  insert-Linked env.now draws account_id identifiers s.db fresh s.tasks inv.linked;
              proven = insert-IsProven env.now draws account_id identifiers s.db fresh inv.proven;
              unique = insert-Unique env.now draws account_id identifiers s.db fresh inv.unique;
            })
    ]

pub start-refused :
    {A : Type 0} (s : System) (m : Result (A × Task) × Db)
    → ((r : A × Task) → m.0 ≢ ok r)
    → m.1 ≡ s.db
    → start s m ≡ s
start-refused s (ok r, db) no_reply same = absurd (no_reply r refl)
start-refused s (raised e, db) no_reply same = ap (λ (d : Db). record s { db = d }) same
start-refused s (uncaught, db) no_reply same = ap (λ (d : Db). record s { db = d }) same

-- A challenge task that was started for an authorization of the account is linked to it.
with_task-Inv :
    (s : System) (authz_id account_id : String) (authz : Authorization)
    → require_authz_owner s.db authz_id account_id ≡ ok authz
    → Inv s
    → Inv (record s { tasks = challenge authz_id authz.order_id ∷ s.tasks })
with_task-Inv s authz_id account_id authz owner inv =
    let found = ((require_authz_owner_iff s.db authz_id account_id authz).0 owner).0 in
    record {
      linked = (ap (Option.map (λ a. a.order_id)) found, inv.linked);
      proven = inv.proven;
      unique = inv.unique;
    }

pub acknowledged-Inv :
    (s : System) (settings : Settings) (authz_id account_id : String)
    → Inv s
    → Inv (step s (acknowledged settings authz_id account_id))
unfolding step
acknowledged-Inv s settings authz_id account_id inv =
    elim (acknowledge_cases settings authz_id account_id s.db) [
      | inl (refused, same) ↦
          subst Inv
            (sym (start-refused s (acknowledge settings authz_id account_id s.db) refused same)) inv
      | inr (authz, reply, shown, owner, open_now, done) ↦
          let found = ((require_authz_owner_iff s.db authz_id account_id authz).0 owner).0 in
          let id_is = key-get (λ r. r.id) authz_id s.db.authorizations found in
          let s' : System = record s { tasks = challenge authz_id authz.order_id ∷ s.tasks } in
          let inv' = with_task-Inv s authz_id account_id authz owner inv in
          subst (λ m. Inv (start s m)) (sym done)
            (start_challenge_cases (λ d. Inv (record s' { db = d })) authz s.db
              (λ is_new.
                Rewrites-Inv s' (record s' { db = started authz s.db })
                  (started-Rewrites authz s.db) (λ h. h)
                  (started-IsProven authz s.db
                    (subst (λ z. find_authz s.db z ≡ some authz) (sym id_is) found) is_new
                    inv.proven)
                  inv')
              inv')
    ]

-- Taking the challenge task out, after a failure.
pub failed-Inv :
    (s : System) (z j : String) (p : Problem)
    → any (is_challenge z j) s.tasks ≡ true
    → Inv s
    → Inv
        (record { db = fail_challenge z j p s.db; tasks = remove_first (is_challenge z j) s.tasks })
failed-Inv s z j p there inv =
    Rewrites-Inv s _ (fail_challenge-Rewrites z j p s.db)
      (All-remove_first (Linked (fail_challenge z j p s.db)) (is_challenge z j) s.tasks)
      (fail_challenge-IsProven z j p s.db (Linked-any s.db z j s.tasks there inv.linked) inv.proven)
      inv

pub removed-Inv :
    (s : System) (p : Task → Bool) → Inv s → Inv (record s { tasks = remove_first p s.tasks })
removed-Inv s p inv = record {
  linked = All-remove_first (Linked s.db) p s.tasks inv.linked;
  proven = inv.proven;
  unique = inv.unique;
}
