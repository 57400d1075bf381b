-- ===== src/System/Once.antt =====
-- An order that was claimed is not claimed again.
use jackdaw.System.{
  step, run, System, Event, IsFresh, AllFresh, ordered, claimed, acknowledged, begun, validated,
  issued, other, restarted, start_claimed,
}
use jackdaw.Orders.Finalize.{claim_order, claimable, not_ready_error, current_status}
use jackdaw.Base.{
  String, List, ◌≡◌, any, false, ◌∷◌, All, some, ◌≢◌, [], arith, true, eq_iff, Bool, if◌then◌else◌,
  eqb, refl,
}
use jackdaw.Db.{Db, Order, processing}
use jackdaw.Base.Table.{Unique, update, count-get, count}
use jackdaw.Tasks.{Task, finalize}
use jackdaw.Jws.Keys.{Bytes}
use jackdaw.System.Invariant.{Inv}
use jackdaw.System.Sealed.{Sealed, is_for, Quiet, claim-Sealed}
use jackdaw.Result.{ok, Result}
use jackdaw.System.Requests.{ordered-Sealed, acknowledged-Sealed}
use jackdaw.System.Safety.{step-Inv}
use jackdaw.Ownership.{find_order}
use jackdaw.Rows.{with_status}
use jackdaw.System.Runs.{
  begun-Sealed, validated-Sealed, claimed-Sealed, issued-Sealed, restarted-Sealed,
}
use jackdaw.System.Writes.{claim-Rewrites}
use jackdaw.Exec.{raise, pure}

step-Sealed :
    (j : String) (s : System) (e : Event) → IsFresh s e → Inv s → Sealed j s → Sealed j (step s e)
unfolding step
step-Sealed j s (ordered env draws account_id identifiers) fresh inv sealed =
    ordered-Sealed j s env draws account_id identifiers fresh sealed
step-Sealed j s (acknowledged settings z account_id) fresh inv sealed =
    acknowledged-Sealed j s settings z account_id sealed
step-Sealed j s (begun k z i) fresh inv sealed = begun-Sealed j s k z i inv sealed
step-Sealed j s (validated z i outcome) fresh inv sealed =
    validated-Sealed j s z i outcome inv sealed
step-Sealed j s (claimed i domain csr_der) fresh inv sealed =
    claimed-Sealed j s i domain csr_der sealed
step-Sealed j s (issued x now cert_id i result) fresh inv sealed =
    issued-Sealed j s x now cert_id i result sealed
step-Sealed j s restarted fresh inv sealed = restarted-Sealed j s sealed
step-Sealed j s (other accounts nonces) fresh inv sealed = record {
  there = sealed.there;
  settled = sealed.settled;
  quiet = sealed.quiet;
}

run-Sealed :
    (j : String) (es : List Event) (s : System)
    → AllFresh s es
    → Inv s
    → Sealed j s
    → Inv (run s es) × Sealed j (run s es)
unfolding run
run-Sealed j [] s fresh inv sealed = (inv, sealed)
run-Sealed j (e ∷ es) s fresh inv sealed =
    run-Sealed j es (step s e) fresh.1 (step-Inv s e fresh.0 inv)
      (step-Sealed j s e fresh.0 inv sealed)

-- A claim wins only for an order that is ready.
claim-found :
    (j : String) (db : Db)
    → Unique (λ o. o.id) db.orders
    → (claim_order j db).0 ≡ ok tt
    → (o : Order) × (find_order db j ≡ some o) × (claimable j o ≡ true)
unfolding claim_order
claim-found j db u h =
    count-get (λ r. r.id) (claimable j) j (λ r k. ground (arith, eq_iff r.id j)) db.orders u
      (λ z. ground arith)

Quiet-none : (j : String) (ts : List Task) → any (is_for j) ts ≡ false → All (Quiet j) ts
Quiet-none j [] h = tt
Quiet-none j (t ∷ ts) h = (ground arith, Quiet-none j ts (ground arith))

claim-seals :
    (s : System) (j domain : String) (csr_der : Bytes)
    → Inv s
    → any (is_for j) s.tasks ≡ false
    → (claim_order j s.db).0 ≡ ok tt
    → Sealed j (step s (claimed j domain csr_der))
unfolding step claim_order
claim-seals s j domain csr_der inv quiet wins =
    let (o, found, ready_now) = claim-found j s.db inv.unique wins in
    at (eqb (count (claimable j) s.db.orders) 0) wins (sealed o found ready_now)
  where
    t : Task
    t = finalize j domain csr_der

    won : Db
    won = record s.db { orders = update (claimable j) (with_status processing) s.db.orders }

    sealed :
        (o : Order)
        → find_order s.db j ≡ some o
        → claimable j o ≡ true
        → Sealed j (record { db = won; tasks = t ∷ s.tasks })
    sealed o found ready_now = record {
      there = rw ((claim-Rewrites j s.db).orders j, found, ready_now) refl;
      settled = λ z a fa owned. inv.proven.at j z o a found fa owned (ground arith);
      quiet = (refl, Quiet-none j s.tasks quiet);
    }

    outcome : Bool → Result (Unit {0}) × Db
    outcome b =
        if b then raise (not_ready_error (current_status (find_order s.db j))) s.db else pure tt won

    at :
        (b : Bool)
        → (outcome b).0 ≡ ok tt
        → Sealed j (record { db = won; tasks = t ∷ s.tasks })
        → Sealed j (start_claimed s t (outcome b))
    at true h k = absurd (cc)
    at false h k = k

-- In a state with the invariant, a finalize request wins its claim while no challenge run of the order
-- is in flight. Then the next claim of that order is refused after any events, as long as the
-- new orders among them draw ids that are not taken. A request that acknowledges a challenge is one
-- event: nothing else runs between its look-ups and its commit.
pub claimed_once :
    (s : System) (es : List Event) (j domain : String) (csr_der : Bytes)
    → Inv s
    → any (is_for j) s.tasks ≡ false
    → (claim_order j s.db).0 ≡ ok tt
    → AllFresh s (claimed j domain csr_der ∷ es)
    → (claim_order j (run s (claimed j domain csr_der ∷ es)).db).0 ≢ ok tt
unfolding run
claimed_once s es j domain csr_der inv quiet wins fresh =
    let s' = step s (claimed j domain csr_der) in
    let (inv', sealed) =
      run-Sealed j es s' fresh.1 (step-Inv s (claimed j domain csr_der) tt inv)
        (claim-seals s j domain csr_der inv quiet wins) in
    claim-Sealed j (run s' es) sealed inv'.unique
