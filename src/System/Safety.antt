-- ===== src/System/Safety.antt =====
-- No run of the relay makes an order ready before all of its authorizations are valid.
use jackdaw.System.{
  step, System, run, Event, restarted, IsFresh, AllFresh, ordered, claimed, other, issued,
  acknowledged, remove_first, is_finalize, begun, validated,
}
use jackdaw.Db.{Db, Account, Nonce, Order}
use jackdaw.Worker.{Issued, finish_order}
use jackdaw.System.Invariant.{Inv, All-remove_first, Linked}
use jackdaw.Base.{List, String, ℕ, ◌∷◌, [], ◌≡◌, refl, some, ◌≢◌, subst}
use jackdaw.CertStore.{X509}
use jackdaw.Jws.Keys.{Bytes}
use jackdaw.System.Proof.{Rewrites-Inv, ordered-Inv, acknowledged-Inv, removed-Inv}
use jackdaw.Startup.{reset_processing_orders}
use jackdaw.System.Writes.{reset-Rewrites, reset-IsProven, claim-Rewrites, claim-IsProven}
use jackdaw.Rows.Rewrites.{Rewrites-same}
use jackdaw.Base.Table.{get}
use jackdaw.System.Ready.{begun-Inv, validated-Inv}
use jackdaw.System.Outcomes.{finish_order-Rewrites, finish_order-IsProven}
use jackdaw.System.Steps.{claimed_cases, issued_cases}

claimed-Inv :
    (s : System) (j domain : String) (csr_der : Bytes)
    → Inv s
    → Inv (step s (claimed j domain csr_der))
claimed-Inv s j domain csr_der inv = claimed_cases Inv s j domain csr_der inv λ won.
    Rewrites-Inv s _ (claim-Rewrites j s.db) (λ h. (tt, h)) (claim-IsProven j s.db inv.proven) inv

issued-Inv :
    (s : System) (x : X509) (now : ℕ) (cert_id j : String) (result : Issued)
    → Inv s
    → Inv (step s (issued x now cert_id j result))
issued-Inv s x now cert_id j result inv =
    issued_cases Inv s x now cert_id j result inv (removed-Inv s (is_finalize j) inv) (
      Rewrites-Inv s
        (record {
          db = finish_order x now cert_id j result s.db;
          tasks = remove_first (is_finalize j) s.tasks;
        })
        (finish_order-Rewrites x now cert_id j result s.db)
        (All-remove_first (Linked (finish_order x now cert_id j result s.db)) (is_finalize j)
          s.tasks)
        (finish_order-IsProven x now cert_id j result s.db inv.proven) inv)

restarted-Inv : (s : System) → Inv s → Inv (step s restarted)
unfolding step
restarted-Inv s inv =
    Rewrites-Inv s (record { db = reset_processing_orders s.db; tasks = [] }) (reset-Rewrites s.db)
      (λ h. tt) (reset-IsProven s.db inv.proven) inv

other-Inv :
    (s : System) (accounts : List Account) (nonces : List Nonce)
    → Inv s
    → Inv (step s (other accounts nonces))
unfolding step
other-Inv s accounts nonces inv =
    Rewrites-Inv s (record s { db = record s.db { accounts = accounts; nonces = nonces } })
      (Rewrites-same s.db _ refl refl) (λ h. h) (record { at = inv.proven.at }) inv

pub step-Inv : (s : System) (e : Event) → IsFresh s e → Inv s → Inv (step s e)
step-Inv s (ordered env draws account_id identifiers) fresh inv =
    ordered-Inv s env draws account_id identifiers fresh inv
step-Inv s (acknowledged settings z account_id) fresh inv =
    acknowledged-Inv s settings z account_id inv
step-Inv s (begun k z j) fresh inv = begun-Inv s k z j inv
step-Inv s (validated z j outcome) fresh inv = validated-Inv s z j outcome inv
step-Inv s (claimed j domain csr_der) fresh inv = claimed-Inv s j domain csr_der inv
step-Inv s (issued x now cert_id j result) fresh inv = issued-Inv s x now cert_id j result inv
step-Inv s restarted fresh inv = restarted-Inv s inv
step-Inv s (other accounts nonces) fresh inv = other-Inv s accounts nonces inv

pub run-Inv : (es : List Event) (s : System) → AllFresh s es → Inv s → Inv (run s es)
unfolding run
run-Inv [] s fresh inv = inv
run-Inv (e ∷ es) s fresh inv = run-Inv es (step s e) fresh.1 (step-Inv s e fresh.0 inv)

pub start-Inv : (db : Db) → db.orders ≡ [] → Inv (record { db = db; tasks = [] })
unfolding get
start-Inv db empty = record {
  linked = tt;
  proven = record {
    at = λ k y o a fo fa owned isready.
        absurd (none_found k o (subst (λ rows. get (λ o. o.id) k rows ≡ some o) empty fo));
  };
  unique = rw empty tt;
}
  where
    none_found : (k : String) (o : Order) → get (λ o. o.id) k [] ≢ some o
    none_found k o h = cc
