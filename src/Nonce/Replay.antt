-- ===== src/Nonce/Replay.antt =====
-- A nonce is accepted once: whatever happens after it was consumed, it is refused.
use jackdaw.Base.{
  ℕ, String, ◌≡◌, ◌≢◌, refl, true, Bool, List, [], ◌∷◌, All, All-append, arith, eq_iff, ◌≤◌,
  Bool-cases, ltb, not, inl, inr, ◌==◌,
}
use jackdaw.Base.Table.{update, count, count_mono, All-update, All-select}
use jackdaw.Config.{Settings}
use jackdaw.Db.{Db, Nonce}
use jackdaw.Result.{ok, raised, http}
use jackdaw.Nonce.{
  generate_nonce, consume_nonce, prune_nonces, consumable, mark_used, cutoff, fresh_nonce,
}

-- What the relay does to the nonces, in any order.
pub data Event : Type 0 where
  generate : (now : ℕ) (value : String) → Event
  consume : (now : ℕ) (value : String) → Event
  prune : (now : ℕ) → Event

unfoldable pub step : Settings → Db → Event → Db
step settings db (generate now value) = (generate_nonce settings now value db).1
step settings db (consume now value) = (consume_nonce settings now value db).1
step settings db (prune now) = prune_nonces settings now db

unfoldable pub run : Settings → Db → List Event → Db
run settings db [] = db
run settings db (e ∷ es) = run settings (step settings db e) es

-- The event issues no nonce of that value: the generator draws 32 random bytes.
abbrev pub Issues : String → Event → Type 0
Issues v (generate now value) = value ≡ v
Issues v _ = ⊥

-- Every row of that value is used.
abbrev pub IsSpent : String → Nonce → Type 0
IsSpent v n = n.value ≡ v → n.used ≡ true

IsSpent-count :
    (v : String) (since : ℕ) (rows : List Nonce)
    → All (IsSpent v) rows
    → count (consumable since v) rows ≡ 0
unfolding count
IsSpent-count v since [] h = refl
IsSpent-count v since (n ∷ rows) h =
    ground (arith, IsSpent-count v since rows h.1, eq_iff n.value v)

-- The primary key: at most one row has that value.
abbrev pub IsUnique : String → List Nonce → Type 0
IsUnique v rows = count (λ n. n.value == v) rows ≤ 1

absent-IsSpent :
    (v : String) (p : Nonce → Bool) (rows : List Nonce)
    → count (λ n. n.value == v) rows ≡ 0
    → All (IsSpent v) (update p mark_used rows)
unfolding count update
absent-IsSpent v p [] h = tt
absent-IsSpent v p (n ∷ rows) h =
    (ground (arith, eq_iff n.value v), absent-IsSpent v p rows (ground arith))

consumable-le :
    (v : String) (since : ℕ) (rows : List Nonce)
    → count (consumable since v) rows ≤ count (λ n. n.value == v) rows
consumable-le v since rows =
    count_mono (consumable since v) (λ n. n.value == v) (λ n h. ground arith) rows

consumed-IsSpent :
    (v : String) (since : ℕ) (rows : List Nonce)
    → IsUnique v rows
    → count (consumable since v) rows ≢ 0
    → All (IsSpent v) (update (consumable since v) mark_used rows)
unfolding count update
consumed-IsSpent v since [] u h = tt
consumed-IsSpent v since (n ∷ rows) u h = elim (Bool-cases (n.value == v)) [
  | inl hit ↦ ground (arith, absent-IsSpent v (consumable since v) rows, consumable-le v since rows)
  | inr miss ↦ ground (arith, eq_iff n.value v, consumed-IsSpent v since rows)
]

-- Each event keeps the spent nonce spent.
step-IsSpent :
    (settings : Settings) (v : String) (db : Db) (e : Event)
    → ¬ Issues v e
    → All (IsSpent v) db.nonces
    → All (IsSpent v) (step settings db e).nonces
unfolding step generate_nonce consume_nonce prune_nonces
step-IsSpent settings v db (generate now value) other h = ground (
  arith,
  All-append (IsSpent v) db.nonces (fresh_nonce value now ∷ []) h (λ e. absurd (other e), tt),
)
step-IsSpent settings v db (consume now value) other h = ground (
  arith,
  All-update (IsSpent v) (consumable (cutoff settings now) value) mark_used (λ n k p q. refl)
      db.nonces h,
)
step-IsSpent settings v db (prune now) other h =
    All-select (IsSpent v) (λ n. not (ltb n.created_at (cutoff settings now))) db.nonces h

run-IsSpent :
    (settings : Settings) (v : String) (db : Db) (es : List Event)
    → All (λ e. ¬ Issues v e) es
    → All (IsSpent v) db.nonces
    → All (IsSpent v) (run settings db es).nonces
unfolding run
run-IsSpent settings v db [] others h = h
run-IsSpent settings v db (e ∷ es) others h =
    run-IsSpent settings v (step settings db e) es others.1
      (step-IsSpent settings v db e others.0 h)

refused :
    (settings : Settings) (now : ℕ) (v : String) (db : Db)
    → All (IsSpent v) db.nonces
    → (consume_nonce settings now v db).0
      ≡ raised (http 400 "Invalid, already-used, or expired nonce")
unfolding consume_nonce
refused settings now v db h = ground (arith, IsSpent-count v (cutoff settings now) db.nonces h)

IsSpent-by_success :
    (settings : Settings) (now : ℕ) (v : String) (db : Db)
    → IsUnique v db.nonces
    → (consume_nonce settings now v db).0 ≡ ok tt
    → All (IsSpent v) (consume_nonce settings now v db).1.nonces
unfolding consume_nonce
IsSpent-by_success settings now v db u h =
    ground (arith, consumed-IsSpent v (cutoff settings now) db.nonces u)

-- Once a nonce has been consumed, every later attempt to consume it is refused with status 400,
-- whatever nonces are issued, consumed and pruned in between and whatever the clock says, if the
-- value was a primary key and the generator does not draw it again.
pub replay_refused :
    (settings : Settings) (now later : ℕ) (v : String) (db : Db) (es : List Event)
    → IsUnique v db.nonces
    → (consume_nonce settings now v db).0 ≡ ok tt
    → All (λ e. ¬ Issues v e) es
    → (consume_nonce settings later v (run settings (consume_nonce settings now v db).1 es)).0
      ≡ raised (http 400 "Invalid, already-used, or expired nonce")
replay_refused settings now later v db es u h others =
    refused settings later v (run settings (consume_nonce settings now v db).1 es) (
      run-IsSpent settings v (consume_nonce settings now v db).1 es others
        (IsSpent-by_success settings now v db u h))
