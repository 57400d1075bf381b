-- ===== src/Middleware/Nonces.antt =====
-- A nonce that a response carried, until it is used.
use jackdaw.Middleware.{dispatch}
use jackdaw.Nonce.{
  consume_nonce, generate_nonce, prune_nonces, consumable, cutoff, fresh_nonce, mark_used,
}
use jackdaw.Nonce.Replay.{Event, generate, consume, prune, step, run}
use jackdaw.Base.Table.{count, update, select, count_mono, count-append}
use jackdaw.Config.{Settings}
use jackdaw.Db.{Db, Nonce}
use jackdaw.Result.{ok}
use jackdaw.Base.{
  String, ℕ, ◌≢◌, ◌≤◌, List, arith, ◌≡◌, ◌+◌, not, ◌∷◌, All, some, eq_iff, ltb, [], eq_refl, refl,
}

-- The event consumes another nonce, or prunes no later than `issued + nonce_ttl`.
abbrev pub LeavesAlone : Settings → String → ℕ → Event → Type 0
LeavesAlone settings v issued (generate now value) = Unit
LeavesAlone settings v issued (consume now value) = value ≢ v
LeavesAlone settings v issued (prune now) = now ≤ issued + settings.nonce_ttl

-- A row of that value, not used and not older than `issued`.
abbrev IsOpen : String → ℕ → Db → Type 0
IsOpen v issued db = 1 ≤ count (consumable issued v) db.nonces

count-other :
    (v w : String) (since before : ℕ) (rows : List Nonce)
    → w ≢ v
    → count (consumable since v) (update (consumable before w) mark_used rows)
      ≡ count (consumable since v) rows
unfolding count update
count-other v w since before [] ne = refl
count-other v w since before (n ∷ rows) ne =
    let ih = count-other v w since before rows ne in
    ground (arith, eq_iff n.value v, eq_iff n.value w)

count-pruned :
    (v : String) (since before : ℕ) (rows : List Nonce)
    → before ≤ since
    → count (consumable since v) (select (λ n. not (ltb n.created_at before)) rows)
      ≡ count (consumable since v) rows
unfolding count select
count-pruned v since before [] h = refl
count-pruned v since before (n ∷ rows) h =
    let ih = count-pruned v since before rows h in ground arith

IsOpen-step :
    (settings : Settings) (v : String) (issued : ℕ) (db : Db) (e : Event)
    → LeavesAlone settings v issued e
    → IsOpen v issued db
    → IsOpen v issued (step settings db e)
unfolding step generate_nonce consume_nonce prune_nonces
IsOpen-step settings v issued db (generate now value) h live =
    ground (arith, count-append (consumable issued v) db.nonces (fresh_nonce value now ∷ []))
IsOpen-step settings v issued db (consume now value) h live =
    ground (arith, count-other v value issued (cutoff settings now) db.nonces h)
IsOpen-step settings v issued db (prune now) h live =
    rw (count-pruned v issued (cutoff settings now) db.nonces (omega arith)) live

IsOpen-run :
    (settings : Settings) (v : String) (issued : ℕ) (events : List Event) (db : Db)
    → All (LeavesAlone settings v issued) events
    → IsOpen v issued db
    → IsOpen v issued (run settings db events)
unfolding run
IsOpen-run settings v issued [] db h live = live
IsOpen-run settings v issued (e ∷ events) db (h, hs) live =
    IsOpen-run settings v issued events (step settings db e) hs
      (IsOpen-step settings v issued db e h live)

IsOpen-dispatch :
    (settings : Settings) (issued : ℕ) (v method existing : String) (db : Db)
    → (dispatch settings issued v method existing db).0.replay_nonce ≡ some v
    → IsOpen v issued (dispatch settings issued v method existing db).1
unfolding dispatch generate_nonce count
IsOpen-dispatch settings issued v method existing db h =
    ground
      (arith, count-append (consumable issued v) db.nonces (fresh_nonce v issued ∷ []), eq_refl v)

accepted :
    (settings : Settings) (v : String) (issued later : ℕ) (db : Db)
    → IsOpen v issued db
    → later ≤ issued + settings.nonce_ttl
    → (consume_nonce settings later v db).0 ≡ ok tt
unfolding consume_nonce
accepted settings v issued later db live h = ground (
  arith,
  count_mono (consumable issued v) (consumable (cutoff settings later) v) (λ n k. ground arith)
      db.nonces,
)

-- The nonce that a response carries is accepted until `nonce_ttl` seconds later, the last included,
-- whatever nonces are issued, consumed and pruned in between, if it has not been consumed.
pub dispatch_nonce_accepted :
    (settings : Settings) (issued later : ℕ) (v method existing : String) (events : List Event)
    (db : Db)
    → (dispatch settings issued v method existing db).0.replay_nonce ≡ some v
    → All (LeavesAlone settings v issued) events
    → later ≤ issued + settings.nonce_ttl
    → (consume_nonce settings later v
        (run settings (dispatch settings issued v method existing db).1 events)).0
      ≡ ok tt
dispatch_nonce_accepted settings issued later v method existing events db given h late =
    accepted settings v issued later
      (run settings (dispatch settings issued v method existing db).1 events)
      (IsOpen-run settings v issued events (dispatch settings issued v method existing db).1 h
        (IsOpen-dispatch settings issued v method existing db given))
      late
