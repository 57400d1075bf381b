-- ===== src/Nonce/Cap.antt =====
-- The ceiling on stored nonces. `generate_nonce` awaits between its count and its insert, so other
-- requests count in between.
use jackdaw.Base.{
  ℕ, suc, zero, String, ◌≤◌, ◌<◌, ◌+◌, List, [], ◌∷◌, arith, length, length-append, if◌then◌else◌,
  not, ltb, refl, ◌≡◌, Bool-cases, inl, inr,
}
use jackdaw.Base.Table.{length-update, length-select-le}
use jackdaw.Config.{Settings}
use jackdaw.Db.{Db}
use jackdaw.Nonce.{
  consume_nonce, prune_nonces, consumable, mark_used, cutoff, fresh_nonce, cap_reached,
  insert_nonce, set_nonces, generate_nonce,
}

-- The table, and the number of requests that found room and have not inserted their nonce yet.
pub record Shared : Type 0 where
  pub db : Db
  pub waiting : ℕ

-- The two halves of `generate_nonce`, and the other operations on nonces.
pub data Event : Type 0 where
  counted : Event
  inserted : (now : ℕ) (value : String) → Event
  consumed : (now : ℕ) (value : String) → Event
  pruned : (now : ℕ) → Event

abbrev pub insert_one : ℕ → ℕ → String → Shared → Shared
insert_one zero now value s = s
insert_one (suc n) now value s = record {
  db = set_nonces s.db (insert_nonce value now s.db.nonces);
  waiting = n;
}

unfoldable pub step : Settings → Shared → Event → Shared
unfolding insert_nonce
step settings s counted =
    if cap_reached settings s.db.nonces then s else record s { waiting = suc s.waiting }
step settings s (inserted now value) = insert_one s.waiting now value s
step settings s (consumed now value) = record s { db = (consume_nonce settings now value s.db).1 }
step settings s (pruned now) = record s { db = prune_nonces settings now s.db }

unfoldable pub run : Settings → Shared → List Event → Shared
run settings s [] = s
run settings s (e ∷ es) = run settings (step settings s e) es

-- A request that no other one overtakes does what `generate_nonce` does.
alone :
    (settings : Settings) (now : ℕ) (value : String) (db : Db)
    → (run settings (record { db = db; waiting = 0 }) (counted ∷ inserted now value ∷ [])).db
      ≡ (generate_nonce settings now value db).1
unfolding run step generate_nonce
alone settings now value db = elim (Bool-cases (cap_reached settings db.nonces)) [
  | inl full ↦ rw full refl
  | inr room ↦ rw room refl
]

-- At most `k` requests are between their count and their insert, at every moment of the run.
abbrev pub Overlap : Settings → ℕ → Shared → List Event → Type 0
Overlap settings k s [] = s.waiting ≤ k
Overlap settings k s (e ∷ es) = (s.waiting ≤ k) × Overlap settings k (step settings s e) es

-- The rows, and those to come.
abbrev Room : Settings → ℕ → Shared → Type 0
Room settings k s = suc (length s.db.nonces + s.waiting) ≤ settings.nonce_max + k

insert_one-Room :
    (settings : Settings) (k n now : ℕ) (value : String) (s : Shared)
    → suc (length s.db.nonces + n) ≤ settings.nonce_max + k
    → s.waiting ≡ n
    → Room settings k (insert_one n now value s)
unfolding insert_nonce
insert_one-Room settings k zero now value s h e = ground arith
insert_one-Room settings k (suc n) now value s h e =
    ground (arith, length-append s.db.nonces (fresh_nonce value now ∷ []))

step-Room :
    (settings : Settings) (k : ℕ) (s : Shared) (e : Event)
    → 0 < settings.nonce_max
    → (step settings s e).waiting ≤ k
    → Room settings k s
    → Room settings k (step settings s e)
unfolding step consume_nonce prune_nonces
step-Room settings k s counted on few h = ground arith
step-Room settings k s (inserted now value) on few h =
    insert_one-Room settings k s.waiting now value s h refl
step-Room settings k s (consumed now value) on few h =
    ground (arith, length-update (consumable (cutoff settings now) value) mark_used s.db.nonces)
step-Room settings k s (pruned now) on few h =
    ground (arith, length-select-le (λ n. not (ltb n.created_at (cutoff settings now))) s.db.nonces)

now_few :
    (settings : Settings) (k : ℕ) (s : Shared) (es : List Event)
    → Overlap settings k s es
    → s.waiting ≤ k
now_few settings k s [] h = h
now_few settings k s (e ∷ es) h = h.0

run-Room :
    (settings : Settings) (k : ℕ) (s : Shared) (es : List Event)
    → 0 < settings.nonce_max
    → Overlap settings k s es
    → Room settings k s
    → Room settings k (run settings s es)
unfolding run
run-Room settings k s [] on few h = h
run-Room settings k s (e ∷ es) on few h =
    run-Room settings k (step settings s e) es on few.1
      (step-Room settings k s e on (now_few settings k (step settings s e) es few.1) h)

-- With the cap in force and no nonce waiting at the start, the table holds fewer than `nonce_max` plus
-- `k` rows after any events, if it held no more than `nonce_max` at the start and at most `k` requests
-- at a time are between their count and their insert. So it never holds more than `nonce_max` if no
-- two requests overlap there (`k` is 1).
pub run-IsWithinCap :
    (settings : Settings) (k : ℕ) (db : Db) (es : List Event)
    → 0 < settings.nonce_max
    → 0 < k
    → Overlap settings k (record { db = db; waiting = 0 }) es
    → length db.nonces ≤ settings.nonce_max
    → length (run settings (record { db = db; waiting = 0 }) es).db.nonces < settings.nonce_max + k
run-IsWithinCap settings k db es on some few h =
    let room = run-Room settings k (record { db = db; waiting = 0 }) es on few (omega arith) in
    omega (arith, room)
