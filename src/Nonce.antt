-- ===== src/Nonce.antt =====
-- src/jackdaw/services/nonce.py. The time and the random value are arguments. A cutoff before the
-- epoch is 0 here: no stored time lies below either.
pub mod Replay
pub mod Pruning
pub mod Cap
mod Tests
use jackdaw.Base.{
  ℕ, ◌-◌, String, Bool, false, true, ◌&&◌, not, Option, none, some, List, [], ◌∷◌, ◌++◌, length,
  ltb, leb, eqb, if◌then◌else◌, ◌==◌,
}
use jackdaw.Base.Table.{select, update, count}
use jackdaw.Config.{Settings}
use jackdaw.Db.{Db, Nonce}
use jackdaw.Exec.{Exec, pure, raise}
use jackdaw.Result.{http}

abbrev pub set_nonces : Db → List Nonce → Db
set_nonces db rows = record db { nonces = rows }

abbrev pub cutoff : Settings → ℕ → ℕ
cutoff settings now = now - settings.nonce_ttl

abbrev pub fresh_nonce : String → ℕ → Nonce
fresh_nonce value now = record { value = value; used = false; created_at = now }

pub insert_nonce : String → ℕ → List Nonce → List Nonce
insert_nonce value now rows = rows ++ fresh_nonce value now ∷ []

abbrev pub cap_reached : Settings → List Nonce → Bool
cap_reached settings rows = ltb 0 settings.nonce_max && leb settings.nonce_max (length rows)

-- `generate_nonce` for a request that no other one overtakes: it counts the rows, and inserts one.
unfoldable pub generate_nonce : Settings → ℕ → String → Db → Option String × Db
unfolding insert_nonce
generate_nonce settings now value db =
    if cap_reached settings db.nonces
    then (none, db)
    else (some value, set_nonces db (insert_nonce value now db.nonces))

-- The condition of the UPDATE in `consume_nonce`.
abbrev pub consumable : ℕ → String → Nonce → Bool
consumable since value n = (n.value == value) && not n.used && leb since n.created_at

abbrev pub mark_used : Nonce → Nonce
mark_used n = record n { used = true }

unfoldable pub consume_nonce : Settings → ℕ → String → Exec Db (Unit {0})
consume_nonce settings now value db =
    let test = consumable (cutoff settings now) value in
    let db' = set_nonces db (update test mark_used db.nonces) in
    if eqb (count test db.nonces) 0
    then raise (http 400 "Invalid, already-used, or expired nonce") db'
    else pure tt db'

unfoldable pub prune_nonces : Settings → ℕ → Db → Db
prune_nonces settings now db =
    set_nonces db (select (λ n. not (ltb n.created_at (cutoff settings now))) db.nonces)
