-- ===== src/Accounts/Overlap.antt =====
-- Requests that register or change a key, overlapping. `new_account` and `key_change` await between
-- their look-up of the key and their commit, and no constraint of the database keeps keys distinct.
pub mod Invariant
use jackdaw.Exec.{Exec}
use jackdaw.Base.{
  String, List, ◌≢◌, ◌≡◌, Option, none, ◌==◌, ◌∷◌, arith, Bool, eq_iff, if◌then◌else◌, [], subst,
  refl, sym, true, false, some, All, ℕ, suc, zero, take_out, Option-cases, inl, inr, Bool-cases,
  ◌≤◌, ◌+◌, ap, ◌∙◌, some-injective, is_none, is_none-eq,
}
use jackdaw.Accounts.KeyChange.{store_key, account_has_id, set_key, taken_by, check_key, write_key}
use jackdaw.Jws.Keys.{Env}
use jackdaw.Base.Table.{
  get, update, count, Unique, select, update-count-zero, Unique-update, Unique-append, count-append,
  get-append,
}
use jackdaw.Db.{Db, Account}
use jackdaw.Accounts.Keys.{Distinct, select-none, count-none}
use jackdaw.Accounts.{
  NewAccountRequest, scalar_one_or_none, has_key, find_by_key, insert_account, created_account,
  create_account,
}
use jackdaw.Result.{Result, ok, raised, uncaught, Result-cases, >>=-eq-ok, require-eq-ok}

-- What a request holds between its look-up and its commit: the key that it found free.
pub data Ticket : Type 0 where
  registering : (key id : String) → NewAccountRequest → Ticket
  changing : (key id : String) → Ticket

abbrev pub key_of : Ticket → String
key_of (registering key id request) = key
key_of (changing key id) = key

pub record Shared : Type 0 where
  pub db : Db
  pub waiting : List Ticket

-- The look-ups of the two handlers, and the commit of one of the requests that wait.
pub data Event : Type 0 where
  registers : (key id : String) → NewAccountRequest → Event
  changes : (key id : String) → Event
  commits : (i : ℕ) → Event

abbrev pub await_commit : Ticket → Shared → Shared
await_commit t s = record s { waiting = t ∷ s.waiting }

abbrev pub on_found :
    Result (Option Account) → (key id : String) → NewAccountRequest → Shared → Shared
on_found (ok none) key id request s =
    if request.only_return_existing then s else await_commit (registering key id request) s
on_found (ok (some existing)) key id request s = s
on_found (raised e) key id request s = s
on_found uncaught key id request s = s

abbrev pub on_check : Result (Unit {0}) → (key id : String) → Shared → Shared
on_check (ok u) key id s = await_commit (changing key id) s
on_check (raised e) key id s = s
on_check uncaught key id s = s

abbrev pub commit : Env → Ticket → Db → Db
commit env (registering key id request) db = insert_account env id request key db
commit env (changing key id) db = write_key id key db

abbrev pub on_commit : Env → Option (Ticket × List Ticket) → Shared → Shared
on_commit env none s = s
on_commit env (some (t, rest)) s = record { db = commit env t s.db; waiting = rest }

unfoldable pub step : Env → Shared → Event → Shared
step env s (registers key id request) = on_found (find_by_key key s.db) key id request s
step env s (changes key id) = on_check (check_key id key s.db) key id s
step env s (commits i) = on_commit env (take_out i s.waiting) s

unfoldable pub run : Env → Shared → List Event → Shared
run env s [] = s
run env s (e ∷ es) = run env (step env s e) es

-- No two requests that wait are for one key.
abbrev pub Apart : List Ticket → Type 0
Apart [] = Unit
Apart (t ∷ ts) = All (λ u. key_of u ≢ key_of t) ts × Apart ts

-- The id of a new account is in no row yet.
abbrev pub IsFresh : Db → Option (Ticket × List Ticket) → Type 0
IsFresh db (some (registering key id request, rest)) =
    get (λ (a : Account). a.id) id db.accounts ≡ none
IsFresh db (some (changing key id, rest)) = Unit
IsFresh db none = Unit

abbrev pub DrawsFresh : Shared → Event → Type 0
DrawsFresh s (commits i) = IsFresh s.db (take_out i s.waiting)
DrawsFresh s _ = Unit

-- At every moment of the run no two requests that wait are for one key, and ids are drawn fresh.
abbrev pub Calm : Env → Shared → List Event → Type 0
Calm env s [] = Unit
Calm env s (e ∷ es) = DrawsFresh s e × Apart (step env s e).waiting × Calm env (step env s e) es

-- A request that no other one overtakes does what `create_account` and `store_key` do.
alone :
    (env : Env) (key id : String) (request : NewAccountRequest) (db : Db)
    → ((run env (record { db = db; waiting = [] }) (registers key id request ∷ commits 0 ∷ [])).db
        ≡ (create_account env id request key db).1)
      × ((run env (record { db = db; waiting = [] }) (changes key id ∷ commits 0 ∷ [])).db
          ≡ (store_key id key db).1)
unfolding run step create_account store_key
alone env key id request db = (registered, changed_key)
  where
    empty : Shared
    empty = record { db = db; waiting = [] }

    registered :
        (run env empty (registers key id request ∷ commits 0 ∷ [])).db
        ≡ (create_account env id request key db).1
    registered = elim (Result-cases (find_by_key key db)) [
      | inl (inl (none, e)) ↦ (elim (Bool-cases request.only_return_existing) [
        | inl only ↦ rw (e, only) refl
        | inr create ↦ rw (e, create) refl
      ])
      | inl (inl (some existing, e)) ↦ rw e refl
      | inl (inr (x, e)) ↦ rw e refl
      | inr e ↦ rw e refl
    ]

    changed_key : (run env empty (changes key id ∷ commits 0 ∷ [])).db ≡ (store_key id key db).1
    changed_key = elim (Result-cases (check_key id key db)) [
      | inl (inl (u, e)) ↦ rw e refl
      | inl (inr (x, e)) ↦ rw e refl
      | inr e ↦ rw e refl
    ]
