-- ===== src/Accounts/Change.antt =====
-- What a key change that is accepted has checked, and what it writes.
use jackdaw.Exec
use jackdaw.Base.{String, ◌≡◌, some, ap, not, subst, ◌==◌, arith, eq_iff, refl}
use jackdaw.Accounts.KeyChange.{
  store_key, change_key, set_key, verify_inner_jws, account_has_id, check_key,
}
use jackdaw.Accounts.Inner.{IsProof, verify_inner_jws-IsProof}
use jackdaw.Result.{or_raise, ok, require, or_raise-eq-ok}
use jackdaw.Jws.Keys.{Env, canonical_jwk}
use jackdaw.Db.{Db, Account}
use jackdaw.Json.{Json, Fields, as_fields}
use jackdaw.Accounts.{AccountReply, account_url}
use jackdaw.Ownership.{find_account}
use jackdaw.Base.Table.{get-update, key-get}

-- The row of the account after the write.
store_key-found :
    (id key : String) (db db' : Db) (u : Unit {0}) (account : Account)
    → find_account db id ≡ some account
    → store_key id key db ≡ (ok u, db')
    → find_account db' id ≡ some (set_key key account)
unfolding store_key
store_key-found id key db db' u account found h =
    let (v, q, h2) = Exec.continue-eq-ok (check_key id key db) _ db u db' h in
    subst (λ (d : Db). find_account d id ≡ some (set_key key account)) (ap (λ r. r.1) h2)
      (ground (
        arith,
        get-update (λ (a : Account). a.id) (account_has_id id) (set_key key) (λ a. refl) id
            db.accounts,
        key-get (λ (a : Account). a.id) id db.accounts found,
        eq_iff account.id id,
      ))

-- A key change that is accepted had an inner JWS whose header has an allowed algorithm, the url of
-- the request and the new key, and no kid; whose signature holds under that new key; and whose payload
-- names the account's url and, as its old key, the key that the account's row has. Afterwards the row
-- has the canonical text of the new key, with its other columns as they were.
pub change_key_accepted :
    (env : Env) (url : String) (payload : Json) (id : String) (reply : AccountReply) (db db' : Db)
    → change_key env url payload id db ≡ (ok reply, db')
    → (fields : Fields) × (account : Account) × (key : Json) × (as_fields payload ≡ some fields)
      × (find_account db id ≡ some account)
      × IsProof env.codec (account_url env.settings id) account.public_key url fields key
      × (find_account db' id ≡ some (record account { public_key = env.codec.dumps_sorted key }))
unfolding change_key
change_key_accepted env url payload id reply db db' h =
    let (u, p0, h0) = Exec.continue-eq-ok (require (not (id == "")) _) _ db reply db' h in
    let (fields, p1, h1) = Exec.continue-eq-ok (or_raise (as_fields payload) _) _ db reply db' h0 in
    let (account, p2, h2) =
      Exec.continue-eq-ok (or_raise (find_account db id) _) _ db reply db' h1 in
    let (key, p3, h3) =
      Exec.continue-eq-ok
        (verify_inner_jws env.codec (account_url env.settings id) account.public_key url fields) _
        db reply db' h2 in
    let (v, s', stored, h4) =
      Exec.>>=-eq-ok (store_key id (canonical_jwk env.codec key)) _ db reply db' h3 in
    let found = or_raise-eq-ok (find_account db id) _ account p2 in
    (
      fields,
      account,
      key,
      or_raise-eq-ok (as_fields payload) _ fields p1,
      found,
      verify_inner_jws-IsProof env.codec (account_url env.settings id) account.public_key url fields
          key p3,
      subst (λ (d : Db). find_account d id ≡ some (set_key (canonical_jwk env.codec key) account))
          (ap (λ r. r.1) h4)
          (store_key-found id (canonical_jwk env.codec key) db s' v account found stored),
    )
