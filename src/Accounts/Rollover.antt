-- ===== src/Accounts/Rollover.antt =====
-- What a change of one key leaves of the keys: the UPDATE of src/jackdaw/routes/keychange.py.
use jackdaw.Base.{
  String, List, ◌≢◌, ◌≡◌, none, ◌==◌, ◌∷◌, arith, Bool, eq_iff, if◌then◌else◌, [], subst, refl, sym,
  true, false,
}
use jackdaw.Accounts.KeyChange.{account_has_id, set_key, taken_by}
use jackdaw.Base.Table.{get, update, count, Unique, update-count-zero}
use jackdaw.Db.{Account}
use jackdaw.Accounts.Keys.{Distinct}

module _ (id key : String) where
  unfoldable pub changed : List Account → List Account
  changed = update (account_has_id id) (set_key key)

  -- An account that is not there is not changed.
  changed-absent :
      (rows : List Account)
      → get (λ (a : Account). a.id) id rows ≡ none
      → count (account_has_id id) rows ≡ 0
  unfolding get count
  changed-absent [] h = refl
  changed-absent (a ∷ rows) h = ground (arith, changed-absent rows)

  taken-none :
      (rows : List Account)
      → count (taken_by key id) rows ≡ 0
      → get (λ (a : Account). a.id) id rows ≡ none
      → get (λ (a : Account). a.public_key) key rows ≡ none
  unfolding get count
  taken-none [] h k = refl
  taken-none (a ∷ rows) h k = ground (arith, taken-none rows)

  -- A key that is neither in the rows nor the new one is not in the rows after the change.
  other-key :
      (other : String) (rows : List Account)
      → key ≢ other
      → get (λ (a : Account). a.public_key) other rows ≡ none
      → get (λ (a : Account). a.public_key) other (changed rows) ≡ none
  unfolding get update changed
  other-key other [] n h = refl
  other-key other (a ∷ rows) n h = ground (arith, eq_iff key other, other-key other rows n)

  pub keys-changed :
      (rows : List Account)
      → Distinct rows
      → count (taken_by key id) rows ≡ 0
      → Unique (λ (a : Account). a.public_key) (changed rows)
  unfolding update count changed
  keys-changed [] d h = tt
  keys-changed (a ∷ rows) d h = (
    at (a.id == id) refl,
    keys-changed rows (record { ids = d.ids.1; keys = d.keys.1 }) (ground arith),
  )
    where
      at :
          (b : Bool)
          → (a.id == id) ≡ b
          → get
              (λ (x : Account). x.public_key)
              (if b then set_key key a else a).public_key
              (changed rows)
            ≡ none
      at true e =
          let absent : get (λ (x : Account). x.id) id rows ≡ none =
            subst (λ i. get (λ (x : Account). x.id) i rows ≡ none) ((eq_iff a.id id).0 e) d.ids.0 in
          subst (λ l. get (λ (x : Account). x.public_key) key l ≡ none)
            (sym (
              update-count-zero (account_has_id id) (set_key key) rows
                (changed-absent rows absent)))
            (taken-none rows (ground arith) absent)
      at false e =
          other-key a.public_key rows (λ k. ground (arith, eq_iff a.public_key key, k)) d.keys.0
