-- ===== src/Base/Table.antt =====
-- A database table: rows in order of insertion, with a text as primary key.
use Prim.Native.Nat.{ℕ, ◌+◌, ◌≤◌}
use Prim.Native.String.{String}
use mathlib.Core.Path.{◌≡◌, refl}
use mathlib.Core.Bool.{Bool, true, false}
use mathlib.Core.Option
use mathlib.Core.Option.{Option, none, some}
use mathlib.Core.List.{List, [], ◌∷◌, ◌++◌}
use native.Mathlib.Omega.{arith}
use text.Mathlib.Text.{◌==◌}
use text.Mathlib.TextEquality.{eq_iff}
use jackdaw.Base.Tests.{if◌then◌else◌}
use jackdaw.Base.Lists.{length, All}
use jackdaw.Base.{◌≢◌, Bool-cases, inl, inr}

module _ {ℓ} {R : Type ℓ} where
  -- `SELECT … WHERE p`
  unfoldable pub select : (R → Bool) → List R → List R
  select p [] = []
  select p (r ∷ rs) = let rest = select p rs in if p r then r ∷ rest else rest

  -- `UPDATE … SET f WHERE p`
  unfoldable pub update : (R → Bool) → (R → R) → List R → List R
  update p f [] = []
  update p f (r ∷ rs) = (if p r then f r else r) ∷ update p f rs

  -- `SELECT count(*) WHERE p`, and the rowcount of an UPDATE with that condition.
  unfoldable pub count : (R → Bool) → List R → ℕ
  count p [] = 0
  count p (r ∷ rs) = (if p r then 1 else 0) + count p rs

  pub length-update : (p : R → Bool) (f : R → R) (rs : List R) → length (update p f rs) ≡ length rs
  unfolding update
  length-update p f [] = refl
  length-update p f (r ∷ rs) = omega (arith, length-update p f rs)

  pub length-select-le : (p : R → Bool) (rs : List R) → length (select p rs) ≤ length rs
  unfolding select
  length-select-le p [] = omega arith
  length-select-le p (r ∷ rs) = ground (arith, length-select-le p rs)

  pub count-append : (p : R → Bool) (rs qs : List R) → count p (rs ++ qs) ≡ count p rs + count p qs
  unfolding count
  count-append p [] qs = omega arith
  count-append p (r ∷ rs) qs = omega (arith, count-append p rs qs)

  pub select-append :
      (p : R → Bool) (rs qs : List R) → select p (rs ++ qs) ≡ select p rs ++ select p qs
  unfolding select
  select-append p [] qs = refl
  select-append p (r ∷ rs) qs = ground (arith, select-append p rs qs)

  pub count_mono :
      (p q : R → Bool)
      → ((r : R) → p r ≡ true → q r ≡ true)
      → (rs : List R) → count p rs ≤ count q rs
  unfolding count
  count_mono p q h [] = omega arith
  count_mono p q h (r ∷ rs) = ground (arith, h r, count_mono p q h rs)

  -- An UPDATE whose rowcount is 0 changes nothing.
  pub update-count-zero :
      (p : R → Bool) (f : R → R) (rs : List R) → count p rs ≡ 0 → update p f rs ≡ rs
  unfolding update count
  update-count-zero p f [] h = refl
  update-count-zero p f (r ∷ rs) h = ground (arith, update-count-zero p f rs)

  pub All-update {κ} :
      (P : R → Type κ) (p : R → Bool) (f : R → R)
      → ((r : R) → P r → p r ≡ true → P (f r))
      → (rs : List R) → All P rs
      → All P (update p f rs)
  unfolding update
  All-update P p f keep [] h = tt
  All-update P p f keep (r ∷ rs) h = (at (p r) (keep r h.0), All-update P p f keep rs h.1)
    where
      at : (b : Bool) → (b ≡ true → P (f r)) → P (if b then f r else r)
      at true k = k refl
      at false k = h.0

  pub All-select {κ} :
      (P : R → Type κ) (p : R → Bool) (rs : List R) → All P rs → All P (select p rs)
  unfolding select
  All-select P p [] h = tt
  All-select P p (r ∷ rs) h = ground (arith, All-select P p rs h.1)

module _ {ℓ} {R : Type ℓ} (key : R → String) where
  -- `db.get(Row, k)`, and `scalar_one_or_none` of a query by the primary key.
  unfoldable pub get : String → List R → Option R
  get k [] = none
  get k (r ∷ rs) = if key r == k then some r else get k rs

  pub get-append :
      (k : String) (rs : List R) (q : R)
      → get k (rs ++ q ∷ [])
        ≡ (elim (get k rs) [ some r ↦ some r | none ↦ if key q == k then some q else none ])
  unfolding get
  get-append k [] q = refl
  get-append k (r ∷ rs) q = ground (arith, get-append k rs q)

  -- An UPDATE that leaves the keys alone acts on the row that a key finds.
  pub get-update :
      (p : R → Bool) (f : R → R)
      → ((r : R) → key (f r) ≡ key r)
      → (k : String) (rs : List R)
      → get k (update p f rs) ≡ Option.map (λ r. if p r then f r else r) (get k rs)
  unfolding get update
  get-update p f keep k [] = refl
  get-update p f keep k (r ∷ rs) = ground (arith, keep r, get-update p f keep k rs)

  pub key-get : (k : String) (rs : List R) {r : R} → get k rs ≡ some r → key r ≡ k
  unfolding get
  key-get k [] h = cc
  key-get k (q ∷ rs) {r} h = ground (arith, eq_iff (key q) k, key-get k rs {r = r})

  pub All-get {κ} :
      (P : R → Type κ) (k : String) (rs : List R) {r : R} → All P rs → get k rs ≡ some r → P r
  unfolding get
  All-get P k [] a h = absurd (cc)
  All-get P k (q ∷ rs) {r} a h = ground (arith, All-get P k rs {r = r} a.1)

  -- No row repeats the key of a row before it, as the primary key demands.
  abbrev pub Unique : List R → Type ℓ
  Unique [] = Unit
  Unique (r ∷ rs) = (get (key r) rs ≡ none) × Unique rs

  get-none-update :
      (p : R → Bool) (f : R → R)
      → ((r : R) → key (f r) ≡ key r)
      → (k : String) (rs : List R) → get k rs ≡ none
      → get k (update p f rs) ≡ none
  get-none-update p f keep k rs h = rw (get-update p f keep k rs, h)

  pub Unique-update :
      (p : R → Bool) (f : R → R)
      → ((r : R) → key (f r) ≡ key r)
      → (rs : List R) → Unique rs
      → Unique (update p f rs)
  unfolding update
  Unique-update p f keep [] h = tt
  Unique-update p f keep (r ∷ rs) h = (at (p r), Unique-update p f keep rs h.1)
    where
      at : (b : Bool) → get (key (if b then f r else r)) (update p f rs) ≡ none
      at true = rw (keep r) (get-none-update p f keep (key r) rs h.0)
      at false = get-none-update p f keep (key r) rs h.0

  pub Unique-append :
      (rs : List R) (q : R) → Unique rs → get (key q) rs ≡ none → Unique (rs ++ q ∷ [])
  unfolding get
  Unique-append [] q h fresh = (refl, tt)
  Unique-append (r ∷ rs) q h fresh = (
    ground (arith, get-append (key r) rs q, eq_iff (key r) (key q), eq_iff (key q) (key r)),
    Unique-append rs q h.1 (ground arith),
  )

  -- A condition that fixes the key counts the row that the key finds.
  pub count-get :
      (p : R → Bool) (k : String)
      → ((r : R) → p r ≡ true → key r ≡ k)
      → (rs : List R) → Unique rs
      → count p rs ≢ 0
      → (r : R) × (get k rs ≡ some r) × (p r ≡ true)
  unfolding count get
  count-get p k only [] u h = absurd (ground arith)
  count-get p k only (r ∷ rs) u h = elim (Bool-cases (p r)) [
    | inl hit ↦ (r, ground (arith, only r hit, eq_iff (key r) k), hit)
    | inr miss ↦
        let (q, found, holds) = count-get p k only rs u.1 (ground arith) in
        (q, at (key r == k) refl q found, holds)
  ]
    where
      at :
          (b : Bool)
          → (key r == k) ≡ b
          → (q : R) → get k rs ≡ some q
          → (if b then some r else get k rs) ≡ some q
      at true e q found = absurd (ground (arith, eq_iff (key r) k, u.0))
      at false e q found = found

  -- A row that a key finds is counted.
  pub get-count :
      (p : R → Bool) (k : String) (rs : List R) (r : R)
      → get k rs ≡ some r
      → p r ≡ true
      → count p rs ≢ 0
  unfolding count get
  get-count p k [] r found holds z = cc
  get-count p k (q ∷ rs) r found holds z = ground (arith, get-count p k rs r)

-- Lookup in a table with many rows added.
pub get-append_list {ℓ} :
    {R : Type ℓ} (key : R → String) (k : String) (rs qs : List R)
    → get key k (rs ++ qs) ≡ (elim (get key k rs) [ some r ↦ some r | none ↦ get key k qs ])
unfolding get
get-append_list key k [] qs = refl
get-append_list key k (r ∷ rs) qs = ground (arith, get-append_list key k rs qs)
