-- ===== src/Engine/Supported.antt =====
-- The files that a start may find, and what it is to leave.
use jackdaw.Engine.{
  Table, Index, Schema, has_column, has_index, baseline_indexes, initial_0001, authz_error_0002,
}
use jackdaw.Base.{List, ◌≡◌, String, All, ◌∷◌, true, [], some, none, false}

abbrev pub HasAll : List (String × String) → List Table → Type 0
HasAll columns tables = All (λ (p : String × String). has_column p.0 p.1 tables ≡ true) columns

-- The columns that every release created.
abbrev pub early_columns : List (String × String)
early_columns =
    ("accounts", "id")
    ∷ ("accounts", "public_key")
    ∷ ("accounts", "contact")
    ∷ ("accounts", "status")
    ∷ ("accounts", "created_at")
    ∷ ("certificates", "id")
    ∷ ("certificates", "order_id")
    ∷ ("certificates", "pem_chain")
    ∷ ("certificates", "issued_at")
    ∷ ("certificates", "expires_at")
    ∷ ("nonces", "value")
    ∷ ("nonces", "used")
    ∷ ("nonces", "created_at")
    ∷ ("orders", "id")
    ∷ ("orders", "account_id")
    ∷ ("orders", "status")
    ∷ ("orders", "identifiers")
    ∷ ("orders", "le_order_url")
    ∷ ("orders", "cert_id")
    ∷ ("orders", "expires_at")
    ∷ ("orders", "created_at")
    ∷ ("authorizations", "id")
    ∷ ("authorizations", "order_id")
    ∷ ("authorizations", "identifier")
    ∷ ("authorizations", "status")
    ∷ ("authorizations", "challenge_token")
    ∷ ("authorizations", "le_authz_url")
    ∷ ("authorizations", "created_at")
    ∷ []

abbrev pub late_pairs : List (String × String)
late_pairs = ("orders", "error") ∷ ("certificates", "serial") ∷ []

-- Every column of the five models, early or late, and the four indexes.
abbrev pub HasIndexes : List Index → Schema → Type 0
HasIndexes indexes s = All (λ (i : Index). has_index i.index s.indexes ≡ true) indexes

pub record IsReady (s : Schema) : Type 0 where
  pub early : HasAll early_columns s.tables
  pub late : HasAll late_pairs s.tables
  pub authz_error : has_column "authorizations" "error" s.tables ≡ true
  pub indexed : HasIndexes baseline_indexes s
  pub at_head : s.version ≡ some (some authz_error_0002)

-- The files that a start may find: an empty one, one of a release before Alembic, where the late
-- columns and any index may be missing, one at the first revision, and one at the second.
pub data Supported : Schema → Type 0 where
  fresh : (s : Schema) → s ≡ record { tables = []; indexes = []; version = none } → Supported s
  unmanaged :
      (s : Schema)
      → s.version ≡ none
      → HasAll early_columns s.tables
      → has_column "authorizations" "error" s.tables ≡ false
      → Supported s
  initial :
      (s : Schema)
      → s.version ≡ some (some initial_0001)
      → HasAll early_columns s.tables
      → HasAll late_pairs s.tables
      → HasIndexes baseline_indexes s
      → has_column "authorizations" "error" s.tables ≡ false
      → Supported s
  current : (s : Schema) → IsReady s → Supported s

-- No column is lost.
abbrev pub Grows : List Table → List Table → Type 0
Grows tables tables' = (t c : String) → has_column t c tables ≡ true → has_column t c tables' ≡ true

pub HasAll-Grows :
    (columns : List (String × String)) (tables tables' : List Table)
    → Grows tables tables'
    → HasAll columns tables
    → HasAll columns tables'
HasAll-Grows [] tables tables' g h = tt
HasAll-Grows ((t, c) ∷ columns) tables tables' g (h, hs) =
    (g t c h, HasAll-Grows columns tables tables' g hs)

-- After the column was added, or found.
