-- ===== src/Engine.antt =====
-- src/jackdaw/db/engine.py and src/jackdaw/migrations/versions: the schema of a database file as
-- SQLite shows it, the statements of the code, and the migration at the start.
pub mod Revisions
pub mod Columns
pub mod Supported
pub mod Reconcile
pub mod Ready
mod Tests
use jackdaw.Base.{
  any, ◌==◌, String, List, Bool, Option, ◌&&◌, if◌then◌else◌, some, ◌∷◌, map, ◌++◌, none, [], not,
  true,
}
use jackdaw.Base.Text.{contains}

pub record Column : Type 0 where
  pub column : String
  pub declared : String

pub record Table : Type 0 where
  pub name : String
  pub columns : List Column

pub record Index : Type 0 where
  pub index : String
  pub table : String
  pub on_column : String

pub data Revision : Type 0 where
  initial_0001 authz_error_0002 : Revision

-- `version` is what the table `alembic_version` holds, if there is such a table.
pub record Schema : Type 0 where
  pub tables : List Table
  pub indexes : List Index
  pub version : Option (Option Revision)

abbrev pub in_columns : String → List Column → Bool
in_columns c columns = any (λ (k : Column). k.column == c) columns

abbrev pub column_in : String → String → Table → Bool
column_in t c table = table.name == t && in_columns c table.columns

unfoldable pub has_column : String → String → List Table → Bool
has_column t c tables = any (column_in t c) tables

unfoldable pub has_table : String → List Table → Bool
has_table t tables = any (λ (k : Table). k.name == t) tables

unfoldable pub has_index : String → List Index → Bool
has_index i indexes = any (λ (k : Index). k.index == i) indexes

pub data Statement : Type 0 where
  create_table : Table → Statement
  create_index : (if_not_exists : Bool) → Index → Statement
  add_column : (table : String) → Column → Statement

abbrev pub with_column : String → Column → Table → Table
with_column t c table =
    if table.name == t then record table { columns = table.columns ++ c ∷ [] } else table

unfoldable pub add_to : String → Column → List Table → List Table
add_to t c [] = []
add_to t c (table ∷ tables) = with_column t c table ∷ add_to t c tables

-- What SQLite does with a statement; `none` is an error.
abbrev pub execute : Statement → Schema → Option Schema
execute (create_table t) s =
    if has_table t.name s.tables then none else some (record s { tables = s.tables ++ t ∷ [] })
execute (create_index if_not_exists i) s =
    if has_index i.index s.indexes
    then (if if_not_exists then some s else none)
    else (if has_column i.table i.on_column s.tables
        then some (record s { indexes = s.indexes ++ i ∷ [] })
        else none)
execute (add_column t c) s =
    if has_table t s.tables && not (has_column t c.column s.tables)
    then some (record s { tables = add_to t c s.tables })
    else none

abbrev pub bind : Option Schema → (Schema → Option Schema) → Option Schema
bind none next = none
bind (some s) next = next s

unfoldable pub execute_all : List Statement → Schema → Option Schema
execute_all [] s = some s
execute_all (statement ∷ rest) s = bind (execute statement s) (execute_all rest)

abbrev pub text_column : String → Column
text_column c = record { column = c; declared = "TEXT" }

abbrev pub index_on : String → String → String → Index
index_on index table column = record { index = index; table = table; on_column = column }

-- `_PRE_ALEMBIC_COLUMNS`
abbrev pub late_columns : List (String × Column)
late_columns = ("orders", text_column "error") ∷ ("certificates", text_column "serial") ∷ []

-- `_PRE_ALEMBIC_INDEXES`
abbrev pub baseline_indexes : List Index
baseline_indexes =
    index_on "ix_accounts_public_key" "accounts" "public_key"
    ∷ index_on "ix_nonces_created_at" "nonces" "created_at"
    ∷ index_on "ix_orders_account_id" "orders" "account_id"
    ∷ index_on "ix_certificates_serial" "certificates" "serial"
    ∷ []

-- A column is added if `PRAGMA table_info` lists the table's columns and it is not among them.
abbrev pub add_if_missing : String → Column → Schema → Option Schema
add_if_missing t c s =
    if has_table t s.tables && not (has_column t c.column s.tables)
    then execute (add_column t c) s
    else some s

abbrev pub add_late : List (String × Column) → Schema → Option Schema
add_late [] s = some s
add_late ((t, c) ∷ rest) s = bind (add_if_missing t c s) (add_late rest)

unfoldable pub reconcile_pre_alembic : Schema → Option Schema
unfolding execute_all
reconcile_pre_alembic s =
    bind (add_late late_columns s) (execute_all (map (create_index true) baseline_indexes))

-- Alembic: `command.upgrade(cfg, "head")`, `none` if it raises, and `command.stamp`.
pub record Alembic : Type 0 where
  pub upgrade_head : Schema → Option Schema
  pub stamp : Revision → Schema → Schema

unfoldable pub run_migrations : Alembic → Schema → Option Schema
unfolding reconcile_pre_alembic has_table
run_migrations alembic s = elim s.version [
  | some revision ↦ alembic.upgrade_head s
  | none ↦
      if has_table "accounts" s.tables
      then bind (reconcile_pre_alembic s) (λ r. alembic.upgrade_head (alembic.stamp initial_0001 r))
      else alembic.upgrade_head s
]

-- `create_all` is `Base.metadata.create_all` of SQLAlchemy.
unfoldable pub init_db :
    Alembic → (Schema → Option Schema) → (url : String) → Schema → Option Schema
unfolding run_migrations contains
init_db alembic create_all url s =
    if contains url ":memory:" then create_all s else run_migrations alembic s
