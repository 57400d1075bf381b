-- ===== src/Engine/Revisions.antt =====
-- src/jackdaw/migrations/versions: the statements of the two revisions, and how Alembic runs them.
use jackdaw.Engine.{
  Column, Table, Statement, Index, create_table, create_index, add_column, Schema, Revision,
  initial_0001, authz_error_0002, Alembic, execute_all, bind, index_on, text_column,
}
use jackdaw.Base.{String, List, some, ◌≡◌, ◌∷◌, map, none, [], ◌++◌, false}

abbrev col : String → String → Column
col name declared = record { column = name; declared = declared }

-- `_TABLES`; the primary and foreign keys are left out.
abbrev pub initial_tables : List Table
initial_tables =
    record {
      name = "accounts";
      columns =
          col "id" "VARCHAR NOT NULL"
          ∷ col "public_key" "TEXT NOT NULL"
          ∷ col "contact" "TEXT"
          ∷ col "status" "VARCHAR NOT NULL"
          ∷ col "created_at" "DATETIME NOT NULL"
          ∷ [];
    }
    ∷ record {
      name = "certificates";
      columns =
          col "id" "VARCHAR NOT NULL"
          ∷ col "order_id" "VARCHAR NOT NULL"
          ∷ col "pem_chain" "TEXT NOT NULL"
          ∷ col "issued_at" "DATETIME NOT NULL"
          ∷ col "expires_at" "DATETIME NOT NULL"
          ∷ col "serial" "VARCHAR"
          ∷ [];
    }
    ∷ record {
      name = "nonces";
      columns =
          col "value" "VARCHAR NOT NULL"
          ∷ col "used" "BOOLEAN NOT NULL"
          ∷ col "created_at" "DATETIME NOT NULL"
          ∷ [];
    }
    ∷ record {
      name = "orders";
      columns =
          col "id" "VARCHAR NOT NULL"
          ∷ col "account_id" "VARCHAR NOT NULL"
          ∷ col "status" "VARCHAR NOT NULL"
          ∷ col "identifiers" "TEXT NOT NULL"
          ∷ col "le_order_url" "TEXT"
          ∷ col "cert_id" "VARCHAR"
          ∷ col "expires_at" "DATETIME"
          ∷ col "created_at" "DATETIME NOT NULL"
          ∷ col "error" "TEXT"
          ∷ [];
    }
    ∷ record {
      name = "authorizations";
      columns =
          col "id" "VARCHAR NOT NULL"
          ∷ col "order_id" "VARCHAR NOT NULL"
          ∷ col "identifier" "VARCHAR NOT NULL"
          ∷ col "status" "VARCHAR NOT NULL"
          ∷ col "challenge_token" "VARCHAR"
          ∷ col "le_authz_url" "TEXT"
          ∷ col "created_at" "DATETIME NOT NULL"
          ∷ [];
    }
    ∷ []

abbrev pub initial_indexes : List Index
initial_indexes =
    index_on "ix_accounts_public_key" "accounts" "public_key"
    ∷ index_on "ix_certificates_serial" "certificates" "serial"
    ∷ index_on "ix_nonces_created_at" "nonces" "created_at"
    ∷ index_on "ix_orders_account_id" "orders" "account_id"
    ∷ []

-- `upgrade` of 0001_initial_schema.py
abbrev pub initial_upgrade : List Statement
initial_upgrade = map create_table initial_tables ++ map (create_index false) initial_indexes

-- `upgrade` of 0002_authz_error.py
abbrev pub authz_error_upgrade : List Statement
authz_error_upgrade = add_column "authorizations" (text_column "error") ∷ []

abbrev pub at_revision : Revision → Schema → Schema
at_revision r s = record s { version = some (some r) }

-- Alembic runs the revisions that follow the one in `alembic_version`, in the order of their
-- `down_revision`, and records the last.
pub record RunsRevisions (alembic : Alembic) : Type 0 where
  pub stamps : (r : Revision) (s : Schema) → alembic.stamp r s ≡ at_revision r s
  pub from_nothing :
      (s : Schema)
      → s.version ≡ none
      → alembic.upgrade_head s
        ≡ bind
            (execute_all (initial_upgrade ++ authz_error_upgrade) s)
            (λ r. some (at_revision authz_error_0002 r))
  pub from_initial :
      (s : Schema)
      → s.version ≡ some (some initial_0001)
      → alembic.upgrade_head s
        ≡ bind (execute_all authz_error_upgrade s) (λ r. some (at_revision authz_error_0002 r))
  pub at_head :
      (s : Schema) → s.version ≡ some (some authz_error_0002) → alembic.upgrade_head s ≡ some s
