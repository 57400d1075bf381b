-- ===== src/Engine/Tests.antt =====
-- The start on a concrete file of an early release.
use jackdaw.Engine.{
  Column, Schema, Alembic, bind, execute_all, run_migrations, has_column, index_on, initial_0001,
  authz_error_0002, Revision, text_column, init_db,
}
use jackdaw.Engine.Revisions.{RunsRevisions, at_revision, initial_upgrade, authz_error_upgrade}
use jackdaw.Engine.Supported.{IsReady, Grows, Supported, unmanaged, early_columns}
use jackdaw.Engine.Ready.{run_migrations-IsReady}
use jackdaw.Base.Text.{contains}
use jackdaw.Base.{Option, ap, List, ◌∷◌, all-eq_true, ◌≡◌, none, some, ◌++◌, String, [], refl}

abbrev head_of : Schema → Option Schema
head_of s = some (at_revision authz_error_0002 s)

abbrev upgrade_at : Option (Option Revision) → Schema → Option Schema
upgrade_at none s = bind (execute_all (initial_upgrade ++ authz_error_upgrade) s) head_of
upgrade_at (some none) s = bind (execute_all (initial_upgrade ++ authz_error_upgrade) s) head_of
upgrade_at (some (some initial_0001)) s = bind (execute_all authz_error_upgrade s) head_of
upgrade_at (some (some authz_error_0002)) s = some s

abbrev small_alembic : Alembic
small_alembic = record { upgrade_head = λ s. upgrade_at s.version s; stamp = at_revision }

small_alembic-RunsRevisions : RunsRevisions small_alembic
small_alembic-RunsRevisions = record {
  stamps = λ r s. refl;
  from_nothing = λ s e. ap (λ v. upgrade_at v s) e;
  from_initial = λ s e. ap (λ v. upgrade_at v s) e;
  at_head = λ s e. ap (λ v. upgrade_at v s) e;
}

abbrev texts : List String → List Column
texts [] = []
texts (c ∷ cs) = text_column c ∷ texts cs

-- Without the late columns, and with one of the indexes.
abbrev early_file : Schema
early_file = record {
  tables =
      record {
        name = "accounts";
        columns = texts ("id" ∷ "public_key" ∷ "contact" ∷ "status" ∷ "created_at" ∷ []);
      }
      ∷ record {
        name = "certificates";
        columns = texts ("id" ∷ "order_id" ∷ "pem_chain" ∷ "issued_at" ∷ "expires_at" ∷ []);
      }
      ∷ record { name = "nonces"; columns = texts ("value" ∷ "used" ∷ "created_at" ∷ []) }
      ∷ record {
        name = "orders";
        columns = texts (
            "id" ∷ "account_id" ∷ "status" ∷ "identifiers" ∷ "le_order_url" ∷ "cert_id"
            ∷ "expires_at" ∷ "created_at" ∷ []);
      }
      ∷ record {
        name = "authorizations";
        columns = texts (
            "id" ∷ "order_id" ∷ "identifier" ∷ "status" ∷ "challenge_token" ∷ "le_authz_url"
            ∷ "created_at" ∷ []);
      }
      ∷ [];
  indexes = index_on "ix_accounts_public_key" "accounts" "public_key" ∷ [];
  version = none;
}

early_file-Supported : Supported early_file
unfolding has_column
early_file-Supported =
    unmanaged early_file refl
      (all-eq_true (λ (p : String × String). has_column p.0 p.1 early_file.tables) early_columns
        refl)
      refl

run_migrations-IsReady_example :
    (s' : Schema) × (run_migrations small_alembic early_file ≡ some s')
    × Grows early_file.tables s'.tables
    × IsReady s'
run_migrations-IsReady_example =
    run_migrations-IsReady small_alembic early_file small_alembic-RunsRevisions early_file-Supported

in_memory : init_db small_alembic (λ s. none) "sqlite+aiosqlite:///:memory:" early_file ≡ none
unfolding init_db contains
in_memory = refl
