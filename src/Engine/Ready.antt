-- ===== src/Engine/Ready.antt =====
-- Every start ends with the schema that src/jackdaw/db/models.py reads.
use jackdaw.Engine.{
  Schema, Alembic, has_column, has_table, has_index, add_to, execute_all, bind, text_column,
  baseline_indexes, reconcile_pre_alembic, run_migrations, initial_0001, authz_error_0002, Revision,
}
use jackdaw.Engine.Revisions.{
  RunsRevisions, at_revision, authz_error_upgrade, initial_upgrade, initial_tables, initial_indexes,
}
use jackdaw.Engine.Columns.{has_column-has_table}
use jackdaw.Base.{
  ◌≡◌, String, true, [], ◌++◌, some, none, false, arith, refl, ap, ◌∙◌, Option, all-eq_true, subst,
  sym,
}
use jackdaw.Engine.Supported.{
  HasAll, IsReady, Grows, Supported, early_columns, fresh, late_pairs, unmanaged, HasIndexes,
  HasAll-Grows, initial, current,
}
use jackdaw.Engine.Reconcile.{has_early, Added-grown, reconcile_lem, grown}

-- The second revision on a file of the first.
authz_error_lem :
    (s : Schema)
    → HasAll early_columns s.tables
    → HasAll late_pairs s.tables
    → HasIndexes baseline_indexes s
    → has_column "authorizations" "error" s.tables ≡ false
    → (s' : Schema) × (bind
          (execute_all authz_error_upgrade s)
          (λ r. some (at_revision authz_error_0002 r))
        ≡ some s')
      × Grows s.tables s'.tables
      × IsReady s'
unfolding execute_all
authz_error_lem s early late indexed no_error =
    let k = text_column "error" in
    let (_, _, authorizations, _) = has_early s.tables early in
    let table = has_column-has_table "authorizations" "id" s.tables authorizations in
    let (there, grows, _, _, _) = Added-grown "authorizations" k s table in
    (
      at_revision authz_error_0002 (grown "authorizations" k s),
      rw (table, no_error) refl,
      grows,
      record {
        early =
            HasAll-Grows early_columns s.tables (add_to "authorizations" k s.tables) grows early;
        late = HasAll-Grows late_pairs s.tables (add_to "authorizations" k s.tables) grows late;
        authz_error = there;
        indexed = indexed;
        at_head = refl;
      },
    )

abbrev empty_file : Schema
empty_file = record { tables = []; indexes = []; version = none }

run-version :
    (alembic : Alembic) (s : Schema) (r : Option Revision)
    → s.version ≡ some r
    → run_migrations alembic s ≡ alembic.upgrade_head s
unfolding run_migrations
run-version alembic s r e = ground arith

run-unmanaged :
    (alembic : Alembic) (s r : Schema)
    → s.version ≡ none
    → has_table "accounts" s.tables ≡ true
    → reconcile_pre_alembic s ≡ some r
    → run_migrations alembic s ≡ alembic.upgrade_head (alembic.stamp initial_0001 r)
unfolding run_migrations
run-unmanaged alembic s r e t h = ground arith

-- What the two revisions make of an empty file.
abbrev head_file : Schema
head_file = record {
  tables = add_to "authorizations" (text_column "error") initial_tables;
  indexes = initial_indexes;
  version = some (some authz_error_0002);
}

head_file-IsReady : IsReady head_file
unfolding has_column has_index add_to
head_file-IsReady = record {
  early =
      all-eq_true (λ (p : String × String). has_column p.0 p.1 head_file.tables) early_columns refl;
  late = (refl, (refl, tt));
  authz_error = refl;
  indexed = (refl, (refl, (refl, (refl, tt))));
  at_head = refl;
}

all_revisions :
    execute_all (initial_upgrade ++ authz_error_upgrade) empty_file
    ≡ some (record head_file { version = none })
unfolding execute_all has_column has_index has_table add_to
all_revisions = refl

-- The start succeeds with a ready schema that lost no column.
abbrev pub Starts : Alembic → Schema → Type 0
Starts alembic s =
    (s' : Schema) × (run_migrations alembic s ≡ some s') × Grows s.tables s'.tables × IsReady s'

no_columns : (t c : String) → has_column t c [] ≡ false
unfolding has_column
no_columns t c = refl

run-empty :
    (alembic : Alembic) → run_migrations alembic empty_file ≡ alembic.upgrade_head empty_file
unfolding run_migrations has_table
run-empty alembic = refl

empty_file-Starts : (alembic : Alembic) → RunsRevisions alembic → Starts alembic empty_file
empty_file-Starts alembic runs = (
  head_file,
  run-empty alembic
      ∙ (runs.from_nothing empty_file refl
          ∙ ap (λ o. bind o (λ r. some (at_revision authz_error_0002 r))) all_revisions),
  (λ t c h. absurd (cc (h, no_columns t c))),
  head_file-IsReady,
)

-- A start on any supported file succeeds, leaves a schema with every column and index of the models
-- at the second revision, and loses no column: on an empty file, on one of a release before Alembic
-- whatever late columns and indexes it lacks, on one at the first revision and on one at the second.
pub run_migrations-IsReady :
    (alembic : Alembic) (s : Schema)
    → RunsRevisions alembic
    → Supported s
    → (s' : Schema) × (run_migrations alembic s ≡ some s') × Grows s.tables s'.tables × IsReady s'
run_migrations-IsReady alembic s runs (fresh _ e) =
    subst (Starts alembic) (sym e) (empty_file-Starts alembic runs)
run_migrations-IsReady alembic s runs (unmanaged _ v early no_error) =
    let (_, _, _, accounts) = has_early s.tables early in
    let (r, e, grows, late, indexed, no_error') = reconcile_lem s early no_error in
    let (s', e', grows', ready) =
      authz_error_lem (at_revision initial_0001 r)
        (HasAll-Grows early_columns s.tables r.tables grows early) late indexed no_error' in
    (
      s',
      run-unmanaged alembic s r v (has_column-has_table "accounts" "id" s.tables accounts) e
          ∙ (ap alembic.upgrade_head (runs.stamps initial_0001 r)
              ∙ (runs.from_initial (at_revision initial_0001 r) refl ∙ e')),
      (λ t c h. grows' t c (grows t c h)),
      ready,
    )
run_migrations-IsReady alembic s runs (initial _ v early late indexed no_error) =
    let (s', e, grows, ready) = authz_error_lem s early late indexed no_error in
    (s', run-version alembic s (some initial_0001) v ∙ (runs.from_initial s v ∙ e), grows, ready)
run_migrations-IsReady alembic s runs (current _ ready) = (
  s,
  run-version alembic s (some authz_error_0002) ready.at_head ∙ runs.at_head s ready.at_head,
  (λ t c h. h),
  ready,
)
