-- ===== src/Engine/Reconcile.antt =====
-- What `_reconcile_pre_alembic` does to a file of an early release.
use jackdaw.Engine.{
  Column, Table, Index, Schema, has_column, has_table, has_index, add_to, execute, execute_all,
  bind, create_index, text_column, baseline_indexes, add_if_missing, add_late,
  reconcile_pre_alembic,
}
use jackdaw.Engine.Columns.{
  has_column_stays, has_column_added, has_column_elsewhere, has_column-has_table,
}
use jackdaw.Base.{
  List, ◌≡◌, String, All, ◌∷◌, true, [], ◌++◌, some, ◌≢◌, false, arith, Bool-cases, eq_refl, refl,
  inl, inr, ap, map, ◌∙◌, eq_iff, Option,
}
use jackdaw.Engine.Supported.{Grows, HasIndexes, HasAll, early_columns, late_pairs, HasAll-Grows}

abbrev pub Added : String → String → Schema → Schema → Type 0
Added t c s s' =
    (has_column t c s'.tables ≡ true)
    × Grows s.tables s'.tables
    × ((u d : String) → t ≢ u → has_column u d s'.tables ≡ has_column u d s.tables)
    × (s'.indexes ≡ s.indexes)
    × (s'.version ≡ s.version)

abbrev pub grown : String → Column → Schema → Schema
grown t k s = record s { tables = add_to t k s.tables }

pub Added-grown :
    (t : String) (k : Column) (s : Schema)
    → has_table t s.tables ≡ true
    → Added t k.column s (grown t k s)
Added-grown t k s h = (
  has_column_added t k s.tables h,
  (λ u d e. has_column_stays u d t k s.tables e),
  (λ u d ne. has_column_elsewhere u d t k s.tables ne),
  refl,
  refl,
)

add_if_missing-Added :
    (t : String) (k : Column) (s : Schema)
    → has_table t s.tables ≡ true
    → (s' : Schema) × (add_if_missing t k s ≡ some s') × Added t k.column s s'
add_if_missing-Added t k s h = elim (Bool-cases (has_column t k.column s.tables)) [
  | inl e ↦ (s, rw (h, e) refl, (e, (λ u d x. x), (λ u d ne. refl), refl, refl))
  | inr n ↦ (grown t k s, rw (h, n) refl, Added-grown t k s h)
]

has_index-append :
    (i : String) (indexes : List Index) (k : Index)
    → has_index i indexes ≡ true
    → has_index i (indexes ++ k ∷ []) ≡ true
unfolding has_index
has_index-append i [] k h = absurd (cc)
has_index-append i (x ∷ indexes) k h = let ih = has_index-append i indexes k in ground (arith, ih)

has_index-last : (indexes : List Index) (k : Index) → has_index k.index (indexes ++ k ∷ []) ≡ true
unfolding has_index
has_index-last [] k = ground (arith, eq_refl k.index)
has_index-last (x ∷ indexes) k = let ih = has_index-last indexes k in ground (arith, ih)

-- What creating indexes does to a schema with their columns.
abbrev Indexed : List Index → Schema → Schema → Type 0
Indexed indexes s s' =
    (s'.tables ≡ s.tables)
    × (s'.version ≡ s.version)
    × HasIndexes indexes s'
    × ((i : String) → has_index i s.indexes ≡ true → has_index i s'.indexes ≡ true)

abbrev HasColumns : List Index → Schema → Type 0
HasColumns indexes s = All (λ (i : Index). has_column i.table i.on_column s.tables ≡ true) indexes

-- One of them.
create_index-Indexed :
    (i : Index) (s : Schema)
    → has_column i.table i.on_column s.tables ≡ true
    → (s' : Schema) × (execute (create_index true i) s ≡ some s') × Indexed (i ∷ []) s s'
create_index-Indexed i s h = elim (Bool-cases (has_index i.index s.indexes)) [
  | inl e ↦ (s, rw e refl, (refl, refl, (e, tt), (λ k x. x)))
  | inr n ↦ (
    record s { indexes = s.indexes ++ i ∷ [] },
    rw (n, h) refl,
    (refl, refl, (has_index-last s.indexes i, tt), (λ k x. has_index-append k s.indexes i x)),
  )
]

HasColumns-tables :
    (indexes : List Index) (s s' : Schema)
    → s'.tables ≡ s.tables
    → HasColumns indexes s
    → HasColumns indexes s'
HasColumns-tables [] s s' e h = tt
HasColumns-tables (i ∷ indexes) s s' e (h, hs) =
    (ap (has_column i.table i.on_column) e ∙ h, HasColumns-tables indexes s s' e hs)

create_indexes-Indexed :
    (indexes : List Index) (s : Schema)
    → HasColumns indexes s
    → (s' : Schema) × (execute_all (map (create_index true) indexes) s ≡ some s')
      × Indexed indexes s s'
unfolding execute_all
create_indexes-Indexed [] s h = (s, refl, (refl, refl, tt, (λ k x. x)))
create_indexes-Indexed (i ∷ indexes) s (h, hs) =
    let (s', e, (t, v, (has, _), keep)) = create_index-Indexed i s h in
    let (s'', e', (t', v', all_of, keep')) =
      create_indexes-Indexed indexes s' (HasColumns-tables indexes s s' t hs) in
    (s'', rw e e', (t' ∙ t, v' ∙ v, (keep' i.index has, all_of), (λ k x. keep' k (keep k x))))

abbrev create_baseline : Schema → Option Schema
create_baseline s = execute_all (map (create_index true) baseline_indexes) s

reconcile-steps :
    (s s1 s2 r : Schema)
    → add_if_missing "orders" (text_column "error") s ≡ some s1
    → add_if_missing "certificates" (text_column "serial") s1 ≡ some s2
    → create_baseline s2 ≡ some r
    → reconcile_pre_alembic s ≡ some r
unfolding reconcile_pre_alembic
reconcile-steps s s1 s2 r e1 e2 e3 =
    ap (λ o. bind (bind o (add_late (("certificates", text_column "serial") ∷ []))) create_baseline)
      e1
    ∙ (ap (λ o. bind (bind o (add_late [])) create_baseline) e2 ∙ e3)

-- A pre-Alembic file after the reconciliation.
pub has_early :
    (tables : List Table)
    → HasAll early_columns tables
    → (has_column "orders" "id" tables ≡ true)
      × (has_column "certificates" "id" tables ≡ true)
      × (has_column "authorizations" "id" tables ≡ true)
      × (has_column "accounts" "id" tables ≡ true)
has_early tables h = ground arith

index_columns :
    (s : Schema)
    → HasAll early_columns s.tables
    → has_column "certificates" "serial" s.tables ≡ true
    → HasColumns baseline_indexes s
index_columns s h k = ground arith

pub reconcile_lem :
    (s : Schema)
    → HasAll early_columns s.tables
    → has_column "authorizations" "error" s.tables ≡ false
    → (r : Schema) × (reconcile_pre_alembic s ≡ some r)
      × Grows s.tables r.tables
      × HasAll late_pairs r.tables
      × HasIndexes baseline_indexes r
      × (has_column "authorizations" "error" r.tables ≡ false)
unfolding reconcile_pre_alembic
reconcile_lem s early no_error =
    let (orders, certificates, _, _) = has_early s.tables early in
    let (s1, e1, (c1, g1, else1, i1, v1)) =
      add_if_missing-Added "orders" (text_column "error") s
        (has_column-has_table "orders" "id" s.tables orders) in
    let (s2, e2, (c2, g2, else2, i2, v2)) =
      add_if_missing-Added "certificates" (text_column "serial") s1 (
        has_column-has_table "certificates" "id" s1.tables (g1 "certificates" "id" certificates)) in
    let grows : Grows s.tables s2.tables = λ t c h. g2 t c (g1 t c h) in
    let (r, e3, (t3, v3, all_of, keep)) =
      create_indexes-Indexed baseline_indexes s2
        (index_columns s2 (HasAll-Grows early_columns s.tables s2.tables grows early) c2) in
    (
      r,
      reconcile-steps s s1 s2 r e1 e2 e3,
      (λ t c h. ap (has_column t c) t3 ∙ grows t c h),
      (
        ap (has_column "orders" "error") t3 ∙ g2 "orders" "error" c1,
        (ap (has_column "certificates" "serial") t3 ∙ c2, tt),
      ),
      all_of,
      ap (has_column "authorizations" "error") t3
          ∙ (else2 "authorizations" "error"
                (λ q. ground (arith, eq_iff "certificates" "authorizations"))
              ∙ (else1 "authorizations" "error"
                    (λ q. ground (arith, eq_iff "orders" "authorizations"))
                  ∙ no_error)),
    )
