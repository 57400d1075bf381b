-- ===== src/Engine/Columns.antt =====
-- The columns of the tables after one was added.
use jackdaw.Engine.{Column, Table, has_column, has_table, add_to, in_columns}
use jackdaw.Base.{
  String, List, ◌++◌, ◌≡◌, ◌≢◌, ◌∷◌, true, [], arith, ◌||◌, eq_refl, eq_iff, refl, ◌==◌,
}

in_columns-append :
    (c : String) (columns : List Column) (k : Column)
    → in_columns c (columns ++ k ∷ []) ≡ in_columns c columns || k.column == c
in_columns-append c [] k = ground arith
in_columns-append c (x ∷ columns) k = let ih = in_columns-append c columns k in ground arith

pub has_table-add_to :
    (t u : String) (k : Column) (tables : List Table)
    → has_table t (add_to u k tables) ≡ has_table t tables
unfolding has_table add_to
has_table-add_to t u k [] = refl
has_table-add_to t u k (x ∷ tables) = let ih = has_table-add_to t u k tables in ground arith

-- An old column stays.
pub has_column_stays :
    (t c u : String) (k : Column) (tables : List Table)
    → has_column t c tables ≡ true
    → has_column t c (add_to u k tables) ≡ true
unfolding has_column add_to
has_column_stays t c u k [] h = h
has_column_stays t c u k (x ∷ tables) h =
    let ih = has_column_stays t c u k tables in
    let e = in_columns-append c x.columns k in ground (arith, ih)

-- The new column is there, if its table is.
pub has_column_added :
    (t : String) (k : Column) (tables : List Table)
    → has_table t tables ≡ true
    → has_column t k.column (add_to t k tables) ≡ true
unfolding has_column has_table add_to
has_column_added t k [] h = absurd (cc)
has_column_added t k (x ∷ tables) h =
    let ih = has_column_added t k tables in
    let e = in_columns-append k.column x.columns k in ground (arith, ih, eq_refl k.column)

-- Other tables stay as they are.
pub has_column_elsewhere :
    (t c u : String) (k : Column) (tables : List Table)
    → u ≢ t
    → has_column t c (add_to u k tables) ≡ has_column t c tables
unfolding has_column add_to
has_column_elsewhere t c u k [] ne = refl
has_column_elsewhere t c u k (x ∷ tables) ne =
    let ih = has_column_elsewhere t c u k tables ne in
    ground (arith, eq_iff x.name u, eq_iff x.name t)

-- A column is in a table.
pub has_column-has_table :
    (t c : String) (tables : List Table) → has_column t c tables ≡ true → has_table t tables ≡ true
unfolding has_column has_table
has_column-has_table t c [] h = h
has_column-has_table t c (x ∷ tables) h =
    let ih = has_column-has_table t c tables in ground (arith, ih)
