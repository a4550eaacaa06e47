-- ===== src/Schema/Catalog/Tables.antt =====
-- The catalog of a database, and what an operation looks up in it.
use intelli_attend_smart_boa.Base.{
  String, Bool, true, false, Option, none, some, List, [], ◌∷◌, ◌&&◌, ◌||◌, same, if◌then◌else◌,
  some?, ◌^^◌,
}
use intelli_attend_smart_boa.Dict.{Dict, lookup}
use intelli_attend_smart_boa.Schema.{Kind, Column}

pub record Index : Type 0 where
  pub name : String
  pub table : String
  pub columns : List String
  pub is_unique : Bool

pub record Catalog : Type 0 where
  pub types : Dict (List String)
  pub tables : Dict (List Column)
  pub indexes : List Index

abbrev pub empty : Catalog
empty = record { types = []; tables = []; indexes = [] }

abbrev pub has {ℓ} : {V : Type ℓ} → String → Dict V → Bool
has name d = elim (lookup name d) [ none ↦ false | some v ↦ true ]

abbrev pub named : String → Index → Bool
named name i = same i.name name

abbrev pub on_table : String → Index → Bool
on_table table i = same i.table table

abbrev pub column_named : String → Column → Bool
column_named name col = same col.name name

-- Tables and indexes share their names.
abbrev pub taken : String → Catalog → Bool
taken name c = has name c.tables || some? (named name) c.indexes

abbrev pub has_column : String → List Column → Bool
has_column name cols = some? (column_named name) cols

-- `table` has every one of the columns.
abbrev pub has_columns : List Column → List String → Bool
has_columns cols [] = true
has_columns cols (name ∷ names) = has_column name cols && has_columns cols names

abbrev pub only : String → List String → Bool
only name [] = false
only name (x ∷ []) = same x name
only name (x ∷ y ∷ xs) = false

-- A primary key, or a column with a unique index of its own.
abbrev pub is_key : String → String → List Column → Catalog → Bool
is_key table name cols c =
    some? (λ col. col.primary_key && column_named name col) cols
    || some? (λ i. i.is_unique && on_table table i && only name i.columns) c.indexes

-- A foreign key refers to a key that the catalog has.
unfoldable pub finds_target : Option (String × String) → Catalog → Bool
finds_target none c = true
finds_target (some (table, name)) c = elim (lookup table c.tables) [
  | none ↦ false
  | some cols ↦ has_column name cols && is_key table name cols c
]

-- Every foreign key of the columns refers to a key of the catalog.
unfoldable pub find_keys : List Column → Catalog → Bool
unfolding finds_target
find_keys [] c = true
find_keys (col ∷ cols) c = finds_target col.foreign_key c && find_keys cols c

abbrev pub targets : String → Option (String × String) → Bool
targets table none = false
targets table (some (target, name)) = same target table

abbrev pub refers_to : String → Column → Bool
refers_to table col = targets table col.foreign_key

abbrev pub is_type : String → Kind → Bool
is_type name (Kind.enum type values) = same type name
is_type name _ = false

abbrev pub uses_type : String → Column → Bool
uses_type name col = is_type name col.kind

-- Some table has a column that passes the test.
abbrev pub some_column? : (Column → Bool) → Dict (List Column) → Bool
some_column? p [] = false
some_column? p ((table, cols) ∷ d) = some? p cols || some_column? p d

abbrev pub ix_name : String → String → String
ix_name table name = "ix_" ^^ table ^^ "_" ^^ name

abbrev pub key_name : String → String → String
key_name table name = table ^^ "_" ^^ name ^^ "_key"

-- The index of a column that is `index` or `unique`.
abbrev pub column_index : String → Column → Option Index
column_index table col =
    if col.index
    then some (record {
      name = ix_name table col.name;
      table = table;
      columns = col.name ∷ [];
      is_unique = col.unique;
    })
    else if col.unique
    then some (record {
      name = key_name table col.name;
      table = table;
      columns = col.name ∷ [];
      is_unique = true;
    })
    else none
