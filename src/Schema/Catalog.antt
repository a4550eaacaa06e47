-- ===== src/Schema/Catalog.antt =====
-- What Alembic, SQLAlchemy and PostgreSQL document of the operations, as changes of the catalog
-- that a database keeps of its tables, indexes and enumerated types. `none` is an error.
-- `op.create_table` creates the type of an enumerated column and does not look whether it exists
-- (it passes `checkfirst=False`).
mod Tables
unfoldable pub use Tables.*
use intelli_attend_smart_boa.Base.{
  ℕ, String, Bool, true, false, Option, none, some, List, [], ◌∷◌, ◌++◌, ◌&&◌, ◌||◌, not, same,
  if◌then◌else◌, some?, keep, ◌^^◌,
}
use intelli_attend_smart_boa.Dict.{Dict, lookup, insert, erase}
use intelli_attend_smart_boa.Schema.{Kind, Column, Op}

unfoldable pub add_index : Index → Catalog → Option Catalog
add_index i c = if taken i.name c then none else some (record c { indexes = c.indexes ++ i ∷ [] })

unfoldable pub add_indexes : String → List Column → Catalog → Option Catalog
unfolding add_index
add_indexes table [] c = some c
add_indexes table (col ∷ cols) c = elim (column_index table col) [
  | none ↦ add_indexes table cols c
  | some i ↦ elim (add_index i c) [ none ↦ none | some c' ↦ add_indexes table cols c' ]
]

unfoldable pub create_type : String → List String → Dict (List String) → Option (Dict (List String))
create_type name values types = if has name types then none else some (types ++ (name, values) ∷ [])

unfoldable pub without_index : String → Catalog → Catalog
without_index name c = record c { indexes = keep (λ i. not (named name i)) c.indexes }

unfoldable pub create_kind : Kind → Dict (List String) → Option (Dict (List String))
unfolding create_type
create_kind (Kind.enum name values) types = create_type name values types
create_kind _ types = some types

unfoldable pub create_column_types : List Column → Dict (List String) → Option (Dict (List String))
unfolding create_kind
create_column_types [] types = some types
create_column_types (col ∷ cols) types = elim (create_kind col.kind types) [
  | none ↦ none
  | some types' ↦ create_column_types cols types'
]

unfoldable pub create_table : String → List Column → Catalog → Option Catalog
unfolding create_column_types find_keys add_indexes
create_table name cols c = elim (create_column_types cols c.types) [
  | none ↦ none
  | some types ↦
      if taken name c || not (find_keys cols c)
      then none
      else add_indexes name cols
          (record c { types = types; tables = c.tables ++ (name, cols) ∷ [] })
]

unfoldable pub add_column : String → Column → Catalog → Option Catalog
unfolding create_kind finds_target add_indexes
add_column table col c = elim (create_kind col.kind c.types) [
  | none ↦ none
  | some types ↦ elim (lookup table c.tables) [
    | none ↦ none
    | some cols ↦
        if has_column col.name cols || not (finds_target col.foreign_key c)
        then none
        else add_indexes table (col ∷ [])
            (record c { types = types; tables = insert table (cols ++ col ∷ []) c.tables })
  ]
]

unfoldable pub create_index : Bool → (name table : String) → List String → Catalog → Option Catalog
unfolding add_index
create_index is_unique name table columns c = elim (lookup table c.tables) [
  | none ↦ none
  | some cols ↦
      if has_columns cols columns
      then add_index
          (record { name = name; table = table; columns = columns; is_unique = is_unique }) c
      else none
]

-- `DROP TYPE IF EXISTS`: a type that a column has is not dropped.
unfoldable pub drop_type : String → Catalog → Option Catalog
drop_type name c =
    if some_column? (uses_type name) c.tables
    then none
    else some (record c { types = erase name c.types })

-- The indexes of a table go with it; a table that another one refers to is not dropped.
unfoldable pub drop_table : String → Catalog → Option Catalog
drop_table name c =
    if has name c.tables && not (some_column? (refers_to name) (erase name c.tables))
    then some (record c {
      tables = erase name c.tables;
      indexes = keep (λ i. not (on_table name i)) c.indexes;
    })
    else none

unfoldable pub drop_index : String → String → Catalog → Option Catalog
drop_index name table c =
    if some? (λ i. named name i && on_table table i) c.indexes
    then some (record c { indexes = keep (λ i. not (named name i)) c.indexes })
    else none

abbrev pub targets_column : String → String → Option (String × String) → Bool
targets_column table name none = false
targets_column table name (some (target, key)) = same target table && same key name

abbrev pub refers_to_column : String → String → Column → Bool
refers_to_column table name col = targets_column table name col.foreign_key

-- The indexes on a column go with it; a column that a foreign key refers to is not dropped.
unfoldable pub drop_column : String → String → Catalog → Option Catalog
drop_column table name c = elim (lookup table c.tables) [
  | none ↦ none
  | some cols ↦
      if has_column name cols && not (some_column? (refers_to_column table name) c.tables)
      then some (record c {
        tables = insert table (keep (λ col. not (column_named name col)) cols) c.tables;
        indexes = keep (λ i. not (on_table table i && some? (same name) i.columns)) c.indexes;
      })
      else none
]

unfoldable pub perform : Op → Catalog → Option Catalog
unfolding create_type create_table drop_table create_index add_column drop_type drop_index
    drop_column
perform (Op.create_type name values) c = elim (create_type name values c.types) [
  | none ↦ none
  | some types ↦ some (record c { types = types })
]
perform (Op.drop_type name) c = drop_type name c
perform (Op.create_table name cols) c = create_table name cols c
perform (Op.drop_table name) c = drop_table name c
perform (Op.create_index name table columns) c = create_index false name table columns c
perform (Op.create_unique_constraint name table columns) c = create_index true name table columns c
perform (Op.add_column table col) c = add_column table col c
perform (Op.drop_index name table) c = drop_index name table c
perform (Op.drop_column table name) c = drop_column table name c

unfoldable pub perform_all : List Op → Catalog → Option Catalog
unfolding perform
perform_all [] c = some c
perform_all (op ∷ ops) c = elim (perform op c) [ none ↦ none | some c' ↦ perform_all ops c' ]
