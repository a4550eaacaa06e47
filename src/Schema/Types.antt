-- ===== src/Schema/Types.antt =====
-- A type that exists stays, and the creation of a table with an enumerated column of it fails.
mod Kept
unfoldable pub use Kept.*
use mathlib.Core.Path.{subst}
use intelli_attend_smart_boa.Base.{
  String, Bool, true, false, Option, none, some, List, [], ◌∷◌, ◌++◌, ◌≡◌, refl, sym, ap, ◌∙◌, ◌&&◌,
  ◌||◌, not, same, same_iff, if◌then◌else◌, some?, arith, inl, inr, Bool-cases, Option-cases,
}
use intelli_attend_smart_boa.Dict.{Dict, lookup, insert, erase, lookup-erase}
use intelli_attend_smart_boa.Schema.{Kind, Column, Op}
use intelli_attend_smart_boa.Schema.Catalog.{
  Index, Catalog, has, is_type, uses_type, column_index, add_index, add_indexes, create_type,
  create_kind, create_column_types, create_table, taken, find_keys, finds_target, has_column,
  add_column, create_index, drop_type, drop_table, drop_index, drop_column, perform, perform_all,
}

module _ (n : String) (c : Catalog) (h : has n c.types ≡ true) where
  create_table-KeepsType :
      (name : String) (cols : List Column) → KeepsType n (create_table name cols c)
  unfolding create_table
  create_table-KeepsType name cols = elim (Option-cases (create_column_types cols c.types)) [
    | inl e ↦ rw (e, create_table) tt
    | inr (types, e) ↦
        let h' : has n types ≡ true =
          subst (Keeps n) e (create_column_types-Keeps n cols c.types h) in
        let b : Catalog = record c { types = types; tables = c.tables ++ (name, cols) ∷ [] } in
        rw (e, create_table)
          (elim (Bool-cases (taken name c || not (find_keys cols c))) [
            | inl f ↦ rw f tt
            | inr f ↦ rw f (
                HasTypes-KeepsType n types (add_indexes name cols b) h'
                  (add_indexes-HasTypes name cols b))
          ])
  ]

  add_column-KeepsType : (table : String) (col : Column) → KeepsType n (add_column table col c)
  unfolding add_column
  add_column-KeepsType table col = elim (Option-cases (create_kind col.kind c.types)) [
    | inl e ↦ rw (e, add_column) tt
    | inr (types, e) ↦
        let h' : has n types ≡ true = subst (Keeps n) e (create_kind-Keeps n col.kind c.types h) in
        rw (e, add_column)
          (elim (Option-cases (lookup table c.tables)) [
            | inl f ↦ rw f tt
            | inr (cols, f) ↦
                let b : Catalog = record c {
                  types = types;
                  tables = insert table (cols ++ col ∷ []) c.tables;
                } in
                rw f
                  (elim (Bool-cases
                    (has_column col.name cols || not (finds_target col.foreign_key c))) [
                      | inl g ↦ rw g tt
                      | inr g ↦ rw g (
                          HasTypes-KeepsType n types (add_indexes table (col ∷ []) b) h'
                            (add_indexes-HasTypes table (col ∷ []) b))
                    ])
          ])
  ]

  create_index-KeepsType :
      (unique : Bool) (name table : String) (columns : List String)
      → KeepsType n (create_index unique name table columns c)
  unfolding create_index add_index
  create_index-KeepsType unique name table columns = elim (Option-cases (lookup table c.tables)) [
    | inl e ↦ rw (e, create_index) tt
    | inr (cols, e) ↦ ground (arith, h)
  ]

  drop_column-KeepsType : (table name : String) → KeepsType n (drop_column table name c)
  unfolding drop_column
  drop_column-KeepsType table name = elim (Option-cases (lookup table c.tables)) [
    | inl e ↦ rw (e, drop_column) tt
    | inr (cols, e) ↦ ground (arith, h)
  ]

  drop_type-KeepsType : (m : String) → same m n ≡ false → KeepsType n (drop_type m c)
  unfolding drop_type
  drop_type-KeepsType m ne = ground (arith, lookup-erase m n c.types)

  create_type-KeepsType :
      (m : String) (values : List String) → KeepsType n (perform (Op.create_type m values) c)
  unfolding perform
  create_type-KeepsType m values = elim (Option-cases (create_type m values c.types)) [
    | inl e ↦ rw (e, perform) tt
    | inr (types, e) ↦ rw (e, perform) (subst (Keeps n) e (create_type-Keeps n m values c.types h))
  ]

  -- Only its own `drop_type` takes a type away.
  perform-KeepsType : (op : Op) → drops_type n op ≡ false → KeepsType n (perform op c)
  unfolding perform drop_table drop_index
  perform-KeepsType (Op.create_type m values) k = create_type-KeepsType m values
  perform-KeepsType (Op.drop_type m) k = drop_type-KeepsType m k
  perform-KeepsType (Op.create_table name cols) k = create_table-KeepsType name cols
  perform-KeepsType (Op.drop_table name) k = ground (arith, h)
  perform-KeepsType (Op.create_index name table columns) k =
      create_index-KeepsType false name table columns
  perform-KeepsType (Op.create_unique_constraint name table columns) k =
      create_index-KeepsType true name table columns
  perform-KeepsType (Op.add_column table col) k = add_column-KeepsType table col
  perform-KeepsType (Op.drop_index name table) k = ground (arith, h)
  perform-KeepsType (Op.drop_column table name) k = drop_column-KeepsType table name

  -- The creation of a table with a column of the type is refused.
  perform-none : (op : Op) → adds_type n op ≡ true → perform op c ≡ none
  unfolding perform create_table
  perform-none (Op.create_table name cols) k =
      rw (perform, create_table, create_column_types-none n cols c.types k h) refl
  perform-none (Op.create_type m values) k = ground arith
  perform-none (Op.drop_type m) k = ground arith
  perform-none (Op.drop_table name) k = ground arith
  perform-none (Op.create_index name table columns) k = ground arith
  perform-none (Op.create_unique_constraint name table columns) k = ground arith
  perform-none (Op.add_column table col) k = ground arith
  perform-none (Op.drop_index name table) k = ground arith
  perform-none (Op.drop_column table name) k = ground arith

pub perform_all-none :
    (n : String) (ops : List Op) (c : Catalog)
    → has n c.types ≡ true
    → collides n ops ≡ true
    → perform_all ops c ≡ none
unfolding perform_all collides
perform_all-none n [] c h k = ground arith
perform_all-none n (op ∷ ops) c h k = elim (Option-cases (perform op c)) [
  | inl e ↦ rw (e, perform_all) refl
  | inr (c', e) ↦
      rw (e, perform_all)
        (elim (Bool-cases (adds_type n op)) [
          | inl f ↦ absurd (ground (arith, perform-none n c h op f))
          | inr f ↦
              perform_all-none n ops c'
                (subst (KeepsType n) e (perform-KeepsType n c h op (ground arith))) (ground arith)
        ])
]

-- A type that is created first and then by a table again.
pub create_type-none :
    (n : String) (values : List String) (ops : List Op) (c : Catalog)
    → collides n ops ≡ true
    → perform_all (Op.create_type n values ∷ ops) c ≡ none
unfolding perform_all perform create_type
create_type-none n values ops c k = elim (Bool-cases (has n c.types)) [
  | inl e ↦ rw (perform_all, perform, create_type, e) refl
  | inr e ↦
      rw (perform_all, perform, create_type, e)
        (perform_all-none n ops (record c { types = c.types ++ (n, values) ∷ [] })
          (has-append_last n c.types values) k)
]
