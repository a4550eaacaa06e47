-- ===== src/Schema/Grow.antt =====
-- Each operation does beside another catalog what it does alone.
mod Columns
unfoldable pub use Columns.*
use intelli_attend_smart_boa.Base.{
  String, Bool, true, false, Option, none, some, List, [], ◌∷◌, ◌++◌, ◌≡◌, refl, sym, ap, ◌∙◌, ◌&&◌,
  ◌||◌, not, same, if◌then◌else◌, some?, keep, append_assoc, append-nil, arith, inl, inr,
  Bool-cases, Option-cases,
}
use intelli_attend_smart_boa.Dict.{Dict, lookup, insert, erase}
use intelli_attend_smart_boa.Schema.{Kind, Column, Op}
use intelli_attend_smart_boa.Schema.Catalog.{
  Index, Catalog, has, named, on_table, column_named, taken, some_column?, refers_to, uses_type,
  column_index, is_key, only, finds_target, find_keys, refers_to_column, targets, targets_column,
  add_index, add_indexes, create_type, create_kind, create_column_types, create_table, add_column,
  create_index, drop_type, drop_table, drop_index, drop_column, perform, perform_all,
}
use intelli_attend_smart_boa.Schema.Frame.{
  grow, apart, key_apart, kind_apart, index_apart, columns_apart, op_apart, ops_apart, has-append,
  insert-append, erase-append, some?-append, keep-append, some?_within, some_column?-append,
  some_column?_within,
}

targets_within :
    (table name : String) (key : Option (String × String))
    → targets table key ≡ false
    → targets_column table name key ≡ false
targets_within table name none h = refl
targets_within table name (some (target, k)) h = ground arith

refers_within :
    (table name : String) (col : Column)
    → refers_to table col ≡ false
    → refers_to_column table name col ≡ false
refers_within table name col h = targets_within table name col.foreign_key h

module _ (c a : Catalog) where
  create_table-grow :
      (name : String) (cols : List Column)
      → apart name c ≡ true
      → columns_apart name cols c ≡ true
      → create_table name cols (grow c a) ≡ grown c (create_table name cols a)
  unfolding create_table
  create_table-grow name cols h k =
      rw (create_table, create_column_types-grow c name cols a.types k)
        (elim (Option-cases (create_column_types cols a.types)) [
          | inl e ↦ rw (e, create_table) refl
          | inr (types, e) ↦
              let b : Catalog = record a {
                types = types;
                tables = a.tables ++ (name, cols) ∷ [];
              } in
              ground (
                arith,
                taken-grow c a name h,
                find_keys-grow c a name cols k,
                append_assoc c.tables a.tables ((name, cols) ∷ []),
                add_indexes-grow c b name cols k,
              )
        ])

  add_column-grow :
      (table : String) (col : Column)
      → apart table c ≡ true
      → columns_apart table (col ∷ []) c ≡ true
      → add_column table col (grow c a) ≡ grown c (add_column table col a)
  unfolding add_column apart columns_apart
  add_column-grow table col h k =
      let fresh : has table c.tables ≡ false = ground arith in
      rw (add_column, create_kind-grow c col.kind a.types (ground arith))
        (elim (Option-cases (create_kind col.kind a.types)) [
          | inl e ↦ rw (e, add_column) refl
          | inr (types, e) ↦
              rw (e, has-append table c.tables a.tables fresh)
                (elim (Option-cases (lookup table a.tables)) [
                  | inl f ↦ rw (e, f, add_column) refl
                  | inr (cols, f) ↦
                      let new : List Column = cols ++ col ∷ [] in
                      let b : Catalog = record a {
                        types = types;
                        tables = insert table new a.tables;
                      } in
                      ground (
                        arith,
                        finds_target-grow c a col.foreign_key,
                        insert-append table new c.tables a.tables fresh,
                        add_indexes-grow c b table (col ∷ []) k,
                      )
                ])
        ])

  create_index-grow :
      (unique : Bool) (name table : String) (columns : List String)
      → apart name c ≡ true
      → apart table c ≡ true
      → create_index unique name table columns (grow c a)
        ≡ grown c (create_index unique name table columns a)
  unfolding create_index apart
  create_index-grow unique name table columns h k =
      let i : Index = record {
        name = name;
        table = table;
        columns = columns;
        is_unique = unique;
      } in
      rw (create_index, has-append table c.tables a.tables (ground arith))
        (elim (Option-cases (lookup table a.tables)) [
          | inl e ↦ rw (e, create_index) refl
          | inr (cols, e) ↦ ground (arith, add_index-grow c a i h)
        ])

  drop_type-grow :
      (name : String) → apart name c ≡ true → drop_type name (grow c a) ≡ grown c (drop_type name a)
  unfolding drop_type apart
  drop_type-grow name h = ground (
    arith,
    some_column?-append (uses_type name) c.tables a.tables,
    erase-append name c.types a.types,
  )

  drop_table-grow :
      (name : String)
      → apart name c ≡ true
      → drop_table name (grow c a) ≡ grown c (drop_table name a)
  unfolding drop_table apart
  drop_table-grow name h = ground (
    arith,
    has-append name c.tables a.tables,
    erase-append name c.tables a.tables,
    some_column?-append (refers_to name) c.tables (erase name a.tables),
    keep-append (on_table name) c.indexes a.indexes,
  )

  drop_index-grow :
      (name table : String)
      → apart name c ≡ true
      → drop_index name table (grow c a) ≡ grown c (drop_index name table a)
  unfolding drop_index apart
  drop_index-grow name table h =
      let p : Index → Bool = λ i. named name i && on_table table i in
      let none_named : some? p c.indexes ≡ false =
        some?_within (named name) p c.indexes (λ i e. ground arith) (ground arith) in
      ground (
        arith,
        some?-append p c.indexes a.indexes none_named,
        keep-append (named name) c.indexes a.indexes,
      )

  drop_column-grow :
      (table name : String)
      → apart table c ≡ true
      → drop_column table name (grow c a) ≡ grown c (drop_column table name a)
  unfolding drop_column apart
  drop_column-grow table name h =
      let fresh : has table c.tables ≡ false = ground arith in
      let p : Index → Bool = λ i. on_table table i && some? (same name) i.columns in
      let none_on : some? p c.indexes ≡ false =
        some?_within (on_table table) p c.indexes (λ i e. ground arith) (ground arith) in
      let none_refers : some_column? (refers_to_column table name) c.tables ≡ false =
        some_column?_within (refers_to table) (refers_to_column table name) c.tables
          (refers_within table name) (ground arith) in
      rw (drop_column, has-append table c.tables a.tables fresh)
        (elim (Option-cases (lookup table a.tables)) [
          | inl e ↦ rw (e, drop_column) refl
          | inr (cols, e) ↦ ground (
            arith,
            some_column?-append (refers_to_column table name) c.tables a.tables none_refers,
            insert-append table (keep (λ col. not (column_named name col)) cols) c.tables a.tables
                fresh,
            keep-append p c.indexes a.indexes none_on,
          )
        ])

  create_type-grow :
      (name : String) (values : List String)
      → apart name c ≡ true
      → perform (Op.create_type name values) (grow c a)
        ≡ grown c (perform (Op.create_type name values) a)
  unfolding perform create_type apart
  create_type-grow name values h =
      ground
        (arith, has-append name c.types a.types, append_assoc c.types a.types ((name, values) ∷ []))

  pub perform-grow :
      (op : Op) → op_apart op c ≡ true → perform op (grow c a) ≡ grown c (perform op a)
  unfolding perform op_apart
  perform-grow (Op.create_type name values) h = create_type-grow name values h
  perform-grow (Op.drop_type name) h = drop_type-grow name h
  perform-grow (Op.create_table name cols) h =
      create_table-grow name cols (ground arith) (ground arith)
  perform-grow (Op.drop_table name) h = drop_table-grow name h
  perform-grow (Op.create_index name table columns) h =
      create_index-grow false name table columns (ground arith) (ground arith)
  perform-grow (Op.create_unique_constraint name table columns) h =
      create_index-grow true name table columns (ground arith) (ground arith)
  perform-grow (Op.add_column table col) h = add_column-grow table col (ground arith) (ground arith)
  perform-grow (Op.drop_index name table) h = drop_index-grow name table (ground arith)
  perform-grow (Op.drop_column table name) h = drop_column-grow table name h

pub perform_all-grow :
    (ops : List Op) (c a : Catalog)
    → ops_apart ops c ≡ true
    → perform_all ops (grow c a) ≡ grown c (perform_all ops a)
unfolding perform_all ops_apart
perform_all-grow [] c a h = refl
perform_all-grow (op ∷ ops) c a h =
    rw (perform_all, perform-grow c a op (ground arith))
      (elim (Option-cases (perform op a)) [
        | inl e ↦ rw (e, perform_all) refl
        | inr (a', e) ↦ rw (e, perform_all) (perform_all-grow ops c a' (ground arith))
      ])
