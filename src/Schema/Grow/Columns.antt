-- ===== src/Schema/Grow/Columns.antt =====
-- Indexes, keys and types of columns beside another catalog.
use intelli_attend_smart_boa.Base.{
  String, Bool, true, false, Option, none, some, List, [], ◌∷◌, ◌++◌, ◌≡◌, refl, ◌&&◌, some?,
  append_assoc, arith, inl, inr, Option-cases,
}
use intelli_attend_smart_boa.Dict.{Dict, lookup}
use intelli_attend_smart_boa.Schema.{Kind, Column}
use intelli_attend_smart_boa.Schema.Catalog.{
  Index, Catalog, named, on_table, taken, column_index, is_key, only, finds_target, find_keys,
  add_index, add_indexes, create_type, create_kind, create_column_types,
}
use intelli_attend_smart_boa.Schema.Frame.{
  grow, apart, key_apart, kind_apart, index_apart, columns_apart, has-append, some?-append,
  some?_within,
}

abbrev pub grown : Catalog → Option Catalog → Option Catalog
grown c none = none
grown c (some a) = some (grow c a)

module _ (c a : Catalog) where
  pub taken-grow : (n : String) → apart n c ≡ true → taken n (grow c a) ≡ taken n a
  unfolding apart
  taken-grow n h =
      ground (arith, has-append n c.tables a.tables, some?-append (named n) c.indexes a.indexes)

  pub add_index-grow :
      (i : Index) → apart i.name c ≡ true → add_index i (grow c a) ≡ grown c (add_index i a)
  unfolding add_index
  add_index-grow i h =
      ground (arith, taken-grow i.name h, append_assoc c.indexes a.indexes (i ∷ []))

abbrev grown_types : Catalog → Option (Dict (List String)) → Option (Dict (List String))
grown_types c none = none
grown_types c (some types) = some (c.types ++ types)

pub add_indexes-grow :
    (c a : Catalog) (table : String) (cols : List Column)
    → columns_apart table cols c ≡ true
    → add_indexes table cols (grow c a) ≡ grown c (add_indexes table cols a)
unfolding add_indexes columns_apart index_apart
add_indexes-grow c a table [] h = refl
add_indexes-grow c a table (col ∷ cols) h = elim (Option-cases (column_index table col)) [
  | inl e ↦ rw (e, add_indexes) (add_indexes-grow c a table cols (ground arith))
  | inr (i, e) ↦
      rw (e, add_indexes, add_index-grow c a i (ground arith))
        (elim (Option-cases (add_index i a)) [
          | inl f ↦ rw (f, add_indexes) refl
          | inr (a', f) ↦ rw f (add_indexes-grow c a' table cols (ground arith))
        ])
]

module _ (c a : Catalog) where
  is_key-grow :
      (table name : String) (cols : List Column)
      → apart table c ≡ true
      → is_key table name cols (grow c a) ≡ is_key table name cols a
  unfolding apart
  is_key-grow table name cols h =
      let p : Index → Bool = λ i. i.is_unique && on_table table i && only name i.columns in
      let none_on : some? p c.indexes ≡ false =
        some?_within (on_table table) p c.indexes (λ i e. ground arith) (ground arith) in
      ground (arith, some?-append p c.indexes a.indexes none_on)

  pub finds_target-grow :
      (key : Option (String × String))
      → key_apart key c ≡ true
      → finds_target key (grow c a) ≡ finds_target key a
  unfolding finds_target key_apart apart
  finds_target-grow none h = refl
  finds_target-grow (some (table, name)) h =
      rw (finds_target, has-append table c.tables a.tables (ground arith))
        (elim (Option-cases (lookup table a.tables)) [
          | inl e ↦ rw (e, finds_target) refl
          | inr (cols, e) ↦ rw (e, finds_target, is_key-grow table name cols h) refl
        ])

  pub find_keys-grow :
      (table : String) (cols : List Column)
      → columns_apart table cols c ≡ true
      → find_keys cols (grow c a) ≡ find_keys cols a
  unfolding find_keys columns_apart
  find_keys-grow table [] h = refl
  find_keys-grow table (col ∷ cols) h =
      let key : key_apart col.foreign_key c ≡ true = ground arith in
      let rest : columns_apart table cols c ≡ true = ground arith in
      rw (find_keys, finds_target-grow col.foreign_key key, find_keys-grow table cols rest) refl

module _ (c : Catalog) where
  pub create_kind-grow :
      (kind : Kind) (types : Dict (List String))
      → kind_apart kind c ≡ true
      → create_kind kind (c.types ++ types) ≡ grown_types c (create_kind kind types)
  unfolding create_kind create_type kind_apart apart
  create_kind-grow (Kind.enum name values) types h =
      ground
        (arith, has-append name c.types types, append_assoc c.types types ((name, values) ∷ []))
  create_kind-grow (Kind.string n) types h = refl
  create_kind-grow Kind.integer types h = refl
  create_kind-grow Kind.long_text types h = refl
  create_kind-grow Kind.date_time types h = refl

  pub create_column_types-grow :
      (table : String) (cols : List Column) (types : Dict (List String))
      → columns_apart table cols c ≡ true
      → create_column_types cols (c.types ++ types) ≡ grown_types c (create_column_types cols types)
  unfolding create_column_types columns_apart
  create_column_types-grow table [] types h = refl
  create_column_types-grow table (col ∷ cols) types h =
      rw (create_column_types, create_kind-grow col.kind types (ground arith))
        (elim (Option-cases (create_kind col.kind types)) [
          | inl e ↦ rw (e, create_column_types) refl
          | inr (types', e) ↦
              rw (e, create_column_types)
                (create_column_types-grow table cols types' (ground arith))
        ])
