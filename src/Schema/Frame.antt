-- ===== src/Schema/Frame.antt =====
-- A catalog beside another one: operations that name nothing of it leave it as it is.
use intelli_attend_smart_boa.Base.{
  String, Bool, true, false, Option, none, some, List, [], ◌∷◌, ◌++◌, ◌≡◌, refl, ◌&&◌, not, some?,
  keep, arith,
}
use intelli_attend_smart_boa.Dict.{Dict, lookup, insert, erase}
use intelli_attend_smart_boa.Schema.{Kind, Column, Op}
use intelli_attend_smart_boa.Schema.Catalog.{
  Index, Catalog, has, named, on_table, some_column?, refers_to, uses_type, column_index,
}

-- The catalog `a` created after `c`.
abbrev pub grow : Catalog → Catalog → Catalog
grow c a = record {
  types = c.types ++ a.types;
  tables = c.tables ++ a.tables;
  indexes = c.indexes ++ a.indexes;
}

-- Nothing in the catalog has the name or uses what has it.
unfoldable pub apart : String → Catalog → Bool
apart name c =
    not (has name c.types)
    && not (has name c.tables)
    && not (some? (named name) c.indexes)
    && not (some? (on_table name) c.indexes)
    && not (some_column? (refers_to name) c.tables)
    && not (some_column? (uses_type name) c.tables)

unfoldable pub key_apart : Option (String × String) → Catalog → Bool
unfolding apart
key_apart none c = true
key_apart (some (table, name)) c = apart table c

unfoldable pub kind_apart : Kind → Catalog → Bool
unfolding apart
kind_apart (Kind.enum name values) c = apart name c
kind_apart _ c = true

unfoldable pub index_apart : Option Index → Catalog → Bool
unfolding apart
index_apart none c = true
index_apart (some i) c = apart i.name c

unfoldable pub columns_apart : String → List Column → Catalog → Bool
unfolding key_apart kind_apart index_apart
columns_apart table [] c = true
columns_apart table (col ∷ cols) c =
    key_apart col.foreign_key c
    && kind_apart col.kind c
    && index_apart (column_index table col) c
    && columns_apart table cols c

-- The operation names nothing that the catalog has.
unfoldable pub op_apart : Op → Catalog → Bool
unfolding columns_apart
op_apart (Op.create_type name values) c = apart name c
op_apart (Op.drop_type name) c = apart name c
op_apart (Op.create_table name cols) c = apart name c && columns_apart name cols c
op_apart (Op.drop_table name) c = apart name c
op_apart (Op.create_index name table columns) c = apart name c && apart table c
op_apart (Op.create_unique_constraint name table columns) c = apart name c && apart table c
op_apart (Op.add_column table col) c = apart table c && columns_apart table (col ∷ []) c
op_apart (Op.drop_index name table) c = apart name c && apart table c
op_apart (Op.drop_column table name) c = apart table c

unfoldable pub ops_apart : List Op → Catalog → Bool
unfolding op_apart
ops_apart [] c = true
ops_apart (op ∷ ops) c = op_apart op c && ops_apart ops c

module _ {ℓ} {V : Type ℓ} where
  pub has-append : (k : String) (d e : Dict V) → has k d ≡ false → lookup k (d ++ e) ≡ lookup k e
  has-append k [] e h = refl
  has-append k ((j, v) ∷ d) e h = ground (arith, has-append k d e)

  pub insert-append :
      (k : String) (v : V) (d e : Dict V)
      → has k d ≡ false
      → insert k v (d ++ e) ≡ d ++ insert k v e
  insert-append k v [] e h = refl
  insert-append k v ((j, w) ∷ d) e h = ground (arith, insert-append k v d e)

  pub erase-append :
      (k : String) (d e : Dict V) → has k d ≡ false → erase k (d ++ e) ≡ d ++ erase k e
  erase-append k [] e h = refl
  erase-append k ((j, w) ∷ d) e h = ground (arith, erase-append k d e)

module _ {ℓ} {A : Type ℓ} where
  pub some?-append :
      (p : A → Bool) (xs ys : List A) → some? p xs ≡ false → some? p (xs ++ ys) ≡ some? p ys
  some?-append p [] ys h = refl
  some?-append p (x ∷ xs) ys h = ground (arith, some?-append p xs ys)

  pub keep-append :
      (p : A → Bool) (xs ys : List A)
      → some? p xs ≡ false
      → keep (λ x. not (p x)) (xs ++ ys) ≡ xs ++ keep (λ x. not (p x)) ys
  keep-append p [] ys h = refl
  keep-append p (x ∷ xs) ys h = ground (arith, keep-append p xs ys)

  pub some?_within :
      (p q : A → Bool) (xs : List A)
      → ((x : A) → p x ≡ false → q x ≡ false)
      → some? p xs ≡ false
      → some? q xs ≡ false
  some?_within p q [] w h = refl
  some?_within p q (x ∷ xs) w h = ground (arith, w x, some?_within p q xs w)

pub some_column?-append :
    (p : Column → Bool) (d e : Dict (List Column))
    → some_column? p d ≡ false
    → some_column? p (d ++ e) ≡ some_column? p e
some_column?-append p [] e h = refl
some_column?-append p ((table, cols) ∷ d) e h = ground (arith, some_column?-append p d e)

pub some_column?_within :
    (p q : Column → Bool) (d : Dict (List Column))
    → ((col : Column) → p col ≡ false → q col ≡ false)
    → some_column? p d ≡ false
    → some_column? q d ≡ false
some_column?_within p q [] w h = refl
some_column?_within p q ((table, cols) ∷ d) w h =
    ground (arith, some?_within p q cols w, some_column?_within p q d w)
