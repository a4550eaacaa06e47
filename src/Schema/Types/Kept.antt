-- ===== src/Schema/Types/Kept.antt =====
-- The creation of columns and indexes keeps the types that exist.
use mathlib.Core.Path.{subst}
use intelli_attend_smart_boa.Base.{
  String, Bool, true, false, Option, none, some, List, [], ◌∷◌, ◌++◌, ◌≡◌, refl, sym, ◌&&◌, ◌||◌,
  not, same, same_iff, some?, arith, inl, inr, Bool-cases, Option-cases,
}
use intelli_attend_smart_boa.Dict.{Dict}
use intelli_attend_smart_boa.Schema.{Kind, Column, Op}
use intelli_attend_smart_boa.Schema.Catalog.{
  Index, Catalog, has, is_type, uses_type, column_index, add_index, add_indexes, create_type,
  create_kind, create_column_types, taken,
}

abbrev pub drops_type : String → Op → Bool
drops_type n (Op.drop_type m) = same m n
drops_type n _ = false

abbrev pub adds_type : String → Op → Bool
adds_type n (Op.create_table name cols) = some? (uses_type n) cols
adds_type n _ = false

-- One of the operations creates a table with a column of the type, before the type is dropped.
unfoldable pub collides : String → List Op → Bool
collides n [] = false
collides n (op ∷ ops) = adds_type n op || (not (drops_type n op) && collides n ops)

has-append_some {ℓ} :
    {V : Type ℓ} (n : String) (d e : Dict V) → has n d ≡ true → has n (d ++ e) ≡ true
has-append_some n [] e h = ground arith
has-append_some n ((j, v) ∷ d) e h = ground (arith, has-append_some n d e)

pub has-append_last {ℓ} :
    {V : Type ℓ} (n : String) (d : Dict V) (v : V) → has n (d ++ (n, v) ∷ []) ≡ true
has-append_last n [] v = ground (arith, same_iff n n)
has-append_last n ((j, w) ∷ d) v = ground (arith, has-append_last n d v)

-- The types of a result, if there is one, have the name.
abbrev pub Keeps : String → Option (Dict (List String)) → Type 0
Keeps n none = Unit
Keeps n (some types) = has n types ≡ true

abbrev pub KeepsType : String → Option Catalog → Type 0
KeepsType n none = Unit
KeepsType n (some c) = has n c.types ≡ true

pub create_type-Keeps :
    (n m : String) (values : List String) (types : Dict (List String))
    → has n types ≡ true
    → Keeps n (create_type m values types)
unfolding create_type
create_type-Keeps n m values types h = elim (Bool-cases (has m types)) [
  | inl e ↦ rw (e, create_type) tt
  | inr e ↦ rw (e, create_type) (has-append_some n types ((m, values) ∷ []) h)
]

pub create_kind-Keeps :
    (n : String) (kind : Kind) (types : Dict (List String))
    → has n types ≡ true
    → Keeps n (create_kind kind types)
unfolding create_kind
create_kind-Keeps n (Kind.enum m values) types h = create_type-Keeps n m values types h
create_kind-Keeps n (Kind.string k) types h = h
create_kind-Keeps n Kind.integer types h = h
create_kind-Keeps n Kind.long_text types h = h
create_kind-Keeps n Kind.date_time types h = h

pub create_column_types-Keeps :
    (n : String) (cols : List Column) (types : Dict (List String))
    → has n types ≡ true
    → Keeps n (create_column_types cols types)
unfolding create_column_types
create_column_types-Keeps n [] types h = h
create_column_types-Keeps n (col ∷ cols) types h =
    elim (Option-cases (create_kind col.kind types)) [
      | inl e ↦ rw (e, create_column_types) tt
      | inr (types', e) ↦
          let h' : has n types' ≡ true = subst (Keeps n) e (create_kind-Keeps n col.kind types h) in
          rw (e, create_column_types) (create_column_types-Keeps n cols types' h')
    ]

-- A column of the type is refused, since nothing looks whether the type is there.
create_kind-none :
    (n : String) (kind : Kind) (types : Dict (List String))
    → is_type n kind ≡ true
    → has n types ≡ true
    → create_kind kind types ≡ none
unfolding create_kind create_type
create_kind-none n (Kind.enum m values) types u h =
    ground (arith, subst (λ k. has k types ≡ true) (sym ((same_iff m n).0 u)) h)
create_kind-none n (Kind.string k) types u h = ground arith
create_kind-none n Kind.integer types u h = ground arith
create_kind-none n Kind.long_text types u h = ground arith
create_kind-none n Kind.date_time types u h = ground arith

pub create_column_types-none :
    (n : String) (cols : List Column) (types : Dict (List String))
    → some? (uses_type n) cols ≡ true
    → has n types ≡ true
    → create_column_types cols types ≡ none
unfolding create_column_types
create_column_types-none n [] types u h = ground arith
create_column_types-none n (col ∷ cols) types u h =
    elim (Option-cases (create_kind col.kind types)) [
      | inl e ↦ rw (e, create_column_types) refl
      | inr (types', e) ↦
          let h' : has n types' ≡ true = subst (Keeps n) e (create_kind-Keeps n col.kind types h) in
          rw (e, create_column_types)
            (elim (Bool-cases (uses_type n col)) [
              | inl f ↦ absurd (ground (arith, create_kind-none n col.kind types f h))
              | inr f ↦ create_column_types-none n cols types' (ground arith) h'
            ])
    ]

-- What changes no type.
abbrev HasTypes : Dict (List String) → Option Catalog → Type 0
HasTypes types none = Unit
HasTypes types (some c) = c.types ≡ types

add_index-HasTypes : (i : Index) (c : Catalog) → HasTypes c.types (add_index i c)
unfolding add_index
add_index-HasTypes i c = ground arith

pub add_indexes-HasTypes :
    (table : String) (cols : List Column) (c : Catalog)
    → HasTypes c.types (add_indexes table cols c)
unfolding add_indexes add_index
add_indexes-HasTypes table [] c = refl
add_indexes-HasTypes table (col ∷ cols) c = elim (Option-cases (column_index table col)) [
  | inl e ↦ rw (e, add_indexes) (add_indexes-HasTypes table cols c)
  | inr (i, e) ↦
      rw (e, add_indexes)
        (elim (Bool-cases (taken i.name c)) [
          | inl f ↦ rw (f, add_index) tt
          | inr f ↦
              rw (f, add_index)
                (add_indexes-HasTypes table cols (record c { indexes = c.indexes ++ i ∷ [] }))
        ])
]

pub HasTypes-KeepsType :
    (n : String) (types : Dict (List String)) (r : Option Catalog)
    → has n types ≡ true
    → HasTypes types r
    → KeepsType n r
HasTypes-KeepsType n types none h k = tt
HasTypes-KeepsType n types (some c) h k = rw k h
