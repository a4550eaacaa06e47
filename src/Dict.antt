-- ===== src/Dict.antt =====
-- Python dicts with text keys, in insertion order.
use intelli_attend_smart_boa.Base.{
  ℕ, ◌+◌, ◌≤◌, sum_by, String, ◌≡◌, refl, false, Option, none, some, List, [], ◌∷◌, arith,
  if◌then◌else◌, same, same_iff, Bool-cases, inl, inr,
}

abbrev pub Dict {ℓ} : Type ℓ → Type ℓ
Dict V = List (String × V)

module _ {ℓ} {V : Type ℓ} where
  -- `d.get(k)`
  abbrev pub lookup : String → Dict V → Option V
  lookup k [] = none
  lookup k ((j, v) ∷ d) = if same j k then some v else lookup k d

  -- `d[k] = v`
  abbrev pub insert : String → V → Dict V → Dict V
  insert k v [] = (k, v) ∷ []
  insert k v ((j, w) ∷ d) = if same j k then (j, v) ∷ d else (j, w) ∷ insert k v d

  -- `del d[k]`, `d.pop(k, None)`: a dict holds a key once, so every entry of the key goes.
  abbrev pub erase : String → Dict V → Dict V
  erase k [] = []
  erase k ((j, w) ∷ d) = if same j k then erase k d else (j, w) ∷ erase k d

  -- `d.get(k, default)`
  abbrev pub get_or : String → V → Dict V → V
  get_or k default d = elim (lookup k d) [ none ↦ default | some v ↦ v ]

  pub lookup-insert :
      (k j : String) (v : V) (d : Dict V)
      → lookup j (insert k v d) ≡ (if same k j then some v else lookup j d)
  lookup-insert k j v [] = refl
  lookup-insert k j v ((i, w) ∷ d) =
      ground (arith, same_iff k j, same_iff i k, same_iff i j, lookup-insert k j v d)

  pub lookup-erase :
      (k j : String) (d : Dict V) → lookup j (erase k d) ≡ (if same k j then none else lookup j d)
  lookup-erase k j [] = ground arith
  lookup-erase k j ((i, w) ∷ d) =
      ground (arith, same_iff k j, same_iff i k, same_iff i j, lookup-erase k j d)

  -- The key is not in the dict.
  abbrev pub IsAbsent : String → Dict V → Type 0
  IsAbsent k [] = Unit
  IsAbsent k ((j, w) ∷ d) = (same j k ≡ false) × IsAbsent k d

  -- A dict holds a key once.
  abbrev pub HasUniqueKeys : Dict V → Type 0
  HasUniqueKeys [] = Unit
  HasUniqueKeys ((k, v) ∷ d) = IsAbsent k d × HasUniqueKeys d

  IsAbsent-insert :
      (j k : String) (v : V) (d : Dict V)
      → same k j ≡ false
      → IsAbsent j d
      → IsAbsent j (insert k v d)
  IsAbsent-insert j k v [] ne h = ground arith
  IsAbsent-insert j k v ((i, w) ∷ d) ne (a, h) = elim (Bool-cases (same i k)) [
    | inl e ↦ rw e (a, h)
    | inr e ↦ rw e (a, IsAbsent-insert j k v d ne h)
  ]

  pub insert-HasUniqueKeys :
      (k : String) (v : V) (d : Dict V) → HasUniqueKeys d → HasUniqueKeys (insert k v d)
  insert-HasUniqueKeys k v [] h = ground arith
  insert-HasUniqueKeys k v ((j, w) ∷ d) (a, h) = elim (Bool-cases (same j k)) [
    | inl e ↦ rw e (a, h)
    | inr e ↦ rw e (
      IsAbsent-insert j k v d (ground (arith, same_iff j k, same_iff k j)) a,
      insert-HasUniqueKeys k v d h,
    )
  ]

  pub lookup_absent : (k : String) (d : Dict V) → IsAbsent k d → lookup k d ≡ none
  lookup_absent k [] h = refl
  lookup_absent k ((j, w) ∷ d) (a, h) = rw a (lookup_absent k d h)

  -- `d.values()`
  abbrev pub values : Dict V → List V
  values [] = []
  values ((k, v) ∷ d) = v ∷ values d

  -- A sum over the values changes by the difference at the key.
  pub sum_by-values-insert :
      (f : V → ℕ) (k : String) (v : V) (d : Dict V)
      → sum_by f (values (insert k v d)) + elim (lookup k d) [ none ↦ 0 | some w ↦ f w ]
        ≡ sum_by f (values d) + f v
  sum_by-values-insert f k v [] = omega arith
  sum_by-values-insert f k v ((j, w) ∷ d) = elim (Bool-cases (same j k)) [
    | inl e ↦ rw e (omega arith)
    | inr e ↦ rw e (omega (arith, sum_by-values-insert f k v d))
  ]

  -- A value is at most the sum.
  pub lookup-le-sum_by :
      (f : V → ℕ) (k : String) (d : Dict V)
      → elim (lookup k d) [ none ↦ 0 | some w ↦ f w ] ≤ sum_by f (values d)
  lookup-le-sum_by f k [] = omega arith
  lookup-le-sum_by f k ((j, w) ∷ d) = elim (Bool-cases (same j k)) [
    | inl e ↦ rw e (omega arith)
    | inr e ↦ rw e (omega (arith, lookup-le-sum_by f k d))
  ]
