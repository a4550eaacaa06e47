-- ===== src/Hydration/Manifest/Laws.antt =====
-- What the hash of a payload depends on.
use intelli_attend_smart_boa.Base.{
  ◌≡◌, refl, ap, String, true, arith, same_iff, Bool-cases, inl, inr,
}
use intelli_attend_smart_boa.Json.{
  Json, Items, Fields, null, bool, num, minus, text, arr, obj, nil, cons, end, field, put,
}
use intelli_attend_smart_boa.Env.{Env}
use intelli_attend_smart_boa.Hydration.Manifest.{
  is_excluded, clean, clean_items, clean_fields, compute_manifest_hash,
}

mutual
  unfolding clean clean_items clean_fields

  clean_idem : (j : Json) → clean (clean j) ≡ clean j
  clean_idem null = refl
  clean_idem (bool b) = refl
  clean_idem (num n) = refl
  clean_idem (minus n) = refl
  clean_idem (text s) = refl
  clean_idem (arr xs) = ap arr (clean_items_idem xs)
  clean_idem (obj fs) = ap obj (clean_fields_idem fs)

  clean_items_idem : (xs : Items) → clean_items (clean_items xs) ≡ clean_items xs
  clean_items_idem nil = refl
  clean_items_idem (cons x xs) = λ i. cons (clean_idem x i) (clean_items_idem xs i)

  clean_fields_idem : (fs : Fields) → clean_fields (clean_fields fs) ≡ clean_fields fs
  clean_fields_idem end = refl
  clean_fields_idem (field k v fs) = elim (Bool-cases (is_excluded k)) [
    | inl e ↦ rw e (clean_fields_idem fs)
    | inr e ↦ rw (e, clean_fields, e) (λ i. field k (clean_idem v i) (clean_fields_idem fs i))
  ]

-- Setting an excluded key changes nothing that is hashed.
clean_fields-put :
    (k : String) (v : Json) (fs : Fields)
    → is_excluded k ≡ true
    → clean_fields (put k v fs) ≡ clean_fields fs
unfolding clean_fields
clean_fields-put k v end h = rw h refl
clean_fields-put k v (field j w fs) h = ground (arith, same_iff j k, clean_fields-put k v fs h)

-- The hash of a dict does not depend on its hash, version and time, whether it has them or not, and
-- it is the hash of the cleaned dict.
pub compute_manifest_hash-put :
    (env : Env) (key : String) (value : Json) (payload : Fields)
    → is_excluded key ≡ true
    → (compute_manifest_hash env (obj (put key value payload))
        ≡ compute_manifest_hash env (obj payload))
      × (compute_manifest_hash env (clean (obj payload)) ≡ compute_manifest_hash env (obj payload))
unfolding compute_manifest_hash clean
compute_manifest_hash-put env key value payload h = (
  ap (λ fs. env.sha256 (env.dumps_sorted (obj fs))) (clean_fields-put key value payload h),
  ap (λ j. env.sha256 (env.dumps_sorted j)) (clean_idem (obj payload)),
)
