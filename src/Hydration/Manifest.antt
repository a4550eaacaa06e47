-- ===== src/Hydration/Manifest.antt =====
-- The hash of a payload: `_compute_manifest_hash`, with its local function `_clean`.
pub mod Laws
use intelli_attend_smart_boa.Base.{String, Bool, ◌||◌, if◌then◌else◌, same}
use intelli_attend_smart_boa.Json.{
  Json, Items, Fields, null, bool, num, minus, text, arr, obj, nil, cons, end, field,
}
use intelli_attend_smart_boa.Env.{Env}

-- `k in excluded_keys`
unfoldable pub is_excluded : String → Bool
is_excluded key =
    same key "manifest_hash" || same key "manifest_version" || same key "current_server_time"

-- `_clean`: at every depth, the dicts lose the excluded keys.
unfoldable mutual
  unfolding is_excluded

  pub clean : Json → Json
  clean null = null
  clean (bool b) = bool b
  clean (num n) = num n
  clean (minus n) = minus n
  clean (text s) = text s
  clean (arr xs) = arr (clean_items xs)
  clean (obj fs) = obj (clean_fields fs)

  pub clean_items : Items → Items
  clean_items nil = nil
  clean_items (cons x xs) = cons (clean x) (clean_items xs)

  pub clean_fields : Fields → Fields
  clean_fields end = end
  clean_fields (field k v fs) =
      if is_excluded k then clean_fields fs else field k (clean v) (clean_fields fs)

-- `_compute_manifest_hash`
unfoldable pub compute_manifest_hash : Env → Json → String
unfolding clean
compute_manifest_hash env payload = env.sha256 (env.dumps_sorted (clean payload))
