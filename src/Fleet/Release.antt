-- ===== src/Fleet/Release.antt =====
-- Release manifests: POST /api/v1/board/ci-upload, POST /api/v1/admin/rollback-all, and the update
-- block of `_build_board_config`. `now` is the time that a new row is stamped with.
pub mod Laws
use intelli_attend_smart_boa.Base.{
  ℕ, String, Bool, true, false, not, Option, none, some, List, [], ◌∷◌, ◌++◌, ltb, same, truthy,
  or_else, map, keep, length, if◌then◌else◌, ◌^^◌,
}
use intelli_attend_smart_boa.Json.{
  PyInt, natural, int_json, Json, null, bool, num, text, obj, end, ◌↪◌⨾◌,
}
use intelli_attend_smart_boa.Http.{
  Error, http, crash, Action, pure, raise, gets, or_raise, raise_if, modify, ◌>>=◌, ◌>>◌, get_db,
}
use intelli_attend_smart_boa.Models.{Db, ReleaseManifest, BoardVersion, UpdateEvent}
use intelli_attend_smart_boa.Env.{Env}

-- `old_rm.is_active = False` for every active manifest
unfoldable pub deactivate : ReleaseManifest → ReleaseManifest
deactivate rm = if rm.is_active then record rm { is_active = false } else rm

-- The deactivation of the old manifests, and the new one.
unfoldable pub publish : ReleaseManifest → List ReleaseManifest → List ReleaseManifest
unfolding deactivate
publish rm manifests = map deactivate manifests ++ rm ∷ []

-- The query of the active manifest that was created last.
abbrev pub later_of : Option ReleaseManifest → ReleaseManifest → Option ReleaseManifest
later_of none rm = some rm
later_of (some best) rm = if ltb best.created_at rm.created_at then some rm else some best

unfoldable pub latest_from : Option ReleaseManifest → List ReleaseManifest → Option ReleaseManifest
latest_from best [] = best
latest_from best (rm ∷ rest) = latest_from (if rm.is_active then later_of best rm else best) rest

unfoldable pub active_release : List ReleaseManifest → Option ReleaseManifest
unfolding latest_from
active_release manifests = latest_from none manifests

-- The query parameters of `ci_upload`.
pub record CiUpload : Type 0 where
  pub version : String
  pub release_notes : String
  pub force : String
  pub rollout_percentage : String

abbrev pub download_url : (repo version : String) → String
download_url repo version =
    "https://github.com/" ^^ repo ^^ "/releases/download/v" ^^ version
    ^^ "/IntelliAttendSmartBoard-" ^^ version ^^ ".msi"

module _ (env : Env) (deploy_key repo : String) where
  abbrev pub uploaded : ℕ → PyInt → CiUpload → ReleaseManifest
  uploaded now rollout q = record {
    version = q.version;
    download_url = download_url repo q.version;
    sha256 = some "";
    force = same (env.lower q.force) "true";
    rollout_percentage = rollout;
    release_notes = some q.release_notes;
    is_active = true;
    uploaded_by = some "ci";
    created_at = now;
  }

  -- `ci_upload`, with the values of DEPLOY_KEY and GITHUB_REPOSITORY. It opens a session of its
  -- own; nothing is committed where `int(rollout_percentage)` raises.
  unfoldable pub ci_upload : ℕ → (x_deploy_key : String) → CiUpload → Action Db Json
  unfolding publish
  ci_upload now key q = do
    raise_if (not (truthy deploy_key)) (http 503 "CI upload not configured (DEPLOY_KEY not set)")
    raise_if (not (same key deploy_key)) (http 401 "Invalid deploy key")
    raise_if (not (truthy q.version)) (http 400 "version is required")
    rollout ← or_raise (env.parse_int q.rollout_percentage) crash
    modify (λ db. record db { manifests = publish (uploaded now rollout q) db.manifests })
    pure (obj ("status" ↪ text "ok" ⨾ "version" ↪ text q.version ⨾ end))

-- `AdminRollbackRequest`
pub record AdminRollbackRequest : Type 0 where
  pub target_version : String
  pub reason : String

abbrev pub rollback_manifest : ℕ → AdminRollbackRequest → ReleaseManifest
rollback_manifest now q = record {
  version = q.target_version;
  download_url = "";
  sha256 = some "";
  force = true;
  rollout_percentage = natural 100;
  release_notes = some ("Fleet rollback: " ^^ q.reason);
  is_active = true;
  uploaded_by = some "admin";
  created_at = now;
}

abbrev pub rolling_back : String → BoardVersion → BoardVersion
rolling_back target bv = record bv { target_version = some target; update_status = "rolling_back" }

abbrev pub rollback_event : ℕ → (target reason board : String) → UpdateEvent
rollback_event now target reason board = record {
  board_id = board;
  event_type = "admin_rollback";
  current_version = none;
  previous_version = none;
  target_version = some target;
  status = some "triggered";
  stable_startups = none;
  rollback_count = none;
  error_message = some reason;
  created_at = now;
}

-- `admin_rollback_all`
unfoldable pub admin_rollback_all : ℕ → AdminRollbackRequest → Action Db Json
unfolding publish
admin_rollback_all now q = get_db (do
  raise_if (not (truthy q.target_version)) (http 400 "target_version is required")
  boards ← gets (λ db. db.versions)
  modify (λ db. record db {
    manifests = publish (rollback_manifest now q) db.manifests;
    versions = map (rolling_back q.target_version) boards;
    events =
        db.events
        ++ map
            (λ (bv : BoardVersion).
              rollback_event now q.target_version ("Fleet rollback: " ^^ q.reason) bv.board_id)
            boards;
  })
  pure (
      obj (
        "status"
        ↪ text "ok" ⨾ "target_version"
        ↪ text q.target_version ⨾ "boards_affected"
        ↪ num (length boards) ⨾ end)))

-- The environment's UPDATE_* variables, read where no manifest is active; the percentage, which the
-- source passes through `int`, is a number.
pub record UpdateVariables : Type 0 where
  pub minimum_version : String
  pub url : String
  pub sha256 : String
  pub force : String
  pub rollout_percentage : PyInt
  pub release_notes : String

-- The `force_update` value of `_build_board_config`.
unfoldable pub force_update : Env → ℕ → UpdateVariables → List ReleaseManifest → Json
unfolding active_release
force_update env now vars manifests = elim (active_release manifests) [
  | some rm ↦ obj (
      "minimum_version"
      ↪ text rm.version ⨾ "download_url"
      ↪ text rm.download_url ⨾ "sha256"
      ↪ text (or_else rm.sha256 "") ⨾ "force"
      ↪ bool rm.force ⨾ "rollout_percentage"
      ↪ int_json rm.rollout_percentage ⨾ "release_notes"
      ↪ text (or_else rm.release_notes "") ⨾ "published_at"
      ↪ text (env.isoformat rm.created_at) ⨾ end)
  | none ↦
      if truthy vars.minimum_version
      then obj (
          "minimum_version"
          ↪ text vars.minimum_version ⨾ "download_url"
          ↪ text vars.url ⨾ "sha256"
          ↪ text vars.sha256 ⨾ "force"
          ↪ bool (same (env.lower vars.force) "true") ⨾ "rollout_percentage"
          ↪ int_json vars.rollout_percentage ⨾ "release_notes"
          ↪ text vars.release_notes ⨾ "published_at"
          ↪ text (env.isoformat now) ⨾ end)
      else null
]
