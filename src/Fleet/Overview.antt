-- ===== src/Fleet/Overview.antt =====
-- GET /api/v1/admin/fleet: the counts by version and by status, and the list of boards.
pub mod Laws
use intelli_attend_smart_boa.Base.{
  ℕ, suc, ◌+◌, String, Option, none, some, List, [], ◌∷◌, or_else, length, map,
}
use intelli_attend_smart_boa.Dict.{Dict, insert, get_or}
use intelli_attend_smart_boa.Json.{
  int_json, Json, Items, Fields, null, bool, num, text, arr, obj, end, nil, cons, field, ◌↪◌⨾◌,
  optional,
}
use intelli_attend_smart_boa.Models.{Db, BoardVersion, ReleaseManifest}
use intelli_attend_smart_boa.Env.{Env}
use intelli_attend_smart_boa.Fleet.Release.{active_release}

-- `counts[key] = counts.get(key, 0) + 1` for each board
unfoldable pub tally : (BoardVersion → String) → List BoardVersion → Dict ℕ → Dict ℕ
tally key [] counts = counts
tally key (bv ∷ rest) counts =
    tally key rest (insert (key bv) (get_or (key bv) 0 counts + 1) counts)

abbrev pub version_key : BoardVersion → String
version_key bv = or_else bv.current_version "unknown"

abbrev pub status_key : BoardVersion → String
status_key bv = or_else (some bv.update_status) "idle"

abbrev pub initial_statuses : Dict ℕ
initial_statuses =
    ("idle", 0)
    ∷ ("downloading", 0)
    ∷ ("installing", 0)
    ∷ ("completed", 0)
    ∷ ("failed", 0)
    ∷ ("rolling_back", 0)
    ∷ []

unfoldable pub version_counts : List BoardVersion → Dict ℕ
unfolding tally
version_counts versions = tally version_key versions []

unfoldable pub status_counts : List BoardVersion → Dict ℕ
unfolding tally
status_counts versions = tally status_key versions initial_statuses

unfoldable pub counts_json : Dict ℕ → Fields
counts_json [] = end
counts_json ((k, n) ∷ rest) = field k (num n) (counts_json rest)

module _ (env : Env) where
  abbrev pub time_json : Option ℕ → Json
  time_json none = null
  time_json (some t) = text (env.isoformat t)

  unfoldable pub board_json : BoardVersion → Json
  board_json bv = obj (
      "board_id"
      ↪ text bv.board_id ⨾ "current_version"
      ↪ optional bv.current_version ⨾ "target_version"
      ↪ optional bv.target_version ⨾ "update_status"
      ↪ text bv.update_status ⨾ "download_progress"
      ↪ num bv.download_progress ⨾ "last_heartbeat_at"
      ↪ time_json bv.last_heartbeat_at ⨾ "last_update_at"
      ↪ time_json bv.last_update_at ⨾ "last_error"
      ↪ optional bv.last_error ⨾ "rollback_count"
      ↪ num bv.rollback_count ⨾ end)

  unfoldable pub boards_json : List BoardVersion → Items
  unfolding board_json
  boards_json [] = nil
  boards_json (bv ∷ rest) = cons (board_json bv) (boards_json rest)

  abbrev pub release_json : Option ReleaseManifest → Json
  release_json none = null
  release_json (some rm) = obj (
      "version"
      ↪ text rm.version ⨾ "force"
      ↪ bool rm.force ⨾ "rollout_percentage"
      ↪ int_json rm.rollout_percentage ⨾ "created_at"
      ↪ text (env.isoformat rm.created_at) ⨾ end)

  -- `get_fleet_status`; the rows are given in the order of `order_by(board_id)`.
  unfoldable pub get_fleet_status : Db → Json
  unfolding version_counts status_counts counts_json boards_json active_release
  get_fleet_status db = obj (
      "status"
      ↪ text "ok" ⨾ "total_boards"
      ↪ num (length db.versions) ⨾ "version_distribution"
      ↪ obj (counts_json (version_counts db.versions)) ⨾ "status_distribution"
      ↪ obj (counts_json (status_counts db.versions)) ⨾ "active_release"
      ↪ release_json (active_release db.manifests) ⨾ "boards"
      ↪ arr (boards_json db.versions) ⨾ end)
