-- ===== src/Fleet/Report.antt =====
-- One row of `board_versions` for each board, and POST /api/v1/board/update-status.
pub mod Laws
use intelli_attend_smart_boa.Base.{
  ℕ, String, Bool, Option, none, some, List, [], ◌∷◌, ◌++◌, ◌||◌, same, find, modify_first,
  if◌then◌else◌,
}
use intelli_attend_smart_boa.Json.{Json, text, obj, end, ◌↪◌⨾◌}
use intelli_attend_smart_boa.Http.{Action, pure, modify, ◌>>=◌, ◌>>◌, get_db}
use intelli_attend_smart_boa.Models.{Db, BoardVersion, UpdateEvent}

abbrev pub for_version : String → BoardVersion → Bool
for_version board bv = same bv.board_id board

-- A new row with the defaults of `BoardVersion`.
abbrev pub new_version : String → BoardVersion
new_version board = record {
  board_id = board;
  current_version = some "0.0.0";
  target_version = none;
  update_status = "idle";
  download_progress = 0;
  last_update_at = none;
  last_heartbeat_at = none;
  last_error = none;
  rollback_count = 0;
}

-- The select of the board's row, then a new row where there is none, or else changes to it.
unfoldable pub upsert_version :
    String → BoardVersion → (BoardVersion → BoardVersion) → List BoardVersion → List BoardVersion
upsert_version board new change versions = elim (find (for_version board) versions) [
  | none ↦ versions ++ new ∷ []
  | some bv ↦ modify_first (for_version board) change versions
]

-- `UpdateStatusReport`
pub record UpdateStatusReport : Type 0 where
  pub current_version : String
  pub previous_version : String
  pub status : String
  pub stable_startups : ℕ
  pub rollback_count : ℕ
  pub timestamp : String

abbrev pub reported_row : ℕ → String → UpdateStatusReport → BoardVersion
reported_row now board report = record (new_version board) {
  current_version = some report.current_version;
  update_status = report.status;
  last_update_at = some now;
  rollback_count = report.rollback_count;
}

-- The changes to an old row; the branches of the `if` are in the source's order.
unfoldable pub apply_report : ℕ → UpdateStatusReport → BoardVersion → BoardVersion
apply_report now report bv =
    let base = record bv {
      current_version = some report.current_version;
      update_status = report.status;
      last_update_at = some now;
      rollback_count = report.rollback_count;
    } in
    if same report.status "completed"
    then record base { target_version = none; download_progress = 100 }
    else if same report.status "failed" || same report.status "rolled_back"
    then record base { last_error = some report.status }
    else base

abbrev pub status_event : ℕ → String → UpdateStatusReport → UpdateEvent
status_event now board report = record {
  board_id = board;
  event_type = "status_report";
  current_version = some report.current_version;
  previous_version = some report.previous_version;
  target_version = none;
  status = some report.status;
  stable_startups = some report.stable_startups;
  rollback_count = some report.rollback_count;
  error_message = none;
  created_at = now;
}

-- `report_update_status`, for the id of the authenticated board
unfoldable pub report_update_status : ℕ → String → UpdateStatusReport → Action Db Json
unfolding upsert_version apply_report
report_update_status now board report = get_db (do
  modify (λ db. record db {
    versions =
        upsert_version board (reported_row now board report) (apply_report now report) db.versions;
    events = db.events ++ status_event now board report ∷ [];
  })
  pure (obj ("status" ↪ text "ok" ⨾ end)))
