-- ===== src/Fleet/Push.antt =====
-- POST /api/v1/admin/board/{board_id}/update and /rollback, as handlers behind the admin guard.
-- `cmd_id` is the drawn uuid, `issued` the ISO text of the time, `now` the time of new rows.
pub mod Laws
use intelli_attend_smart_boa.Base.{
  ℕ, String, Bool, true, false, not, Option, none, some, List, [], ◌∷◌, ◌++◌, ◌&&◌, same, truthy,
  ltb, find, modify_first, if◌then◌else◌, ◌^^◌,
}
use intelli_attend_smart_boa.Json.{PyInt, natural, int_json, Json, bool, num, text, obj, end, ◌↪◌⨾◌}
use intelli_attend_smart_boa.Http.{
  Error, http, Action, pure, raise, gets, raise_if, modify, ◌>>=◌, ◌>>◌,
}
use intelli_attend_smart_boa.Models.{Db, BoardVersion, UpdateEvent}
use intelli_attend_smart_boa.Sockets.Boards.{Boards, send_or_queue}
use intelli_attend_smart_boa.Admin.Guard.{World}
use intelli_attend_smart_boa.Fleet.Report.{for_version, new_version, upsert_version}
use intelli_attend_smart_boa.Fleet.Release.{AdminRollbackRequest, rolling_back, rollback_event}

-- `AdminUpdateRequest`
pub record AdminUpdateRequest : Type 0 where
  pub target_version : String
  pub download_url : String
  pub sha256 : String
  pub force : Bool
  pub rollout_percentage : PyInt
  pub release_notes : String

abbrev pub set_target : String → BoardVersion → BoardVersion
set_target target bv = record bv { target_version = some target; update_status = "downloading" }

abbrev pub push_event : ℕ → (board target : String) → UpdateEvent
push_event now board target = record {
  board_id = board;
  event_type = "admin_push";
  current_version = none;
  previous_version = none;
  target_version = some target;
  status = some "pushed";
  stable_startups = none;
  rollback_count = none;
  error_message = none;
  created_at = now;
}

unfoldable pub update_payload : (cmd_id issued : String) → AdminUpdateRequest → Json
update_payload cmd_id issued q = obj (
    "type"
    ↪ text "update_available" ⨾ "command_id"
    ↪ text cmd_id ⨾ "manifest"
    ↪ obj (
        "minimum_version"
        ↪ text q.target_version ⨾ "download_url"
        ↪ text q.download_url ⨾ "sha256"
        ↪ text q.sha256 ⨾ "force"
        ↪ bool q.force ⨾ "rollout_percentage"
        ↪ int_json q.rollout_percentage ⨾ "release_notes"
        ↪ text q.release_notes ⨾ end) ⨾
      "issued_at"
    ↪ text issued ⨾ end)

-- The update that a rollback is sent as.
abbrev pub rollback_update : (target reason : String) → AdminUpdateRequest
rollback_update target reason = record {
  target_version = target;
  download_url = "";
  sha256 = "";
  force = true;
  rollout_percentage = natural 100;
  release_notes = "Admin rollback: " ^^ reason;
}

abbrev pub is_report : String → UpdateEvent → Bool
is_report board e = same e.board_id board && same e.event_type "status_report"

-- The board's status report that was logged last: `order_by(created_at.desc()).limit(1)`.
unfoldable pub last_report : String → Option UpdateEvent → List UpdateEvent → Option UpdateEvent
last_report board best [] = best
last_report board best (e ∷ rest) =
    let newer : Bool = elim best [ none ↦ true | some b ↦ ltb b.created_at e.created_at ] in
    last_report board (if is_report board e && newer then some e else best) rest

abbrev pub previous_of : Option UpdateEvent → String
previous_of none = ""
previous_of (some e) = elim (e.previous_version) [ none ↦ "" | some v ↦ v ]

-- The target of a rollback: the requested version, or else, for a board with a row, the previous
-- version of its last report. `""` where neither is known.
unfoldable pub rollback_target : String → String → Db → String
unfolding last_report
rollback_target board requested db = elim (find (for_version board) db.versions) [
  | none ↦ requested
  | some bv ↦ if truthy requested then requested else previous_of (last_report board none db.events)
]

abbrev pub answer_of : Bool → (cmd_id board : String) → Json
answer_of sent cmd_id board = obj (
    "status"
    ↪ text (if sent then "sent" else "queued") ⨾ "command_id"
    ↪ text cmd_id ⨾ "board_id"
    ↪ text board ⨾ end)

module _ (delivers : ℕ → Json → Bool) where
  -- The sending of a command as a step on the state of the routes.
  abbrev pub emit : String → Json → Action World Bool
  emit board command w =
      let (sent, s) = send_or_queue delivers board command w.boards in
      pure sent (record w { boards = s })

  -- `admin_push_update`
  unfoldable pub admin_push_update :
      ℕ → (cmd_id issued board : String) → AdminUpdateRequest → Action World Json
  unfolding upsert_version
  admin_push_update now cmd_id issued board q = do
    modify (λ w.
        let db : Db = w.db in
        record w {
          db = record db {
            versions =
                upsert_version board (set_target q.target_version (new_version board))
                  (set_target q.target_version) db.versions;
            events = db.events ++ push_event now board q.target_version ∷ [];
          };
        })
    sent ← emit board (update_payload cmd_id issued q)
    pure (answer_of sent cmd_id board)

  -- `admin_rollback_board`
  unfoldable pub admin_rollback_board :
      ℕ → (cmd_id issued board : String) → AdminRollbackRequest → Action World Json
  unfolding rollback_target
  admin_rollback_board now cmd_id issued board q = do
    target ← gets (λ w. rollback_target board q.target_version w.db)
    raise_if (not (truthy target)) (http 400 "Cannot determine rollback target version")
    modify (λ w.
        let db : Db = w.db in
        record w {
          db = record db {
            versions = modify_first (for_version board) (rolling_back target) db.versions;
            events = db.events ++ rollback_event now target q.reason board ∷ [];
          };
        })
    sent ← emit board (update_payload cmd_id issued (rollback_update target q.reason))
    pure (
        obj (
          "status"
          ↪ text (if sent then "sent" else "queued") ⨾ "command_id"
          ↪ text cmd_id ⨾ "board_id"
          ↪ text board ⨾ "target_version"
          ↪ text target ⨾ end))
