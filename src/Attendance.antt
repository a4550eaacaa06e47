-- ===== src/Attendance.antt =====
-- Attendance in backend/python/main.py: the upsert of `session_attendees` by the socket handler
-- `_handle_attendance_submit` and by its REST fallback, and the vault of offline scans.
pub mod Laws
mod Tests
use intelli_attend_smart_boa.Base.{
  ℕ, String, Bool, true, false, Option, none, some, List, [], ◌∷◌, ◌++◌, ◌&&◌, map, same, find,
  modify_first, length,
}
use intelli_attend_smart_boa.Json.{Json, num, text, obj, end, ◌↪◌⨾◌}
use intelli_attend_smart_boa.Http.{Action, crash, pure, raise, modify, ◌>>=◌, ◌>>◌, get_db}
use intelli_attend_smart_boa.Models.{Db, SessionAttendee, AttendeeStatus, AttendanceVault}
use intelli_attend_smart_boa.Env.{Env}
use intelli_attend_smart_boa.Sockets.Rooms.{Rooms, broadcast}

abbrev pub is_row : (session email : String) → SessionAttendee → Bool
is_row session email a = same a.session_id session && same a.student_id email

abbrev pub new_row : ℕ → AttendeeStatus → (session email : String) → SessionAttendee
new_row now status session email = record {
  session_id = session;
  student_id = email;
  student_name = some "";
  status = status;
  recorded_at = now;
}

-- The body of the two loops of `_handle_attendance_submit`: the first row of the student is changed, or a new one is added.
unfoldable pub mark :
    ℕ → AttendeeStatus → (session email : String) → List SessionAttendee → List SessionAttendee
mark now status session email rows = elim (find (is_row session email) rows) [
  | none ↦ rows ++ new_row now status session email ∷ []
  | some existing ↦
      modify_first (is_row session email) (λ r. record r { status = status; recorded_at = now })
        rows
]

unfoldable pub mark_all :
    ℕ → AttendeeStatus → String → List String → List SessionAttendee → List SessionAttendee
mark_all now status session [] rows = rows
mark_all now status session (email ∷ emails) rows =
    mark_all now status session emails (mark now status session email rows)

-- The two loops of `_handle_attendance_submit`, in the source's order.
unfoldable pub submit :
    ℕ → String → (present absent : List String) → List SessionAttendee → List SessionAttendee
unfolding mark_all mark
submit now session present absent rows =
    mark_all now AttendeeStatus.absent session absent
      (mark_all now AttendeeStatus.present session present rows)

-- The loop over `present_emails` of `submit_attendance_rest`.
unfoldable pub rest_present : ℕ → String → List String → List SessionAttendee → List SessionAttendee
rest_present now session [] rows = rows
rest_present now session (email ∷ emails) rows = elim (find (is_row session email) rows) [
  | none ↦
      rest_present now session emails
        (rows ++ new_row now AttendeeStatus.present session email ∷ [])
  | some existing ↦ rest_present now session emails (
      modify_first (is_row session email)
        (λ r. record r { status = AttendeeStatus.present; recorded_at = now }) rows)
]

-- The loop over `absent_emails` of `submit_attendance_rest`.
unfoldable pub rest_absent : ℕ → String → List String → List SessionAttendee → List SessionAttendee
rest_absent now session [] rows = rows
rest_absent now session (email ∷ emails) rows = elim (find (is_row session email) rows) [
  | none ↦
      rest_absent now session emails (rows ++ new_row now AttendeeStatus.absent session email ∷ [])
  | some existing ↦ rest_absent now session emails (
      modify_first (is_row session email)
        (λ r. record r { status = AttendeeStatus.absent; recorded_at = now }) rows)
]

abbrev pub confirmation : (issued session : String) → (present absent : List String) → Json
confirmation issued session present absent = obj (
    "type"
    ↪ text "attendance_submitted" ⨾ "session_id"
    ↪ text session ⨾ "present_count"
    ↪ num (length present) ⨾ "absent_count"
    ↪ num (length absent) ⨾ "timestamp"
    ↪ text issued ⨾ end)

-- The database and the process-wide `manager`.
pub record World : Type 0 where
  pub db : Db
  pub rooms : Rooms

abbrev pub with_attendees : (List SessionAttendee → List SessionAttendee) → World → World
with_attendees f w =
    let db : Db = w.db in record w { db = record db { attendees = f db.attendees } }

-- `commit()`, which goes through or raises an error with a message.
abbrev pub commit : Option String → Action World (Unit {0})
commit none = pure tt
commit (some error) = raise crash

module _ (env : Env) (delivers : ℕ → Json → Bool) where
  -- `_handle_attendance_submit`. `commits` is the error that the commit raises, if it does. The
  -- session is then left without a commit and drops its changes, nothing is broadcast, and the
  -- sender is answered with the error, which is the second part of the result.
  unfoldable pub handle_attendance_submit :
      (commits : Option String) (now : ℕ) (session : String) (present absent : List String)
      → World
      → World × Option Json
  unfolding submit broadcast get_db
  handle_attendance_submit commits now session present absent w =
      let (r, w') =
        get_db (do modify (with_attendees (submit now session present absent)); commit commits) w in
      elim commits [
        | none ↦ (
          record w' {
            rooms =
                broadcast delivers (confirmation (env.isoformat now) session present absent) session
                  w'.rooms;
          },
          none,
        )
        | some error ↦ (
          w',
          some (
              obj (
                "type"
                ↪ text "attendance_submit_error" ⨾ "session_id"
                ↪ text session ⨾ "error"
                ↪ text error ⨾ end)),
        )
      ]

  -- `submit_attendance_rest`, on the session of `get_db`, which is rolled back where it raises.
  unfoldable pub submit_attendance_rest :
      (commits : Option String) (now : ℕ) (session : String) (present absent : List String)
      → Action World Json
  unfolding rest_present rest_absent broadcast get_db
  submit_attendance_rest commits now session present absent = get_db (do
    modify (with_attendees (rest_present now session present))
    modify (with_attendees (rest_absent now session absent))
    commit commits
    modify (λ w. record w {
      rooms =
          broadcast delivers (confirmation (env.isoformat now) session present absent) session
            w.rooms;
    })
    pure (
        obj (
          "status"
          ↪ text "success" ⨾ "present"
          ↪ num (length present) ⨾ "absent"
          ↪ num (length absent) ⨾ end)))

-- `QueuedScan`, `VaultSyncRequest`
pub record QueuedScan : Type 0 where
  pub student_id : String
  pub qr_payload : String
  pub timestamp : ℕ

pub record VaultSyncRequest : Type 0 where
  pub session_id : String
  pub queued_scans : List QueuedScan

abbrev pub vault_entry : ℕ → (board session : String) → QueuedScan → AttendanceVault
vault_entry now board session scan = record {
  session_id = session;
  student_id = scan.student_id;
  qr_payload = scan.qr_payload;
  timestamp = scan.timestamp;
  synced_at = now;
  board_id = board;
}

-- `sync_vault`, for the id of the authenticated board
unfoldable pub sync_vault : ℕ → (board : String) → VaultSyncRequest → Action Db Json
sync_vault now board q = get_db (do
  modify (λ db. record db {
    vault = db.vault ++ map (vault_entry now board q.session_id) q.queued_scans;
  })
  pure (obj ("status" ↪ text "success" ⨾ "synced_count" ↪ num (length q.queued_scans) ⨾ end)))
