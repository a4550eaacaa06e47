-- ===== src/Sockets/Live.antt =====
-- The two socket routes behind their tickets, `session_websocket` and `board_websocket` of
-- backend/python/main.py: what a handler sends when it starts, one round of its loop, and its end.
pub mod Steps
mod Tests
use Prim.Native.String
use intelli_attend_smart_boa.Base.{
  ℕ, String, Bool, true, false, Option, none, some, List, [], ◌∷◌, ◌++◌, ◌&&◌, same, or_else, keep,
  map, length, if◌then◌else◌,
}
use intelli_attend_smart_boa.Json.{
  Json, Items, Fields, num, text, arr, obj, nil, cons, end, field, items, get, ◌↪◌⨾◌,
}
use intelli_attend_smart_boa.Models.{Db, SessionAttendee}
use intelli_attend_smart_boa.Env.{Env}
use intelli_attend_smart_boa.History.{is_present}
use intelli_attend_smart_boa.Attendance.{World, handle_attendance_submit}
use intelli_attend_smart_boa.Sockets.Rooms.{Rooms}
use intelli_attend_smart_boa.Sockets.Rooms
use intelli_attend_smart_boa.Sockets.Boards.{Boards}

-- What a handler's `receive_text` gives: a message, or the exception that ends the loop after five
-- minutes or when the client is gone. For a submission, `commits` tells whether the commit of its
-- database session goes through, and `error` is the text of what is raised if not.
pub data Receipt : Type 0 where
  message : (raw : String) (now : ℕ) (commits : Bool) (error : String) → Receipt
  timeout : Receipt
  gone : Receipt

-- The sockets' traffic after `send_json` on a handler's own socket; `none` where it raises.
abbrev pub send_own : (ℕ → Json → Bool) → ℕ → Json → List (ℕ × Json) → Option (List (ℕ × Json))
send_own delivers ws m done = if delivers ws m then some (done ++ (ws, m) ∷ []) else none

-- `present_emails` and `absent_emails` of a message: the texts that a loop over the value meets; a
-- value that has no length; or a list with something else in it, on which the query raises.
pub data Emails : Type 0 where
  listed : List String → Emails
  unsized : Emails
  mixed : Emails

abbrev pub add_email : Json → Emails → Emails
add_email (text e) (listed es) = listed (e ∷ es)
add_email _ _ = mixed

abbrev pub texts_of : Items → Emails
texts_of nil = listed []
texts_of (cons v vs) = add_email v (texts_of vs)

abbrev pub characters : String → List String
characters String.[] = []
characters (String.◌∷◌ c s) = String.◌∷◌ c "" ∷ characters s

abbrev pub keys : Fields → List String
keys end = []
keys (field k v fs) = k ∷ keys fs

unfoldable pub emails_of : Option Json → Emails
emails_of none = listed []
emails_of (some (arr vs)) = texts_of vs
emails_of (some (text s)) = listed (characters s)
emails_of (some (obj fs)) = listed (keys fs)
emails_of (some _) = unsized

-- The rows of the state synchronization.
abbrev pub present_student : Env → SessionAttendee → Json
present_student env a = obj (
    "student_id"
    ↪ text a.student_id ⨾ "student_name"
    ↪ text (or_else a.student_name "") ⨾ "status"
    ↪ text "PRESENT" ⨾ "recorded_at"
    ↪ text (env.isoformat a.recorded_at) ⨾ end)

abbrev pub present_students : Env → (session : String) → Db → List Json
present_students env session db =
    map (present_student env) (
      keep (λ (a : SessionAttendee). same a.session_id session && is_present a.status) db.attendees)

unfoldable pub full_state_sync : Env → (session : String) → Db → Json
full_state_sync env session db = obj (
    "type"
    ↪ text "full_state_sync" ⨾ "session_id"
    ↪ text session ⨾ "total_present"
    ↪ num (length (present_students env session db)) ⨾ "present_students"
    ↪ arr (items (present_students env session db)) ⨾ "message"
    ↪ text "Connected and state synchronized" ⨾ end)

abbrev pub pong : Json
pong = obj ("type" ↪ text "pong" ⨾ end)

-- `data.get("type") == kind`
abbrev pub has_type : String → Fields → Bool
has_type kind data_fields = elim (get "type" data_fields) [
  | some (text t) ↦ same t kind
  | _ ↦ false
]

module _ (env : Env) (delivers : ℕ → Json → Bool) where
  -- An answer on the handler's own socket, and whether the handler goes on.
  abbrev pub reply : ℕ → Json → World → Bool × World
  reply ws m w = elim (send_own delivers ws m w.rooms.delivered) [
    | none ↦ (false, w)
    | some done ↦
        let rooms : Rooms = w.rooms in
        (true, record w { rooms = record rooms { delivered = done } })
  ]

  -- The answer to a submission that failed: that it cannot be sent is ignored.
  abbrev pub reply_error : ℕ → World × Option Json → World
  reply_error ws (w, none) = w
  reply_error ws (w, some m) = (reply ws m w).1

  -- `_handle_attendance_submit` on a decoded message; the length of a value without one raises,
  -- outside of its `try`.
  unfoldable pub submit_message :
      (session : String)
      → (ws now : ℕ) → (commits : Bool) → (error : String) → Fields
      → World
      → Bool × World
  unfolding emails_of handle_attendance_submit
  submit_message session ws now commits error fields w =
      elim (emails_of (get "present_emails" fields)) [
        | unsized ↦ (false, w)
        | mixed ↦ elim (emails_of (get "absent_emails" fields)) [
          | unsized ↦ (false, w)
          | _ ↦ (
            true,
            reply_error ws (handle_attendance_submit env delivers (some error) now session [] [] w),
          )
        ]
        | listed present ↦ elim (emails_of (get "absent_emails" fields)) [
          | unsized ↦ (false, w)
          | mixed ↦ (
            true,
            reply_error ws (handle_attendance_submit env delivers (some error) now session [] [] w),
          )
          | listed absent ↦ (
            true,
            reply_error ws (
                handle_attendance_submit env delivers (if commits then none else some error) now
                  session present absent w),
          )
        ]
      ]

  -- A round of the loop of `session_websocket`: whether the handler goes on, and the world. Text
  -- that is no JSON is skipped; JSON that is no object has no `get`, which raises.
  unfoldable pub session_round : (session : String) → ℕ → Receipt → World → Bool × World
  unfolding submit_message
  session_round session ws timeout w = (false, w)
  session_round session ws gone w = (false, w)
  session_round session ws (message raw now commits error) w = elim (env.loads raw) [
    | none ↦ (true, w)
    | some v ↦ elim v [
      | obj fields ↦
          if has_type "ping" fields
          then reply ws pong w
          else if has_type "attendance_submit" fields
          then submit_message session ws now commits error fields w
          else (true, w)
      | _ ↦ (false, w)
    ]
  ]

  -- `session_websocket` up to its loop, for an accepted ticket.
  unfoldable pub session_start : (session : String) → ℕ → World → Bool × World
  unfolding full_state_sync
  session_start session ws w =
      let joined = record w { rooms = Rooms.connect session ws w.rooms } in
      reply ws (full_state_sync env session w.db) joined

  -- A round of the loop of `board_websocket`, on the state of the board sockets.
  unfoldable pub board_round : ℕ → Receipt → Boards → Bool × Boards
  board_round ws timeout b = (false, b)
  board_round ws gone b = (false, b)
  board_round ws (message raw now commits error) b = elim (env.loads raw) [
    | none ↦ (true, b)
    | some v ↦ elim v [
      | obj fields ↦
          if has_type "ping" fields
          then elim (send_own delivers ws pong b.delivered) [
            | none ↦ (false, b)
            | some done ↦ (true, record b { delivered = done })
          ]
          else (true, b)
      | _ ↦ (false, b)
    ]
  ]
