-- ===== src/History/Rows.antt =====
-- The sessions of a history with their slots, and the codes of their courses.
use intelli_attend_smart_boa.Base.{
  ℕ, ◌+◌, ◌*◌, ◌/◌, String, Bool, true, false, Option, none, some, List, [], ◌∷◌, ◌&&◌, map, same,
  find, keep, leb,
}
use intelli_attend_smart_boa.Base.Sort.{number_order, descending, sort_by}
use intelli_attend_smart_boa.Dict.{Dict, insert}
use intelli_attend_smart_boa.Models.{
  Db, ActiveSession, SessionStatus, AttendeeStatus, TimetableSlot, Course, seconds,
}

abbrev pub day_length : ℕ
day_length = seconds 86400

-- The day of a time: `replace(hour=0, minute=0, second=0, microsecond=0)`.
abbrev pub day_of : ℕ → ℕ
day_of t = t / day_length

abbrev pub is_present : AttendeeStatus → Bool
is_present AttendeeStatus.present = true
is_present _ = false

-- The statuses of the query, and those that count as completed.
abbrev pub is_listed : SessionStatus → Bool
is_listed SessionStatus.pre_allocated = false
is_listed _ = true

abbrev pub is_done : SessionStatus → Bool
is_done SessionStatus.completed = true
is_done SessionStatus.ended = true
is_done _ = false

-- `column == text` in a query, where the column may be NULL.
abbrev pub column_eq : Option String → String → Bool
column_eq none t = false
column_eq (some s) t = same s t

-- A row of the outer join.
abbrev pub Row : Type 0
Row = ActiveSession × Option TimetableSlot

-- The condition of the outer join.
abbrev pub joins : ActiveSession → TimetableSlot → Bool
joins s slot = column_eq s.slot_id slot.id && column_eq s.room_id slot.room_id

-- The sessions of the room in the window, newest first, with their slots.
unfoldable pub history_rows : (now days_back : ℕ) → (room : String) → Db → List Row
history_rows now days_back room db =
    map (λ (s : ActiveSession). (s, find (joins s) db.slots))
      (sort_by (descending number_order) (λ (s : ActiveSession). s.created_at)
        (keep
          (λ (s : ActiveSession).
            column_eq s.room_id room
            && is_listed s.status
            && leb (day_of now * day_length) (s.created_at + days_back * day_length))
          db.sessions))

-- `course_codes`: the codes of the courses of the slots that were joined.
unfoldable pub course_codes : List Course → List Row → Dict String
course_codes courses [] = []
course_codes courses ((s, none) ∷ rest) = course_codes courses rest
course_codes courses ((s, some slot) ∷ rest) =
    let codes = course_codes courses rest in
    elim (find (λ (c : Course). same c.id slot.course_id) courses) [
      | none ↦ codes
      | some c ↦ insert slot.id c.code codes
    ]
