-- ===== src/History.antt =====
-- GET /session-history (`get_session_history` of backend/python/main.py), for the data of the
-- authenticated board. A day is counted from the epoch, in UTC.
mod Rows
pub mod Laws
pub mod Events
mod Tests
unfoldable pub use Rows.*
use intelli_attend_smart_boa.Base.{
  ℕ, ◌+◌, ◌*◌, ◌/◌, ◌%◌, ◌^^◌, String, Bool, true, false, not, Option, none, some, List, [], ◌∷◌,
  ◌++◌, ◌==◌, ◌&&◌, ◌||◌, map, same, truthy, or_else, slice_to, find, keep, count_where, ltb, leb,
  if◌then◌else◌,
}
use intelli_attend_smart_boa.Base.Sort.{Order, number_order, text_order, descending, sort_by}
use intelli_attend_smart_boa.Dict.{Dict, values, insert, get_or}
use intelli_attend_smart_boa.Http.{http, Action, raise, gets, raise_if, ◌>>=◌, ◌>>◌}
use intelli_attend_smart_boa.Models.{
  Db, ActiveSession, SessionStatus, SessionAttendee, AttendeeStatus, TimetableSlot, Course, seconds,
}
use intelli_attend_smart_boa.Env.{Env}
use intelli_attend_smart_boa.Security.{BoardData}
use intelli_attend_smart_boa.Session.{status_value}

pub record Entry : Type 0 where
  pub slot_id : String
  pub session_id : String
  pub course_name : String
  pub course_code : String
  pub faculty_name : String
  pub section_id : String
  pub start_time : String
  pub end_time : String
  pub status : String
  pub attendance_count : ℕ
  pub total_students : ℕ
  pub submitted_at : Option String

-- The attendees of a session. A session without any has no key in `total_counts`.
abbrev pub of_session : String → SessionAttendee → Bool
of_session id a = same a.session_id id

abbrev pub present_in : String → SessionAttendee → Bool
present_in id a = same a.session_id id && is_present a.status

abbrev pub total_of : ActiveSession → List SessionAttendee → ℕ
total_of s attendees =
    let total = count_where (of_session s.session_id) attendees in
    if total == 0 then s.roster_count else total

-- `(time or "")[:5]` of a slot that may be missing
abbrev pub clock_time : (TimetableSlot → String) → Option TimetableSlot → String
clock_time time none = ""
clock_time time (some slot) = slice_to 5 (time slot)

-- The dates that `strftime` prints: `date` of Env, and "%b %d" and "%b %d, %Y".
pub record Calendar : Type 0 where
  pub month_day : ℕ → String
  pub long_date : ℕ → String

-- `DAY_LABELS[created.weekday()]`: the first day of the epoch was a Thursday.
unfoldable pub day_label : ℕ → String
day_label day =
    let weekday = (day + 3) % 7 in
    if weekday == 0
    then "Mon"
    else if weekday == 1
    then "Tue"
    else if weekday == 2
    then "Wed"
    else if weekday == 3
    then "Thu"
    else if weekday == 4
    then "Fri"
    else if weekday == 5
    then "Sat"
    else "Sun"

pub record Day : Type 0 where
  pub date : String
  pub label : String
  pub sessions : List Entry

pub record Event : Type 0 where
  pub date : String
  pub session_count : ℕ
  pub has_completed : Bool

-- The three collections that the loop fills.
pub record Buckets : Type 0 where
  pub today : List Entry
  pub past : Dict Day
  pub events : Dict Event

pub record History : Type 0 where
  pub today_sessions : List Entry
  pub past_sessions : List Day
  pub calendar_events : List Event

module _ (env : Env) (cal : Calendar) where
  -- `_build_session_dict`
  unfoldable pub build_session_dict :
      Dict String → List SessionAttendee → ActiveSession → Option TimetableSlot → Entry
  build_session_dict codes attendees s slot =
      let slot_id = or_else s.slot_id "" in
      record {
        slot_id = slot_id;
        session_id = s.session_id;
        course_name = s.course_name;
        course_code = get_or slot_id "" codes;
        faculty_name = s.faculty_name;
        section_id = s.section_id;
        start_time = clock_time (λ (t : TimetableSlot). t.start_time) slot;
        end_time = clock_time (λ (t : TimetableSlot). t.end_time) slot;
        status = status_value s.status;
        attendance_count = count_where (present_in s.session_id) attendees;
        total_students = total_of s attendees;
        submitted_at = elim (s.ended_at) [
          | some t ↦ some (env.isoformat t)
          | none ↦ elim (s.activated_at) [ some t ↦ some (env.isoformat t) | none ↦ none ]
        ];
      }

  -- The label of a past day; a session of a later day than today has the name of its weekday.
  unfoldable pub past_label : (today created : ℕ) → String
  unfolding day_label
  past_label today created =
      let day = day_of created in
      if day + 1 == today
      then "Yesterday"
      else if ltb today (day + 7)
      then day_label day
      else cal.month_day created

  -- The calendar's part of a round.
  unfoldable pub mark_event : ActiveSession → Dict Event → Dict Event
  mark_event s events =
      let date = env.date s.created_at in
      let e =
        get_or date (record { date = date; session_count = 0; has_completed = false }) events in
      insert date
        (record e {
          session_count = e.session_count + 1;
          has_completed = is_done s.status || e.has_completed;
        })
        events

  -- `past_by_date[date_str]["sessions"].append(…)`, where a new day may be opened first.
  unfoldable pub add_past : (today created : ℕ) → Entry → Dict Day → Dict Day
  unfolding past_label
  add_past today created entry past =
      let date = env.date created in
      let day =
        get_or date
          (record { date = cal.long_date created; label = past_label today created; sessions = [] })
          past in
      insert date (record day { sessions = day.sessions ++ entry ∷ [] }) past

  -- One round of the loop.
  unfoldable pub bucket : (today : ℕ) → Dict String → List SessionAttendee → Row → Buckets → Buckets
  unfolding mark_event add_past build_session_dict
  bucket today codes attendees (s, slot) b =
      let entry = build_session_dict codes attendees s slot in
      let is_today = day_of s.created_at == today in
      record {
        today = if is_today then b.today ++ entry ∷ [] else b.today;
        past = if is_today then b.past else add_past today s.created_at entry b.past;
        events = mark_event s b.events;
      }

  unfoldable pub bucket_all :
      (today : ℕ) → Dict String → List SessionAttendee → List Row → Buckets → Buckets
  unfolding bucket
  bucket_all today codes attendees [] b = b
  bucket_all today codes attendees (row ∷ rows) b =
      bucket_all today codes attendees rows (bucket today codes attendees row b)

  unfoldable pub history_of : (now days_back : ℕ) → (room : String) → Db → History
  unfolding history_rows course_codes bucket_all
  history_of now days_back room db =
      let rows = history_rows now days_back room db in
      let codes = course_codes db.courses rows in
      let b =
        bucket_all (day_of now) codes db.attendees rows
          (record { today = []; past = []; events = [] }) in
      record {
        today_sessions = sort_by text_order (λ (e : Entry). e.start_time) b.today;
        past_sessions = sort_by (descending text_order) (λ (d : Day). d.date) (values b.past);
        calendar_events = sort_by text_order (λ (e : Event). e.date) (values b.events);
      }

  -- `get_session_history`, for a number of days that is not negative
  unfoldable pub get_session_history : (now days_back : ℕ) → BoardData → Action Db History
  unfolding history_of
  get_session_history now days_back board = elim (board.room_id) [
    | none ↦ raise (http 400 "Board not bound to a room")
    | some room ↦ do
      raise_if (not (truthy room)) (http 400 "Board not bound to a room")
      gets (history_of now days_back room)
  ]
