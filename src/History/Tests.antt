-- ===== src/History/Tests.antt =====
-- A room with a session of today and one of two days before.
use intelli_attend_smart_boa.Base.{
  ℕ, ◌+◌, ◌*◌, ◌≡◌, ◌&&◌, refl, Bool, [], ◌∷◌, same, count_where, ltb,
}
use intelli_attend_smart_boa.Models.{Db, ActiveSession, SessionStatus}
use intelli_attend_smart_boa.Fixtures.{test_env, empty_db, session_row}
use intelli_attend_smart_boa.History.{
  Calendar, day_length, Entry, History, history_of, is_done, past_label, day_label,
}
use intelli_attend_smart_boa.History.Laws.{count_in, in_window, shown, history_partition}
use intelli_attend_smart_boa.History.Events.{counted_on, marked_on, history_calendar}

abbrev calendar : Calendar
calendar = record { month_day = λ t. "Jan 05"; long_date = λ t. "Jan 05, 2026" }

abbrev ten_days : ℕ
ten_days = 10 * day_length

abbrev lesson : ActiveSession
lesson = record session_row { created_at = ten_days }

abbrev earlier : ActiveSession
earlier = record session_row {
  session_id = "SESS_0";
  status = SessionStatus.ended;
  created_at = 8 * day_length;
}

abbrev school_db : Db
school_db = record empty_db { sessions = earlier ∷ lesson ∷ [] }

abbrev board_history : History
board_history = history_of test_env calendar ten_days 30 "R1" school_db

-- Nine days after the epoch it was a Saturday.
saturday : day_label 9 ≡ "Sat"
unfolding day_label
saturday = refl

tomorrow : past_label test_env calendar 10 (11 * day_length) ≡ "Mon"
unfolding past_label day_label
tomorrow = refl

abbrev is_active : Entry → Bool
is_active e = same e.status "active"

history_partition_example :
    count_where is_active board_history.today_sessions
      + count_in is_active board_history.past_sessions
    ≡ count_where
        (λ s.
          in_window ten_days 30 "R1" s
          && is_active (shown test_env calendar ten_days 30 "R1" school_db s))
        school_db.sessions
history_partition_example = history_partition test_env calendar ten_days 30 "R1" school_db is_active

history_calendar_example :
    let on_date : ActiveSession → Bool = λ s. same (test_env.date s.created_at) "2026-01-05" in
    (counted_on "2026-01-05" board_history.calendar_events
      ≡ count_where (λ s. in_window ten_days 30 "R1" s && on_date s) school_db.sessions)
    × (ltb 0 (marked_on "2026-01-05" board_history.calendar_events)
        ≡ ltb 0 (
            count_where
              (λ s. in_window ten_days 30 "R1" s && (on_date s && is_done s.status))
              school_db.sessions))
history_calendar_example =
    history_calendar test_env calendar ten_days 30 "R1" school_db "2026-01-05"
