-- ===== src/History/Events.antt =====
-- What the calendar of a history counts.
use intelli_attend_smart_boa.Base.{
  ℕ, ◌+◌, String, ◌≤◌, ltb, ◌≡◌, refl, ◌∙◌, false, none, some, List, [], ◌∷◌, ◌&&◌, ◌||◌, arith,
  same, same_iff, count_where, sum_by, if◌then◌else◌, Bool-cases, Option-cases, inl, inr,
}
use intelli_attend_smart_boa.Base.Sort.{text_order, sum_by-sort_by}
use intelli_attend_smart_boa.Dict.{
  Dict, values, lookup, insert, get_or, sum_by-values-insert, lookup-le-sum_by,
}
use intelli_attend_smart_boa.Models.{Db, ActiveSession, SessionAttendee}
use intelli_attend_smart_boa.Env.{Env}
use intelli_attend_smart_boa.History.{
  Row, Event, Buckets, Calendar, day_of, is_done, course_codes, history_rows, mark_event, bucket,
  bucket_all, history_of,
}
use intelli_attend_smart_boa.History.Laws.{in_window, count_where-history_rows}

-- Every event is stored under its date.
IsKeyed : Dict Event → Type 0
IsKeyed [] = Unit
IsKeyed ((k, e) ∷ d) = (e.date ≡ k) × IsKeyed d

IsKeyed-insert :
    (k : String) (e : Event) (d : Dict Event) → e.date ≡ k → IsKeyed d → IsKeyed (insert k e d)
unfolding IsKeyed
IsKeyed-insert k e [] h all = (h, tt)
IsKeyed-insert k e ((j, w) ∷ d) h (a, all) = elim (Bool-cases (same j k)) [
  | inl y ↦ rw y (ground (arith, same_iff j k), all)
  | inr n ↦ rw n (a, IsKeyed-insert k e d h all)
]

lookup-IsKeyed :
    (k : String) (d : Dict Event) (e : Event) → IsKeyed d → lookup k d ≡ some e → e.date ≡ k
unfolding IsKeyed
lookup-IsKeyed k [] e all h = ground arith
lookup-IsKeyed k ((j, w) ∷ d) e (a, all) h = ground (arith, same_iff j k, lookup-IsKeyed k d e all)

-- The sessions that the events of a date count.
abbrev pub counted_on : String → List Event → ℕ
counted_on date = sum_by (λ (e : Event). if same e.date date then e.session_count else 0)

-- How many events of a date are marked as having a completed session.
abbrev pub marked_on : String → List Event → ℕ
marked_on date =
    sum_by (λ (e : Event). if same e.date date then (if e.has_completed then 1 else 0) else 0)

module _ (env : Env) (cal : Calendar) where
  abbrev event_before : String → Dict Event → Event
  event_before date events =
      get_or date (record { date = date; session_count = 0; has_completed = false }) events

  date-event_before :
      (date : String) (events : Dict Event)
      → IsKeyed events
      → (event_before date events).date ≡ date
  date-event_before date events all = elim (Option-cases (lookup date events)) [
    | inl e ↦ rw (e, get_or) refl
    | inr (w, e) ↦ rw (e, get_or) (lookup-IsKeyed date events w all e)
  ]

  IsKeyed-mark_event :
      (s : ActiveSession) (events : Dict Event)
      → IsKeyed events
      → IsKeyed (mark_event env cal s events)
  unfolding mark_event
  IsKeyed-mark_event s events all =
      IsKeyed-insert (env.date s.created_at) _ events
        (date-event_before (env.date s.created_at) events all) all

  counted_on-mark_event :
      (date : String) (s : ActiveSession) (events : Dict Event)
      → IsKeyed events
      → counted_on date (values (mark_event env cal s events))
        ≡ counted_on date (values events) + (if same (env.date s.created_at) date then 1 else 0)
  unfolding mark_event
  counted_on-mark_event date s events all =
      let key = env.date s.created_at in
      let before = event_before key events in
      let f : Event → ℕ = λ e. if same e.date date then e.session_count else 0 in
      let after : Event = record before {
        session_count = before.session_count + 1;
        has_completed = is_done s.status || before.has_completed;
      } in
      let dated = date-event_before key events all in
      let grown : f after ≡ f before + (if same key date then 1 else 0) = rw dated (ground arith) in
      let was : elim (lookup key events) [ none ↦ 0 | some w ↦ f w ] ≡ f before =
        (elim (Option-cases (lookup key events)) [
          | inl e ↦ rw (e, get_or) (ground arith)
          | inr (d, e) ↦ rw (e, get_or) refl
        ]) in
      omega (arith, sum_by-values-insert f key after events, grown, was)

  -- A date is marked as soon as one completed session of it is counted.
  marked_on-mark_event :
      (date : String) (s : ActiveSession) (events : Dict Event)
      → IsKeyed events
      → ltb 0 (marked_on date (values (mark_event env cal s events))) ≡ (
          ltb 0 (marked_on date (values events))
          || (same (env.date s.created_at) date && is_done s.status))
  unfolding mark_event
  marked_on-mark_event date s events all =
      let key = env.date s.created_at in
      let before = event_before key events in
      let f : Event → ℕ = λ e. if same e.date date then (if e.has_completed then 1 else 0) else 0 in
      let after : Event = record before {
        session_count = before.session_count + 1;
        has_completed = is_done s.status || before.has_completed;
      } in
      let dated = date-event_before key events all in
      let grown : f after
          ≡ (if same key date then (if is_done s.status then 1 else f before) else f before) =
        rw dated (ground arith) in
      let small : f before ≤ 1 = ground arith in
      let was : elim (lookup key events) [ none ↦ 0 | some w ↦ f w ] ≡ f before =
        (elim (Option-cases (lookup key events)) [
          | inl e ↦ rw (e, get_or) (ground arith)
          | inr (d, e) ↦ rw (e, get_or) refl
        ]) in
      let held = lookup-le-sum_by f key events in
      let moved = sum_by-values-insert f key after events in ground arith

  -- The loop's part that fills the calendar.
  module _ (today : ℕ) (codes : Dict String) (attendees : List SessionAttendee) where
    counted_on-bucket_all :
        (date : String) (rows : List Row) (b : Buckets)
        → IsKeyed b.events
        → counted_on date (values (bucket_all env cal today codes attendees rows b).events)
          ≡ counted_on date (values b.events)
            + count_where (λ (r : Row). same (env.date r.0.created_at) date) rows
    unfolding bucket_all bucket
    counted_on-bucket_all date [] b all = omega arith
    counted_on-bucket_all date ((s, slot) ∷ rows) b all = ground (
      arith,
      counted_on-mark_event date s b.events all,
      counted_on-bucket_all date rows (bucket env cal today codes attendees (s, slot) b)
          (IsKeyed-mark_event s b.events all),
    )

    marked_on-bucket_all :
        (date : String) (rows : List Row) (b : Buckets)
        → IsKeyed b.events
        → ltb 0 (marked_on date (values (bucket_all env cal today codes attendees rows b).events))
          ≡ (ltb 0 (marked_on date (values b.events))
              || ltb 0 (
                  count_where
                    (λ (r : Row). same (env.date r.0.created_at) date && is_done r.0.status)
                    rows))
    unfolding bucket_all bucket
    marked_on-bucket_all date [] b all = ground arith
    marked_on-bucket_all date ((s, slot) ∷ rows) b all = ground (
      arith,
      marked_on-mark_event date s b.events all,
      marked_on-bucket_all date rows (bucket env cal today codes attendees (s, slot) b)
          (IsKeyed-mark_event s b.events all),
    )

-- The calendar of a history counts, for every date, the sessions of the room in the window that
-- were created on that date, and it marks a date as completed exactly if one of them is completed or
-- ended.
pub history_calendar :
    (env : Env) (cal : Calendar) (now days_back : ℕ) (room : String) (db : Db) (date : String)
    → let h = history_of env cal now days_back room db in
      let shown = in_window now days_back room in
      (counted_on date h.calendar_events
        ≡ count_where (λ s. shown s && same (env.date s.created_at) date) db.sessions)
      × (ltb 0 (marked_on date h.calendar_events)
          ≡ ltb 0 (
              count_where
                (λ s. shown s && (same (env.date s.created_at) date && is_done s.status))
                db.sessions))
unfolding history_of IsKeyed
history_calendar env cal now days_back room db date =
    let rows = history_rows now days_back room db in
    let codes = course_codes db.courses rows in
    let empty : Buckets = record { today = []; past = []; events = [] } in
    let b = bucket_all env cal (day_of now) codes db.attendees rows empty in
    (
      omega (
        arith,
        sum_by-sort_by text_order (λ (e : Event). e.date)
            (λ (e : Event). if same e.date date then e.session_count else 0) (values b.events),
        counted_on-bucket_all env cal (day_of now) codes db.attendees date rows empty tt,
        count_where-history_rows now days_back room db (λ r. same (env.date r.0.created_at) date),
      ),
      (λ i. ltb 0 (
            sum_by-sort_by text_order (λ (e : Event). e.date)
              (λ (e : Event). if same e.date date then (if e.has_completed then 1 else 0) else 0)
              (values b.events) i))
          ∙ marked_on-bucket_all env cal (day_of now) codes db.attendees date rows empty tt
          ∙ (λ i. ltb 0 (
              count_where-history_rows now days_back room db
                (λ r. same (env.date r.0.created_at) date && is_done r.0.status) i)),
    )
