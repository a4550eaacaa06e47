-- ===== src/History/Laws.antt =====
-- What a board's history shows: every session once, the days counted right, and in which order.
use intelli_attend_smart_boa.Base.{
  ℕ, ◌+◌, ◌*◌, String, ◌≡◌, refl, ◌∙◌, Bool, none, some, List, [], ◌∷◌, ◌++◌, ◌==◌, ◌&&◌, arith,
  map, find, keep, count_where, count_where-append, sum_by, leb, if◌then◌else◌, Bool-cases,
  Option-cases, inl, inr,
}
use intelli_attend_smart_boa.Base.Sort.{
  number_order, text_order, descending, sort_by, IsSorted, sort_by-IsSorted, count_where-sort_by,
  sum_by-sort_by,
}
use intelli_attend_smart_boa.Dict.{Dict, values, lookup, get_or, sum_by-values-insert}
use intelli_attend_smart_boa.Models.{Db, ActiveSession, SessionAttendee}
use intelli_attend_smart_boa.Env.{Env}
use intelli_attend_smart_boa.History.{
  Row, Entry, Day, Event, Buckets, Calendar, day_of, day_length, is_listed, column_eq, joins,
  history_rows, course_codes, build_session_dict, add_past, past_label, bucket, bucket_all,
  history_of,
}

-- The sessions that a history is about.
abbrev pub in_window : (now days_back : ℕ) → (room : String) → ActiveSession → Bool
in_window now days_back room s =
    column_eq s.room_id room
    && is_listed s.status
    && leb (day_of now * day_length) (s.created_at + days_back * day_length)

count_where-map :
    {A B : Type 0} (f : A → B) (p : B → Bool) (xs : List A)
    → count_where p (map f xs) ≡ count_where (λ x. p (f x)) xs
count_where-map f p [] = refl
count_where-map f p (x ∷ xs) = ground (arith, count_where-map f p xs)

count_where-keep_and :
    {A : Type 0} (p q : A → Bool) (xs : List A)
    → count_where p (keep q xs) ≡ count_where (λ x. q x && p x) xs
count_where-keep_and p q [] = refl
count_where-keep_and p q (x ∷ xs) = ground (arith, count_where-keep_and p q xs)

-- The rows are the sessions of the window, each with the slot that it joins.
pub count_where-history_rows :
    (now days_back : ℕ) (room : String) (db : Db) (p : Row → Bool)
    → count_where p (history_rows now days_back room db)
      ≡ count_where
          (λ s. in_window now days_back room s && p (s, find (joins s) db.slots))
          db.sessions
unfolding history_rows
count_where-history_rows now days_back room db p =
    let pair : ActiveSession → Row = λ s. (s, find (joins s) db.slots) in
    let kept = keep (in_window now days_back room) db.sessions in
    count_where-map pair p
      (sort_by (descending number_order) (λ (s : ActiveSession). s.created_at) kept)
    ∙ count_where-sort_by (descending number_order) (λ (s : ActiveSession). s.created_at)
        (λ s. p (pair s)) kept
    ∙ count_where-keep_and (λ s. p (pair s)) (in_window now days_back room) db.sessions

-- How many entries of a list of days pass a test.
abbrev pub count_in : (Entry → Bool) → List Day → ℕ
count_in p = sum_by (λ (d : Day). count_where p d.sessions)

module _ (env : Env) (cal : Calendar) (today : ℕ) (codes : Dict String)
    (attendees : List SessionAttendee) where
  abbrev entry_of : Row → Entry
  entry_of r = build_session_dict env cal codes attendees r.0 r.1

  count_in-add_past :
      (p : Entry → Bool) (created : ℕ) (entry : Entry) (past : Dict Day)
      → count_in p (values (add_past env cal today created entry past))
        ≡ count_in p (values past) + (if p entry then 1 else 0)
  unfolding add_past
  count_in-add_past p created entry past =
      let f : Day → ℕ = λ d. count_where p d.sessions in
      let date = env.date created in
      let fresh : Day = record {
        date = cal.long_date created;
        label = past_label env cal today created;
        sessions = [];
      } in
      let day = get_or date fresh past in
      let new : Day = record day { sessions = day.sessions ++ entry ∷ [] } in
      let grown : f new ≡ f day + (if p entry then 1 else 0) =
        ground (arith, count_where-append p day.sessions (entry ∷ [])) in
      let was : elim (lookup date past) [ none ↦ 0 | some w ↦ f w ] ≡ f day =
        (elim (Option-cases (lookup date past)) [
          | inl e ↦ rw (e, get_or)
          | inr (d, e) ↦ rw (e, get_or)
        ]) in
      omega (arith, sum_by-values-insert f date new past, grown, was)

  count_where-bucket :
      (p : Entry → Bool) (row : Row) (b : Buckets)
      → let b' = bucket env cal today codes attendees row b in
        count_where p b'.today + count_in p (values b'.past)
        ≡ count_where p b.today + count_in p (values b.past) + (if p (entry_of row) then 1 else 0)
  unfolding bucket
  count_where-bucket p (s, slot) b =
      let entry = build_session_dict env cal codes attendees s slot in
      elim (Bool-cases (day_of s.created_at == today)) [
        | inl e ↦ rw e (ground (arith, count_where-append p b.today (entry ∷ [])))
        | inr e ↦ rw e (omega (arith, count_in-add_past p s.created_at entry b.past))
      ]

  -- What is in the three collections after the loop, given what was in them before.
  count_where-bucket_all :
      (p : Entry → Bool) (rows : List Row) (b : Buckets)
      → let b' = bucket_all env cal today codes attendees rows b in
        count_where p b'.today + count_in p (values b'.past)
        ≡ count_where p b.today
          + count_in p (values b.past)
          + count_where (λ r. p (entry_of r)) rows
  unfolding bucket_all
  count_where-bucket_all p [] b = omega arith
  count_where-bucket_all p (row ∷ rows) b = ground (
    arith,
    count_where-bucket p row b,
    count_where-bucket_all p rows (bucket env cal today codes attendees row b),
  )

module _ (env : Env) (cal : Calendar) (now days_back : ℕ) (room : String) (db : Db) where
  -- The entry that a history has for a session.
  abbrev pub shown : ActiveSession → Entry
  shown s =
      build_session_dict env cal (course_codes db.courses (history_rows now days_back room db))
        db.attendees s (find (joins s) db.slots)

  -- A history shows every session of the room that was created in the window and is past its
  -- preparation exactly once, either among today's or in one past day, and it shows no other: any
  -- test holds of as many entries as it holds of the sessions in the window.
  pub history_partition :
      (p : Entry → Bool)
      → let h = history_of env cal now days_back room db in
        count_where p h.today_sessions + count_in p h.past_sessions
        ≡ count_where (λ s. in_window now days_back room s && p (shown s)) db.sessions
  unfolding history_of
  history_partition p =
      let rows = history_rows now days_back room db in
      let codes = course_codes db.courses rows in
      let b =
        bucket_all env cal (day_of now) codes db.attendees rows
          (record { today = []; past = []; events = [] }) in
      omega (
        arith,
        count_where-sort_by text_order (λ (e : Entry). e.start_time) p b.today,
        sum_by-sort_by (descending text_order) (λ (d : Day). d.date)
            (λ (d : Day). count_where p d.sessions) (values b.past),
        count_where-bucket_all env cal (day_of now) codes db.attendees p rows
            (record { today = []; past = []; events = [] }),
        count_where-history_rows now days_back room db
            (λ r. p (build_session_dict env cal codes db.attendees r.0 r.1)),
      )

  -- The lists are in order: today's sessions by their start time, the calendar by its date, and
  -- the past days by the text of their long date, downwards. That is the order of the texts and not
  -- of the days: of two past days the one whose month is later in the alphabet stands first.
  pub history-IsSorted :
      let h = history_of env cal now days_back room db in
      IsSorted text_order (λ (e : Entry). e.start_time) h.today_sessions
      × IsSorted (descending text_order) (λ (d : Day). d.date) h.past_sessions
      × IsSorted text_order (λ (e : Event). e.date) h.calendar_events
  unfolding history_of
  history-IsSorted = (sort_by-IsSorted _ _ _, sort_by-IsSorted _ _ _, sort_by-IsSorted _ _ _)
