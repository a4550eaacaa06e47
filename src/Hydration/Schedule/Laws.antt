-- ===== src/Hydration/Schedule/Laws.antt =====
-- The schedule against a reference: the slots of each day, picked out of the sorted rows.
use intelli_attend_smart_boa.Base.{
  ℕ, zero, suc, ◌≡◌, refl, sym, ◌∙◌, String, Bool, false, not, none, some, List, [], ◌∷◌, ◌++◌,
  ◌==◌, ◌&&◌, map, arith, leb, some?, keep, if◌then◌else◌, Bool-cases, inl, inr, append_assoc,
  append-nil, same, count_where,
}
use intelli_attend_smart_boa.Base.Sort.{
  number_order, text_order, pair_order, IsSorted, sort_by-IsSorted, count_where-sort_by,
}
use intelli_attend_smart_boa.Dict.{Dict}
use intelli_attend_smart_boa.Json.{Json}
use intelli_attend_smart_boa.Http.{ok, err, crash}
use intelli_attend_smart_boa.Models.{Db, TimetableSlot}
use intelli_attend_smart_boa.Hydration.Schedule.{
  day_name, slot_to_dict, day_and_start, schedule_rows, append_at, fill_schedule, build_schedule,
}

-- A dict with the seven days as keys.
abbrev pub week : (ℕ → List Json) → Dict (List Json)
week f =
    ("monday", f 1)
    ∷ ("tuesday", f 2)
    ∷ ("wednesday", f 3)
    ∷ ("thursday", f 4)
    ∷ ("friday", f 5)
    ∷ ("saturday", f 6)
    ∷ ("sunday", f 7)
    ∷ []

abbrev pub is_weekday : ℕ → Bool
is_weekday day = leb 1 day && leb day 7

abbrev pub off_calendar : TimetableSlot → Bool
off_calendar slot = not (is_weekday slot.day_of_week)

abbrev pub on_day : ℕ → TimetableSlot → Bool
on_day day slot = slot.day_of_week == day

day_name-other : (day : ℕ) → is_weekday day ≡ false → day_name day ≡ "unknown"
unfolding day_name
day_name-other day h = ground arith

append_at-week :
    (day : ℕ) (v : Json) (f : ℕ → List Json)
    → append_at (day_name day) v (week f) ≡ (
        if is_weekday day then some (week (λ n. if day == n then f n ++ v ∷ [] else f n)) else none)
unfolding day_name same
append_at-week (suc zero) v f = refl
append_at-week (suc (suc zero)) v f = refl
append_at-week (suc (suc (suc zero))) v f = refl
append_at-week (suc (suc (suc (suc zero)))) v f = refl
append_at-week (suc (suc (suc (suc (suc zero))))) v f = refl
append_at-week (suc (suc (suc (suc (suc (suc zero)))))) v f = refl
append_at-week (suc (suc (suc (suc (suc (suc (suc zero))))))) v f = refl
append_at-week zero v f = refl
append_at-week (suc (suc (suc (suc (suc (suc (suc (suc day)))))))) v f =
    let off : is_weekday (suc (suc (suc (suc (suc (suc (suc (suc day)))))))) ≡ false =
      ground arith in
    rw (day_name-other (suc (suc (suc (suc (suc (suc (suc (suc day)))))))) off, off) refl

day_values : Db → ℕ → List TimetableSlot → List Json
day_values db day rows = map (slot_to_dict db) (keep (on_day day) rows)

append-day_values :
    (db : Db) (slot : TimetableSlot) (rows : List TimetableSlot) (f : ℕ → List Json) (n : ℕ)
    → (if slot.day_of_week == n then f n ++ slot_to_dict db slot ∷ [] else f n)
        ++ day_values db n rows
      ≡ f n ++ day_values db n (slot ∷ rows)
unfolding day_values
append-day_values db slot rows f n = elim (Bool-cases (slot.day_of_week == n)) [
  | inl e ↦ rw e (append_assoc (f n) (slot_to_dict db slot ∷ []) (day_values db n rows))
  | inr e ↦ rw e refl
]

-- The loop, from any state of the seven days.
fill_schedule-week :
    (db : Db) (rows : List TimetableSlot) (f : ℕ → List Json) (flat : List Json)
    → fill_schedule db rows (week f, flat) ≡ (
        if some? off_calendar rows
        then err crash
        else ok (week (λ n. f n ++ day_values db n rows), flat ++ map (slot_to_dict db) rows))
unfolding fill_schedule day_values
fill_schedule-week db [] f flat =
    λ i. ok (week (λ n. sym (append-nil (f n)) i), sym (append-nil flat) i)
fill_schedule-week db (slot ∷ rows) f flat =
    let value = slot_to_dict db slot in
    let g : ℕ → List Json = λ n. if slot.day_of_week == n then f n ++ value ∷ [] else f n in
    rw (append_at-week slot.day_of_week value f, fill_schedule)
      (elim (Bool-cases (is_weekday slot.day_of_week)) [
        | inl e ↦ rw e (
            fill_schedule-week db rows g (flat ++ value ∷ []) ∙ λ i.
            if some? off_calendar rows
            then err crash
            else ok (
              week (λ n. append-day_values db slot rows f n i),
              append_assoc flat (value ∷ []) (map (slot_to_dict db) rows) i,
            ))
        | inr e ↦ rw e refl
      ])

module _ (room : String) (db : Db) where
  -- The schedule of a room is refused with a crash if one of its slots is on a day outside 1 to 7;
  -- else it is what one gets by picking, for each of the seven days, the slots of that day out of
  -- the room's slots in order, and the flat list has them all. The order is by day and, within a
  -- day, by start time, and the room's slots are all there.
  pub build_schedule_lem :
      let rows = schedule_rows room db in
      (build_schedule room db ≡ (
        if some? off_calendar rows
        then err crash
        else ok (
          week (λ day. map (slot_to_dict db) (keep (on_day day) rows)),
          map (slot_to_dict db) rows,
        )))
      × IsSorted (pair_order number_order text_order) day_and_start rows
      × ((p : TimetableSlot → Bool)
          → count_where p rows
            ≡ count_where p (keep (λ (s : TimetableSlot). same s.room_id room) db.slots))
  unfolding build_schedule schedule_rows day_values
  build_schedule_lem = (
    fill_schedule-week db (schedule_rows room db) (λ _. []) [],
    sort_by-IsSorted _ _ _,
    λ p. count_where-sort_by _ _ p _,
  )
