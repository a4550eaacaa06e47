-- ===== src/Hydration/Roster/Laws.antt =====
-- Which rosters a room gets.
use intelli_attend_smart_boa.Base.{
  ◌≡◌, ◌≢◌, refl, sym, ◌∙◌, String, Bool, true, false, Option, none, some, List, [], ◌∷◌, ◌++◌,
  ◌&&◌, ◌||◌, arith, same, same_iff, same_refl, some?, keep, Bool-cases, Option-cases, List-cases,
  inl, inr, ◌⊎◌,
}
use intelli_attend_smart_boa.Dict.{Dict, lookup, lookup-insert}
use intelli_attend_smart_boa.Json.{Json}
use intelli_attend_smart_boa.Models.{Db, TimetableSlot}
use intelli_attend_smart_boa.Hydration.Schedule.{course_of, section_of}
use intelli_attend_smart_boa.Hydration.Roster.{
  Pair, same_pair, add_pair, collect_pairs, students_in, roster_key, add_roster, fill_rosters,
  room_pairs, build_rosters,
}

-- A slot of which both the section and the course are there, and are these.
abbrev pub teaches : Db → Pair → TimetableSlot → Bool
teaches db pair slot = elim (section_of db slot.section_id) [
  | none ↦ false
  | some s ↦ elim (course_of db slot.course_id) [
    | none ↦ false
    | some c ↦ same_pair pair (s.id, c.id)
  ]
]

some?-append :
    {A : Type 0} (p : A → Bool) (xs ys : List A) → some? p (xs ++ ys) ≡ (some? p xs || some? p ys)
some?-append p [] ys = refl
some?-append p (x ∷ xs) ys = ground (arith, some?-append p xs ys)

-- A set holds what is added and what it held.
some?-add_pair :
    (p q : Pair) (pairs : List Pair)
    → some? (same_pair p) (add_pair q pairs) ≡ (some? (same_pair p) pairs || same_pair p q)
some?-add_pair (a, b) (c, d) pairs = elim (Bool-cases (same_pair (a, b) (c, d))) [
  | inl e ↦
      let p_eq_q : Path Pair (a, b) (c, d) =
        λ i. ((same_iff a c).0 (ground arith) i, (same_iff b d).0 (ground arith) i) in
      rw p_eq_q (
        ground
          (arith, some?-append (same_pair (c, d)) pairs ((c, d) ∷ []), same_refl c, same_refl d))
  | inr e ↦ ground (arith, some?-append (same_pair (a, b)) pairs ((c, d) ∷ []))
]

some?-collect_pairs :
    (db : Db) (p : Pair) (slots : List TimetableSlot) (pairs : List Pair)
    → some? (same_pair p) (collect_pairs db slots pairs)
      ≡ (some? (same_pair p) pairs || some? (teaches db p) slots)
unfolding collect_pairs
some?-collect_pairs db p [] pairs = ground arith
some?-collect_pairs db p (slot ∷ slots) pairs =
    elim (Option-cases (section_of db slot.section_id)) [
      | inl e ↦ ground (arith, some?-collect_pairs db p slots pairs)
      | inr (s, e) ↦ elim (Option-cases (course_of db slot.course_id)) [
        | inl k ↦ ground (arith, some?-collect_pairs db p slots pairs)
        | inr (c, k) ↦ ground (
          arith,
          some?-collect_pairs db p slots (add_pair (s.id, c.id) pairs),
          some?-add_pair p (s.id, c.id) pairs,
        )
      ]
    ]

-- The walk over a set meets what is in the set.
room_pairs-some? :
    (room : String) (db : Db) (p : Pair)
    → some? (same_pair p) (room_pairs room db)
      ≡ some? (teaches db p) (keep (λ (s : TimetableSlot). same s.room_id room) db.slots)
unfolding room_pairs
room_pairs-some? room db p = some?-collect_pairs db p _ []

-- The pair has students, who are stored under the key.
abbrev pub IsRosterOf : Db → String → List Json → Pair → Type 0
IsRosterOf db key students p =
    (roster_key db p ≡ key) × (students_in db p ≡ students) × (students ≢ [])

lookup-add_roster :
    (db : Db) (key : String) (students : List Json) (pair : Pair) (rosters : Dict (List Json))
    → lookup key (add_roster db pair rosters) ≡ some students
    → (lookup key rosters ≡ some students) ⊎ IsRosterOf db key students pair
lookup-add_roster db key students pair rosters h = elim (List-cases (students_in db pair)) [
  | inl e ↦ inl (ground arith)
  | inr (s, rest, e) ↦ ground (
    arith,
    lookup-insert (roster_key db pair) key (s ∷ rest) rosters,
    same_iff (roster_key db pair) key,
  )
]

-- A roster that is stored comes from one of the pairs that were walked, or was there before.
lookup-fill_rosters :
    (db : Db) (key : String) (students : List Json) (pairs : List Pair) (rosters : Dict (List Json))
    → lookup key (fill_rosters db pairs rosters) ≡ some students
    → (lookup key rosters ≡ some students)
      ⊎ ((p : Pair) × (some? (same_pair p) pairs ≡ true) × IsRosterOf db key students p)
unfolding fill_rosters
lookup-fill_rosters db key students [] rosters h = inl h
lookup-fill_rosters db key students (pair ∷ pairs) rosters h =
    elim (lookup-fill_rosters db key students pairs (add_roster db pair rosters) h) [
      | inr (p, found, rest) ↦ inr (p, ground arith, rest)
      | inl before ↦ elim (lookup-add_roster db key students pair rosters before) [
        | inl older ↦ inl older
        | inr new ↦ inr (pair, ground (arith, same_refl pair.0, same_refl pair.1), new)
      ]
    ]

abbrev pub has_key : String → Dict (List Json) → Bool
has_key key d = elim (lookup key d) [ none ↦ false | some _ ↦ true ]

-- The pair has students, and their key is this one.
abbrev pub fills : Db → String → Pair → Bool
fills db key p =
    same (roster_key db p) key && elim (students_in db p) [ [] ↦ false | s ∷ rest ↦ true ]

has_key-add_roster :
    (db : Db) (key : String) (p : Pair) (rosters : Dict (List Json))
    → has_key key (add_roster db p rosters) ≡ (has_key key rosters || fills db key p)
has_key-add_roster db key p rosters = elim (List-cases (students_in db p)) [
  | inl e ↦ ground arith
  | inr (s, rest, e) ↦ ground (arith, lookup-insert (roster_key db p) key (s ∷ rest) rosters)
]

has_key-fill_rosters :
    (db : Db) (key : String) (pairs : List Pair) (rosters : Dict (List Json))
    → has_key key (fill_rosters db pairs rosters)
      ≡ (has_key key rosters || some? (fills db key) pairs)
unfolding fill_rosters
has_key-fill_rosters db key [] rosters = ground arith
has_key-fill_rosters db key (p ∷ pairs) rosters = ground (
  arith,
  has_key-fill_rosters db key pairs (add_roster db p rosters),
  has_key-add_roster db key p rosters,
)

some?-at :
    {A : Type 0} (p q : A → Bool) (xs : List A)
    → ((x : A) → p x ≡ true → q x ≡ true)
    → some? p xs ≡ true
    → some? q xs ≡ true
some?-at p q [] h k = ground arith
some?-at p q (x ∷ xs) h k = ground (arith, h x, some?-at p q xs h)

fills-same_pair :
    (db : Db) (key : String) (p q : Pair)
    → fills db key p ≡ true
    → same_pair p q ≡ true
    → fills db key q ≡ true
fills-same_pair db key (a, b) (c, d) h k =
    let p_eq_q : Path Pair (c, d) (a, b) =
      λ i. (sym ((same_iff a c).0 (ground arith)) i, sym ((same_iff b d).0 (ground arith)) i) in
    rw p_eq_q h

some?-fills :
    (db : Db) (key : String) (p : Pair) (pairs : List Pair)
    → fills db key p ≡ true
    → some? (same_pair p) pairs ≡ true
    → some? (fills db key) pairs ≡ true
some?-fills db key p pairs h k =
    some?-at (same_pair p) (fills db key) pairs (λ q. fills-same_pair db key p q h) k

-- What a room's slots say about a roster: nothing is stored under a key, and no class of theirs has
-- students and this key; or students are, and they are those of such a class.
abbrev pub IsRosterFor : Db → List TimetableSlot → String → Option (List Json) → Type 0
IsRosterFor db slots key none = (p : Pair) → (some? (teaches db p) slots && fills db key p) ≡ false
IsRosterFor db slots key (some students) =
    (p : Pair) × (some? (teaches db p) slots ≡ true) × IsRosterOf db key students p

-- The rosters of a room, in whatever order Python walks the set of its classes: a key holds the
-- actively enrolled students of a section and a course that a slot of the room names together, and
-- a key is missing only if no such class with students has it.
pub build_rosters_lem :
    (iterate : List Pair → List Pair)
    → ((pairs : List Pair) (p : Pair)
        → some? (same_pair p) (iterate pairs) ≡ some? (same_pair p) pairs)
    → (room : String) (db : Db) (key : String)
    → IsRosterFor db
        (keep (λ (s : TimetableSlot). same s.room_id room) db.slots)
        key
        (lookup key (build_rosters iterate room db))
unfolding build_rosters
build_rosters_lem iterate walks room db key =
    let walked = iterate (room_pairs room db) in
    let rosters = fill_rosters db walked [] in
    let in_slots : (p : Pair) → _ =
      λ p. walks (room_pairs room db) p ∙ room_pairs-some? room db p in
    elim (Option-cases (lookup key rosters)) [
      | inl e ↦ rw e (λ p.
          ground
            (arith, in_slots p, has_key-fill_rosters db key walked [], some?-fills db key p walked))
      | inr (students, e) ↦ rw e (elim (lookup-fill_rosters db key students walked [] e) [
        | inl h ↦ absurd (ground arith)
        | inr (p, found, rest) ↦ (p, sym (in_slots p) ∙ found, rest)
      ])
    ]
