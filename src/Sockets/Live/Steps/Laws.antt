-- ===== src/Sockets/Live/Steps/Laws.antt =====
-- What the handlers do to the rooms: only a connect adds a socket to a room.
use intelli_attend_smart_boa.Base.{
  ℕ, String, ◌≡◌, refl, Bool, true, not, Option, ◌⊎◌, none, some, List, [], ◌∷◌, ◌++◌, ◌==◌, ◌&&◌,
  ◌||◌, same, same_iff, some?, if◌then◌else◌, arith, Option-cases, List-cases, inl, inr,
}
use intelli_attend_smart_boa.Dict.{lookup, lookup-insert, lookup-erase}
use intelli_attend_smart_boa.Json.{Json, Fields, null, bool, num, minus, text, arr, obj, get}
use intelli_attend_smart_boa.Env.{Env}
use intelli_attend_smart_boa.Attendance.{World, handle_attendance_submit}
use intelli_attend_smart_boa.Sockets.Rooms
use intelli_attend_smart_boa.Sockets.Rooms.{
  Rooms, members, add, discard, is_empty, send_each, broadcast,
}
use intelli_attend_smart_boa.Sockets.Live.{
  Receipt, reply, session_round, submit_message, emails_of, Emails, unsized, mixed, listed,
  reply_error, pong, message, timeout, gone,
}

-- A socket is in the room of a session.
abbrev pub in_room : String → ℕ → Rooms → Bool
in_room session ws r = some? (λ x. x == ws) (members session r)

some?-append : (p : ℕ → Bool) (xs : List ℕ) (w : ℕ) → some? p (xs ++ w ∷ []) ≡ (some? p xs || p w)
some?-append p [] w = ground arith
some?-append p (x ∷ xs) w = ground (arith, some?-append p xs w)

some?-discard :
    (ws x : ℕ) (xs : List ℕ)
    → some? (λ y. y == x) (discard ws xs) ≡ (some? (λ y. y == x) xs && not (ws == x))
some?-discard ws x [] = ground arith
some?-discard ws x (y ∷ ys) = ground (arith, some?-discard ws x ys)

pub in_room-connect :
    (session s : String) (ws x : ℕ) (r : Rooms)
    → in_room s x (Rooms.connect session ws r) ≡ (in_room s x r || (same session s && ws == x))
unfolding Rooms.connect
in_room-connect session s ws x r = ground (
  arith,
  same_iff session s,
  lookup-insert session s (add ws (members session r)) r.connections,
  some?-append (λ y. y == x) (members session r) ws,
)

pub in_room-disconnect :
    (session s : String) (ws x : ℕ) (r : Rooms)
    → in_room s x (Rooms.disconnect session ws r)
      ≡ (in_room s x r && not (same session s && ws == x))
unfolding Rooms.disconnect
in_room-disconnect session s ws x r =
    let left = discard ws (members session r) in
    let kept = some?-discard ws x (members session r) in
    elim (List-cases left) [
      | inl e ↦ ground (arith, kept, same_iff session s, lookup-erase session s r.connections)
      | inr (y, rest, e) ↦
          ground (arith, kept, same_iff session s, lookup-insert session s left r.connections)
    ]

-- No room gains a socket.
abbrev pub Shrinks : Rooms → Rooms → Type 0
Shrinks r t = (s : String) (x : ℕ) → in_room s x t ≡ true → in_room s x r ≡ true

Shrinks-trans : (r t u : Rooms) → Shrinks r t → Shrinks t u → Shrinks r u
Shrinks-trans r t u h k s x i = h s x (k s x i)

send_each_left :
    (delivers : ℕ → Json → Bool) (m : Json) (x : ℕ) (targets room : List ℕ) (done : List (ℕ × Json))
    → some? (λ y. y == x) (send_each delivers m targets room done).0 ≡ true
    → some? (λ y. y == x) room ≡ true
unfolding send_each
send_each_left delivers m x [] room done h = h
send_each_left delivers m x (ws ∷ rest) room done h = ground (
  arith,
  some?-discard ws x room,
  send_each_left delivers m x rest room (done ++ (ws, m) ∷ []),
  send_each_left delivers m x rest (discard ws room) done,
)

pub broadcast-Shrinks :
    (delivers : ℕ → Json → Bool) (m : Json) (session : String) (r : Rooms)
    → Shrinks r (broadcast delivers m session r)
unfolding broadcast
broadcast-Shrinks delivers m session r s x h = elim (Option-cases (lookup session r.connections)) [
  | inl e ↦ ground arith
  | inr (room, e) ↦ ground (
    arith,
    same_iff session s,
    lookup-insert session s (send_each delivers m room room r.delivered).0 r.connections,
    send_each_left delivers m x room room r.delivered,
  )
]

Emails-cases :
    (es : Emails) → (es ≡ unsized) ⊎ (es ≡ mixed) ⊎ ((ps : List String) × (es ≡ listed ps))
Emails-cases unsized = inl refl
Emails-cases mixed = inr (inl refl)
Emails-cases (listed ps) = inr (inr (ps, refl))

module _ (env : Env) (delivers : ℕ → Json → Bool) where
  pub reply-Shrinks :
      (ws : ℕ) (m : Json) (w : World) → Shrinks w.rooms (reply env delivers ws m w).1.rooms
  reply-Shrinks ws m w s x h = ground arith

  -- What a submission does to the rooms, its answer on the socket included.
  submit_then_reply-Shrinks :
      (commits : Option String) (ws now : ℕ) (session : String) (present absent : List String)
      (w : World)
      → Shrinks w.rooms
          (reply_error env delivers ws
            (handle_attendance_submit env delivers commits now session present absent w)).rooms
  unfolding handle_attendance_submit
  submit_then_reply-Shrinks none ws now session present absent w =
      broadcast-Shrinks delivers _ session w.rooms
  submit_then_reply-Shrinks (some error) ws now session present absent w = reply-Shrinks ws _ w

  submit_message-Shrinks :
      (session : String) (ws now : ℕ) (commits : Bool) (error : String) (fields : Fields)
      (w : World)
      → Shrinks w.rooms (submit_message env delivers session ws now commits error fields w).1.rooms
  unfolding submit_message
  submit_message-Shrinks session ws now commits error fields w s x h =
      let refused = submit_then_reply-Shrinks (some error) ws now session [] [] w s x in
      elim (Emails-cases (emails_of (get "present_emails" fields))) [
        | inl e ↦ ground arith
        | inr (inl e) ↦ ground (arith, refused)
        | inr (inr (present, e)) ↦ elim (Emails-cases (emails_of (get "absent_emails" fields))) [
          | inl k ↦ ground arith
          | inr (inl k) ↦ ground (arith, refused)
          | inr (inr (absent, k)) ↦ ground (
            arith,
            submit_then_reply-Shrinks (if commits then none else some error) ws now session present
                absent w s x,
          )
        ]
      ]

  pub session_round-Shrinks :
      (session : String) (ws : ℕ) (receipt : Receipt) (w : World)
      → Shrinks w.rooms (session_round env delivers session ws receipt w).1.rooms
  unfolding session_round
  session_round-Shrinks session ws timeout w s x h = h
  session_round-Shrinks session ws gone w s x h = h
  session_round-Shrinks session ws (message raw now commits error) w s x h =
      elim (Option-cases (env.loads raw)) [
        | inl e ↦ ground arith
        | inr (obj fields, e) ↦ ground (
          arith,
          reply-Shrinks ws pong w s x,
          submit_message-Shrinks session ws now commits error fields w s x,
        )
        | inr (null, e) ↦ ground arith
        | inr (bool b, e) ↦ ground arith
        | inr (num n, e) ↦ ground arith
        | inr (minus n, e) ↦ ground arith
        | inr (text t, e) ↦ ground arith
        | inr (arr vs, e) ↦ ground arith
      ]
