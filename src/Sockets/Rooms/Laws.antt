-- ===== src/Sockets/Rooms/Laws.antt =====
-- Who receives a broadcast, and what it does to the room.
use mathlib.Core.List.{append_assoc, append-nil}
use intelli_attend_smart_boa.Base.{
  ℕ, String, ◌≡◌, refl, sym, ◌∙◌, ◌≢◌, inl, inr, Bool, false, not, some, List, [], ◌∷◌, ◌++◌, ◌==◌,
  map, keep, some?, arith, same, Option-cases, Bool-cases,
}
use intelli_attend_smart_boa.Dict.{lookup, get_or, lookup-insert, lookup-erase}
use intelli_attend_smart_boa.Json.{Json}
use intelli_attend_smart_boa.Sockets.Rooms.{
  Rooms, members, add, discard, is_empty, connect, disconnect, send_each, broadcast,
}

-- A room has no repetitions.
abbrev pub IsSimple : List ℕ → Type 0
IsSimple [] = Unit
IsSimple (x ∷ xs) = (some? (λ y. y == x) xs ≡ false) × IsSimple xs

some?-append :
    (x : ℕ) (xs ys : List ℕ)
    → some? (λ y. y == x) xs ≡ false
    → some? (λ y. y == x) ys ≡ false
    → some? (λ y. y == x) (xs ++ ys) ≡ false
some?-append x [] ys h k = k
some?-append x (z ∷ xs) ys h k = ground (arith, some?-append x xs ys)

IsSimple-append :
    (xs : List ℕ) (w : ℕ) → IsSimple xs → some? (λ y. y == w) xs ≡ false → IsSimple (xs ++ w ∷ [])
IsSimple-append [] w h k = ground arith
IsSimple-append (x ∷ xs) w (a, h) k =
    (some?-append x xs (w ∷ []) a (ground arith), IsSimple-append xs w h (ground arith))

add-IsSimple : (w : ℕ) (xs : List ℕ) → IsSimple xs → IsSimple (add w xs)
add-IsSimple w xs h = elim (Bool-cases (some? (λ x. x == w) xs)) [
  | inl e ↦ rw e h
  | inr e ↦ rw e (IsSimple-append xs w h e)
]

some?-keep :
    (p : ℕ → Bool) (x : ℕ) (xs : List ℕ)
    → some? (λ y. y == x) xs ≡ false
    → some? (λ y. y == x) (keep p xs) ≡ false
some?-keep p x [] h = refl
some?-keep p x (z ∷ xs) h = ground (arith, some?-keep p x xs)

keep-IsSimple : (p : ℕ → Bool) (xs : List ℕ) → IsSimple xs → IsSimple (keep p xs)
keep-IsSimple p [] h = tt
keep-IsSimple p (x ∷ xs) (a, h) = elim (Bool-cases (p x)) [
  | inl e ↦ rw e (some?-keep p x xs a, keep-IsSimple p xs h)
  | inr e ↦ rw e (keep-IsSimple p xs h)
]

-- Every room is a set, and no room that is listed is empty.
abbrev pub IsTidy : Rooms → Type 0
IsTidy r =
    (session : String) (room : List ℕ)
    → lookup session r.connections ≡ some room
    → IsSimple room × (room ≢ [])

members-IsSimple : (session : String) (r : Rooms) → IsTidy r → IsSimple (members session r)
members-IsSimple session r h = elim (Option-cases (lookup session r.connections)) [
  | inl e ↦ rw (e, members, get_or) tt
  | inr (room, e) ↦ rw (e, members, get_or) (h session room e).0
]

add-ne-nil : (w : ℕ) (xs : List ℕ) → add w xs ≢ []
add-ne-nil w [] = ground arith
add-ne-nil w (x ∷ xs) = ground arith

-- Connecting keeps the rooms tidy.
pub connect-IsTidy :
    (session : String) (ws : ℕ) (r : Rooms) → IsTidy r → IsTidy (connect session ws r)
unfolding connect
connect-IsTidy session ws r h other room e =
    let grown = add ws (members session r) in
    let there = lookup-insert session other grown r.connections in
    elim (Bool-cases (same session other)) [
      | inl here ↦
          let p : grown ≡ room = ground (arith, there) in
          rw (← p) (
            add-IsSimple ws (members session r) (members-IsSimple session r h),
            add-ne-nil ws (members session r),
          )
      | inr elsewhere ↦ h other room (ground (arith, there))
    ]

is_empty-nil : (xs : List ℕ) → is_empty xs ≡ false → xs ≢ []
is_empty-nil [] h = absurd (ground arith)
is_empty-nil (x ∷ xs) h = ground arith

-- Where every listed room is a set and not empty, this is still so after a socket disconnects.
pub disconnect-IsTidy :
    (session : String) (ws : ℕ) (r : Rooms) → IsTidy r → IsTidy (disconnect session ws r)
unfolding disconnect
disconnect-IsTidy session ws r h other room e =
    let left = discard ws (members session r) in
    let stays = lookup-insert session other left r.connections in
    let goes = lookup-erase session other r.connections in
    elim (Bool-cases (same session other)) [
      | inl here ↦ elim (Bool-cases (is_empty left)) [
        | inl none_left ↦ absurd (ground (arith, goes))
        | inr some_left ↦
            let p : left ≡ room = ground (arith, stays) in
            rw (← p) (
              keep-IsSimple (λ x. not (x == ws)) (members session r) (members-IsSimple session r h),
              is_empty-nil left some_left,
            )
      ]
      | inr elsewhere ↦ h other room (ground (arith, stays, goes))
    ]

module _ (delivers : ℕ → Json → Bool) (message : Json) where
  send_each-delivered :
      (targets room : List ℕ) (done : List (ℕ × Json))
      → (send_each delivers message targets room done).1
        ≡ done ++ map (λ ws. (ws, message)) (keep (λ ws. delivers ws message) targets)
  unfolding send_each
  send_each-delivered [] room done = sym (append-nil done)
  send_each-delivered (ws ∷ rest) room done = elim (Bool-cases (delivers ws message)) [
    | inl e ↦
        rw (e, send_each)
          (send_each-delivered rest room (done ++ (ws, message) ∷ [])
            ∙ append_assoc done ((ws, message) ∷ [])
                (map (λ ws. (ws, message)) (keep (λ ws. delivers ws message) rest)))
    | inr e ↦ rw (e, send_each) (send_each-delivered rest (discard ws room) done)
  ]

  -- A broadcast reaches each socket of the session's room whose connection takes it, once, in the
  -- room's order, and nobody else.
  pub broadcast-delivered :
      (session : String) (r : Rooms)
      → (broadcast delivers message session r).delivered
        ≡ r.delivered
          ++ map (λ ws. (ws, message)) (keep (λ ws. delivers ws message) (members session r))
  unfolding broadcast
  broadcast-delivered session r = elim (Option-cases (lookup session r.connections)) [
    | inl e ↦ ground (arith, append-nil r.delivered)
    | inr (room, e) ↦ ground (arith, send_each-delivered room room r.delivered)
  ]
