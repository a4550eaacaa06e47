-- ===== src/Sockets/Rooms.antt =====
-- `ConnectionManager`: the sockets that follow a session, and `broadcast`.
pub mod Laws
use intelli_attend_smart_boa.Base.{
  ℕ, String, Bool, true, false, not, Option, none, some, List, [], ◌∷◌, ◌++◌, ◌==◌, some?, keep,
  if◌then◌else◌,
}
use intelli_attend_smart_boa.Dict.{Dict, lookup, insert, erase, get_or}
use intelli_attend_smart_boa.Json.{Json}

-- A set of sockets is a list without repetition, in the order of arrival.
pub record Rooms : Type 0 where
  pub connections : Dict (List ℕ)
  pub delivered : List (ℕ × Json)

abbrev pub members : String → Rooms → List ℕ
members session r = get_or session [] r.connections

-- `set.add`, `set.discard`
abbrev pub add : ℕ → List ℕ → List ℕ
add ws set = if some? (λ x. x == ws) set then set else set ++ ws ∷ []

abbrev pub discard : ℕ → List ℕ → List ℕ
discard ws = keep (λ x. not (x == ws))

abbrev pub is_empty : List ℕ → Bool
is_empty [] = true
is_empty (x ∷ xs) = false

-- `connect`
unfoldable pub connect : String → ℕ → Rooms → Rooms
connect session ws r = record r {
  connections = insert session (add ws (members session r)) r.connections;
}

-- `disconnect`: a room that holds no socket any more is dropped.
unfoldable pub disconnect : String → ℕ → Rooms → Rooms
disconnect session ws r =
    let left = discard ws (members session r) in
    record r {
      connections =
          if is_empty left then erase session r.connections else insert session left r.connections;
    }

module _ (delivers : ℕ → Json → Bool) (message : Json) where
  -- The loop of `broadcast` over a copy of the room: the sockets that are left in the room, and
  -- what was delivered.
  unfoldable pub send_each : List ℕ → List ℕ → List (ℕ × Json) → List ℕ × List (ℕ × Json)
  send_each [] room done = (room, done)
  send_each (ws ∷ rest) room done =
      let on = delivers ws message in
      send_each rest (if on then room else discard ws room)
        (if on then done ++ (ws, message) ∷ [] else done)

  -- `broadcast`: it never makes a room, and leaves a room that it has emptied.
  unfoldable pub broadcast : String → Rooms → Rooms
  unfolding send_each
  broadcast session r = elim (lookup session r.connections) [
    | none ↦ r
    | some room ↦
        let (left, done) = send_each room room r.delivered in
        record r { connections = insert session left r.connections; delivered = done }
  ]
