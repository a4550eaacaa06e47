-- ===== src/Sockets/Boards.antt =====
-- `BoardConnectionManager`: which socket reaches a board, and the commands that wait for it.
-- Sockets are numbers. Whether `send_json` on a socket goes through or raises is the network's
-- choice, the argument `delivers`; what went through is kept in order in `delivered`.
pub mod Laws
pub mod Log
use intelli_attend_smart_boa.Base.{
  ℕ, String, Bool, true, false, Option, none, some, List, [], ◌∷◌, ◌++◌, map, keep, if◌then◌else◌,
}
use intelli_attend_smart_boa.Dict.{Dict, lookup, insert, erase, get_or}
use intelli_attend_smart_boa.Json.{Json}

pub record Boards : Type 0 where
  pub connections : Dict ℕ
  pub pending : Dict (List Json)
  pub delivered : List (ℕ × Json)

-- `disconnect`
unfoldable pub disconnect : String → Boards → Boards
disconnect board s = record s { connections = erase board s.connections }

-- `queue_command`
unfoldable pub queue_command : String → Json → Boards → Boards
queue_command board command s = record s {
  pending = insert board (get_or board [] s.pending ++ command ∷ []) s.pending;
}

module _ (delivers : ℕ → Json → Bool) where
  -- The loop of `connect` over the queue: what cannot be sent is dropped.
  unfoldable pub send_queue : ℕ → List Json → List (ℕ × Json) → List (ℕ × Json)
  send_queue ws [] done = done
  send_queue ws (command ∷ rest) done =
      send_queue ws rest (if delivers ws command then done ++ (ws, command) ∷ [] else done)

  -- `connect`
  unfoldable pub connect : String → ℕ → Boards → Boards
  unfolding send_queue
  connect board ws s = record s {
    connections = insert board ws s.connections;
    pending = erase board s.pending;
    delivered = send_queue ws (get_or board [] s.pending) s.delivered;
  }

  -- `send_command`
  unfoldable pub send_command : String → Json → Boards → Bool × Boards
  send_command board command s = elim (lookup board s.connections) [
    | none ↦ (false, s)
    | some ws ↦
        if delivers ws command
        then (true, record s { delivered = s.delivered ++ (ws, command) ∷ [] })
        else (false, record s { connections = erase board s.connections })
  ]

  -- What every admin route does with a command: it is sent, or else queued.
  unfoldable pub send_or_queue : String → Json → Boards → Bool × Boards
  unfolding send_command queue_command
  send_or_queue board command s =
      let (sent, s') = send_command board command s in
      (sent, if sent then s' else queue_command board command s')
