-- ===== src/Sockets/Boards/Laws.antt =====
-- Commands reach a board in order, and where they get lost.
use mathlib.Core.List.{append_assoc, append-nil}
use intelli_attend_smart_boa.Base.{
  ℕ, String, ◌≡◌, refl, ◌≢◌, ◌⊎◌, Bool, true, false, none, some, List, [], ◌∷◌, ◌++◌, map, keep,
  arith, same_iff, same_refl, Option-cases, Bool-cases, inl, inr, sym, ◌∙◌,
}
use intelli_attend_smart_boa.Dict.{lookup, insert, erase, get_or, lookup-insert, lookup-erase}
use intelli_attend_smart_boa.Json.{Json}
use intelli_attend_smart_boa.Sockets.Boards.{
  Boards, connect, disconnect, send_queue, queue_command, send_or_queue,
}

abbrev pub waiting : String → Boards → List Json
waiting board s = get_or board [] s.pending

-- A sequence of admin commands for one board.
pub send_all : (ℕ → Json → Bool) → String → List Json → Boards → Boards
send_all delivers board [] s = s
send_all delivers board (c ∷ cs) s = send_all delivers board cs (send_or_queue delivers board c s).1

keep_all : {A : Type 0} (xs : List A) (p : A → Bool) → ((x : A) → p x ≡ true) → keep p xs ≡ xs
keep_all [] p h = refl
keep_all (x ∷ xs) p h = ground (arith, h x, keep_all xs p h)

module _ (delivers : ℕ → Json → Bool) (board : String) where
  send_queue-eq :
      (ws : ℕ) (queue : List Json) (done : List (ℕ × Json))
      → send_queue delivers ws queue done ≡ done ++ map (λ c. (ws, c)) (keep (delivers ws) queue)
  unfolding send_queue
  send_queue-eq ws [] done = sym (append-nil done)
  send_queue-eq ws (c ∷ queue) done = elim (Bool-cases (delivers ws c)) [
    | inl e ↦ rw e (
        send_queue-eq ws queue (done ++ (ws, c) ∷ [])
        ∙ append_assoc done ((ws, c) ∷ []) (map (λ c. (ws, c)) (keep (delivers ws) queue)))
    | inr e ↦ rw e (send_queue-eq ws queue done)
  ]

  -- Connecting empties the queue of the board: what the socket takes is delivered in the order in
  -- which it was queued, and what it does not take is gone. Other boards' queues are untouched.
  pub connect_flushes :
      (ws : ℕ) (s : Boards)
      → let t = connect delivers board ws s in
        (t.delivered ≡ s.delivered ++ map (λ c. (ws, c)) (keep (delivers ws) (waiting board s)))
        × (waiting board t ≡ [])
        × (lookup board t.connections ≡ some ws)
        × ((other : String) → other ≢ board → waiting other t ≡ waiting other s)
  unfolding connect
  connect_flushes ws s = (
    send_queue-eq ws (waiting board s) s.delivered,
    ground (arith, lookup-erase board board s.pending, same_refl board),
    ground (arith, lookup-insert board board ws s.connections, same_refl board),
    λ other h. ground (arith, lookup-erase board other s.pending, same_iff board other),
  )

  pub send_or_queue_offline :
      (c : Json) (s : Boards)
      → lookup board s.connections ≡ none
      → send_or_queue delivers board c s ≡ (false, queue_command board c s)
  unfolding send_or_queue
  send_or_queue_offline c s h = ground arith

  pub send_or_queue_online :
      (c : Json) (ws : ℕ) (s : Boards)
      → lookup board s.connections ≡ some ws
      → delivers ws c ≡ true
      → send_or_queue delivers board c s
        ≡ (true, record s { delivered = s.delivered ++ (ws, c) ∷ [] })
  unfolding send_or_queue
  send_or_queue_online c ws s h net = ground arith

  pub queue_command_lem :
      (c : Json) (s : Boards)
      → let t = queue_command board c s in
        (waiting board t ≡ waiting board s ++ c ∷ [])
        × (t.delivered ≡ s.delivered)
        × (t.connections ≡ s.connections)
  unfolding queue_command
  queue_command_lem c s = (
    ground
        (arith, lookup-insert board board (waiting board s ++ c ∷ []) s.pending, same_refl board),
    refl,
    refl,
  )

  -- Where a command is after `send_or_queue`, and what was answered.
  abbrev pub Placed : Json → Boards → Bool → Boards → Type 0
  Placed command s sent t =
      ((ws : ℕ) × (lookup board s.connections ≡ some ws)
        × (delivers ws command ≡ true)
        × (sent ≡ true)
        × (t ≡ record s { delivered = s.delivered ++ (ws, command) ∷ [] }))
      ⊎ ((sent ≡ false)
          × (t.delivered ≡ s.delivered)
          × (waiting board t ≡ waiting board s ++ command ∷ [])
          × ((ws : ℕ) → lookup board s.connections ≡ some ws → delivers ws command ≡ false))

  -- A command is sent or queued, never both and never neither: it is sent exactly when the board
  -- has a socket that takes it, and else it is the last one that waits.
  pub send_or_queue_cases :
      (command : Json) (s : Boards)
      → let (sent, t) = send_or_queue delivers board command s in Placed command s sent t
  unfolding send_or_queue
  send_or_queue_cases command s = elim (Option-cases (lookup board s.connections)) [
    | inl off ↦
        let (w, d, _) = queue_command_lem command s in
        inr (ground arith, ground (arith, d), ground (arith, w), λ ws h. absurd (ground arith))
    | inr (ws, on) ↦ elim (Bool-cases (delivers ws command)) [
      | inl takes ↦ inl (ws, on, takes, ground arith, ground arith)
      | inr fails ↦
          let t = record s { connections = erase board s.connections } in
          let (w, d, _) = queue_command_lem command t in
          inr (ground arith, ground (arith, d), ground (arith, w), λ v h. ground arith)
    ]
  ]

  -- A board that is not connected: every command is queued, in order.
  pub send_all_offline :
      (cs : List Json) (s : Boards)
      → lookup board s.connections ≡ none
      → let t = send_all delivers board cs s in
        (waiting board t ≡ waiting board s ++ cs)
        × (t.delivered ≡ s.delivered)
        × (t.connections ≡ s.connections)
  unfolding send_all
  send_all_offline [] s h = (sym (append-nil _), refl, refl)
  send_all_offline (c ∷ cs) s h =
      let (w, d, k) = queue_command_lem c s in
      let (w', d', k') = send_all_offline cs (queue_command board c s) (rw k h) in
      rw (send_or_queue_offline c s h, send_all)
        (w' ∙ (rw w (append_assoc (waiting board s) (c ∷ []) cs)), d' ∙ d, k' ∙ k)

  -- Commands sent to a board while it is offline arrive when it connects over a socket that takes
  -- them: each once, in the order in which the admin sent them, before anything else.
  pub offline_then_connect :
      (cs : List Json) (ws : ℕ) (s : Boards)
      → lookup board s.connections ≡ none
      → waiting board s ≡ []
      → ((c : Json) → delivers ws c ≡ true)
      → let t = connect delivers board ws (send_all delivers board cs s) in
        (t.delivered ≡ s.delivered ++ map (λ c. (ws, c)) cs) × (waiting board t ≡ [])
  offline_then_connect cs ws s off empty net =
      let t = send_all delivers board cs s in
      let (w, d, _) = send_all_offline cs s off in
      let (d', w', _, _) = connect_flushes ws t in
      (d' ∙ (rw (d, w, empty) (rw (keep_all cs (delivers ws) net))), w')

  -- While a board is connected over a socket that takes them, commands go out at once, in order,
  -- and nothing is queued.
  pub send_all_online :
      (cs : List Json) (ws : ℕ) (s : Boards)
      → lookup board s.connections ≡ some ws
      → ((c : Json) → delivers ws c ≡ true)
      → send_all delivers board cs s ≡ record s { delivered = s.delivered ++ map (λ c. (ws, c)) cs }
  unfolding send_all
  send_all_online [] ws s on net = rw (append-nil s.delivered)
  send_all_online (c ∷ cs) ws s on net =
      let t = record s { delivered = s.delivered ++ (ws, c) ∷ [] } in
      rw (send_or_queue_online c ws s on (net c), send_all)
        (send_all_online cs ws t on net
          ∙ (rw (append_assoc s.delivered ((ws, c) ∷ []) (map (λ c. (ws, c)) cs))))

  -- The `disconnect` of an old socket takes its successor's place away: when a board reconnects
  -- before the handler of its first socket ends, the board counts as offline afterwards, and the
  -- next command is queued although the second socket is open.
  pub late_disconnect :
      (old new : ℕ) (command : Json) (s : Boards)
      → let t = disconnect board (connect delivers board new (connect delivers board old s)) in
        let (sent, u) = send_or_queue delivers board command t in
        (sent ≡ false) × (waiting board u ≡ command ∷ []) × (u.delivered ≡ t.delivered)
  unfolding disconnect
  late_disconnect old new command s =
      let connections = insert board new (insert board old s.connections) in
      let gone = lookup-erase board board connections in
      let t = disconnect board (connect delivers board new (connect delivers board old s)) in
      let (_, emptied, _, _) = connect_flushes new (connect delivers board old s) in
      let off : lookup board t.connections ≡ none =
        unfold connect in ground (arith, gone, same_refl board) in
      let (w, d, _) = queue_command_lem command t in
      rw (send_or_queue_offline command t off) (refl, w ∙ (rw emptied), d)
