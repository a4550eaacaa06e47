-- ===== src/Sockets/Boards/Log.antt =====
-- The board sockets against what they stand for: one log of commands for each board.
mod Received
unfoldable pub use Received.*
use intelli_attend_smart_boa.Base.{
  ℕ, String, ◌≡◌, refl, sym, ap, ◌∙◌, Bool, true, false, Option, none, some, List, [], ◌∷◌, ◌++◌,
  map, keep, same, same_iff, same_refl, arith, if◌then◌else◌, append_assoc, append-nil,
  Option-cases, Bool-cases, inl, inr,
}
use intelli_attend_smart_boa.Dict.{lookup, lookup-insert, lookup-erase}
use intelli_attend_smart_boa.Json.{Json}
use intelli_attend_smart_boa.Sockets.Boards.{
  Boards, connect, disconnect, queue_command, send_or_queue,
}
use intelli_attend_smart_boa.Sockets.Boards.Laws.{
  waiting, connect_flushes, send_or_queue_offline, send_or_queue_online,
}

module _ (delivers : ℕ → Json → Bool) where
  pub run : List Event → Boards → Boards
  run [] s = s
  run (sends board c ∷ events) s = run events (send_or_queue delivers board c s).1
  run (connects board ws ∷ events) s = run events (connect delivers board ws s)
  run (disconnects board ∷ events) s = run events (disconnect board s)

  module _ (net : (ws : ℕ) (c : Json) → delivers ws c ≡ true) (owner : ℕ → String) where
    received-connect :
        (b board : String) (ws : ℕ) (s : Boards)
        → owner ws ≡ b
        → received owner board (connect delivers b ws s)
          ≡ received owner board s ++ (if same b board then waiting b s else [])
    received-connect b board ws s own =
        let (d, _, _, _) = connect_flushes delivers b ws s in
        let all = keep_every (delivers ws) (waiting b s) (net ws) in
        rw (d, all)
          (received_from-append owner board s.delivered (map (λ c. (ws, c)) (waiting b s))
            ∙ (rw (received_from-queue owner board ws (waiting b s), own) refl))

    connect-log :
        (b board : String) (ws : ℕ) (s : Boards)
        → owner ws ≡ b
        → log owner board (connect delivers b ws s) ≡ log owner board s
    connect-log b board ws s own =
        let (_, empty, _, others) = connect_flushes delivers b ws s in
        let got = received-connect b board ws s own in
        elim (Bool-cases (same b board)) [
          | inl e ↦
              let here : board ≡ b = sym ((same_iff b board).0 e) in
              rw (got, e, here, empty) (append-nil _)
          | inr e ↦
              let there : waiting board (connect delivers b ws s) ≡ waiting board s =
                others board (ground (arith, same_iff b board)) in
              rw (got, e, there) (rw (append-nil (received owner board s)) refl)
        ]

    queue_command-log :
        (b board : String) (c : Json) (s : Boards)
        → log owner board (queue_command b c s)
          ≡ log owner board s ++ (if same b board then c ∷ [] else [])
    unfolding queue_command
    queue_command-log b board c s =
        let queue = waiting b s ++ c ∷ [] in
        elim (Bool-cases (same b board)) [
          | inl e ↦
              let here : board ≡ b = sym ((same_iff b board).0 e) in
              let w : waiting b (queue_command b c s) ≡ queue =
                ground (arith, lookup-insert b b queue s.pending, same_refl b) in
              rw (e, here, w) (sym (append_assoc (received owner b s) (waiting b s) (c ∷ [])))
          | inr e ↦
              let w : waiting board (queue_command b c s) ≡ waiting board s =
                ground (arith, lookup-insert b board queue s.pending) in
              rw (e, w) (sym (append-nil (log owner board s)))
        ]

    sent-log :
        (b board : String) (c : Json) (ws : ℕ) (s : Boards)
        → owner ws ≡ b
        → waiting b s ≡ []
        → log owner board (record s { delivered = s.delivered ++ (ws, c) ∷ [] })
          ≡ log owner board s ++ (if same b board then c ∷ [] else [])
    sent-log b board c ws s own empty =
        let got = λ (x : String). received_from-append owner x s.delivered ((ws, c) ∷ []) in
        elim (Bool-cases (same b board)) [
          | inl e ↦
              let here : board ≡ b = sym ((same_iff b board).0 e) in
              rw (here, got b, own, same_refl b, empty)
                (append-nil _ ∙ ap (λ r. r ++ c ∷ []) (sym (append-nil (received owner b s))))
          | inr e ↦
              rw (got board, own, e)
                (ap (λ r. r ++ waiting board s) (append-nil (received owner board s))
                  ∙ sym (append-nil (log owner board s)))
        ]

    sends-log :
        (b board : String) (c : Json) (s : Boards)
        → IsFlushed owner s
        → log owner board (send_or_queue delivers b c s).1
          ≡ log owner board s ++ (if same b board then c ∷ [] else [])
    sends-log b board c s flushed = elim (Option-cases (lookup b s.connections)) [
      | inl off ↦ rw (send_or_queue_offline delivers b c s off) (queue_command-log b board c s)
      | inr (ws, on) ↦
          let (own, empty) = flushed b ws on in
          rw (send_or_queue_online delivers b c ws s on (net ws c))
            (sent-log b board c ws s own empty)
    ]

    queue_command-IsFlushed :
        (b : String) (c : Json) (s : Boards)
        → lookup b s.connections ≡ none
        → IsFlushed owner s
        → IsFlushed owner (queue_command b c s)
    unfolding queue_command
    queue_command-IsFlushed b c s off flushed board ws on = ground (
      arith,
      flushed board ws on,
      same_iff b board,
      lookup-insert b board (waiting b s ++ c ∷ []) s.pending,
    )

    connect-IsFlushed :
        (b : String) (w : ℕ) (s : Boards)
        → owner w ≡ b
        → IsFlushed owner s
        → IsFlushed owner (connect delivers b w s)
    unfolding connect
    connect-IsFlushed b w s own flushed board ws on = ground (
      arith,
      flushed board ws,
      same_iff b board,
      lookup-insert b board w s.connections,
      lookup-erase b board s.pending,
    )

    disconnect-IsFlushed :
        (b : String) (s : Boards) → IsFlushed owner s → IsFlushed owner (disconnect b s)
    unfolding disconnect
    disconnect-IsFlushed b s flushed board ws on =
        ground (arith, flushed board ws, lookup-erase b board s.connections)

    sends-IsFlushed :
        (b : String) (c : Json) (s : Boards)
        → IsFlushed owner s
        → IsFlushed owner (send_or_queue delivers b c s).1
    sends-IsFlushed b c s flushed = elim (Option-cases (lookup b s.connections)) [
      | inl off ↦
          rw (send_or_queue_offline delivers b c s off) (queue_command-IsFlushed b c s off flushed)
      | inr (ws, on) ↦ rw (send_or_queue_online delivers b c ws s on (net ws c)) flushed
    ]

    run-log :
        (events : List Event) (s : Boards) (board : String)
        → IsOwned owner events
        → IsFlushed owner s
        → (log owner board (run events s) ≡ log owner board s ++ requested board events)
          × IsFlushed owner (run events s)
    unfolding run disconnect
    run-log [] s board owned flushed = (sym (append-nil (log owner board s)), flushed)
    run-log (sends b c ∷ events) s board owned flushed =
        let t = (send_or_queue delivers b c s).1 in
        let (later, flushed') = run-log events t board owned (sends-IsFlushed b c s flushed) in
        (
          later
              ∙ ap (λ l. l ++ requested board events) (sends-log b board c s flushed)
              ∙ append-if (same b board) c (log owner board s) (requested board events),
          flushed',
        )
    run-log (connects b w ∷ events) s board (own, owned) flushed =
        let t = connect delivers b w s in
        let (later, flushed') =
          run-log events t board owned (connect-IsFlushed b w s own flushed) in
        (later ∙ ap (λ l. l ++ requested board events) (connect-log b board w s own), flushed')
    run-log (disconnects b ∷ events) s board owned flushed =
        run-log events (disconnect b s) board owned (disconnect-IsFlushed b s flushed)

    -- Over a network that takes every message nothing is lost, doubled or reordered. From a server
    -- without connections and commands, in whatever order commands are sent to boards, sockets are
    -- opened, each for its owner, and handlers end: what the sockets of a board have received,
    -- followed by what still waits for the board, is what was sent to it, in order; and nothing
    -- waits for a board that has a connection.
    pub run_lem :
        (events : List Event) (board : String)
        → IsOwned owner events
        → let t = run events (record { connections = []; pending = []; delivered = [] }) in
          (received owner board t ++ waiting board t ≡ requested board events)
          × IsCaughtUp (lookup board t.connections) (waiting board t)
    run_lem events board owned =
        let s : Boards = record { connections = []; pending = []; delivered = [] } in
        let (logged, flushed) = run-log events s board owned (λ b ws on. absurd (ground arith)) in
        let t = run events s in
        (
          logged,
          elim (Option-cases (lookup board t.connections)) [
            | inl e ↦ rw e tt
            | inr (ws, e) ↦ rw e (flushed board ws e).1
          ],
        )
