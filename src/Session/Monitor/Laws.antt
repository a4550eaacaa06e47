-- ===== src/Session/Monitor/Laws.antt =====
-- Whom a round alerts about.
use intelli_attend_smart_boa.Base.{
  ℕ, ◌+◌, ◌<◌, String, ◌≡◌, refl, ◌↔◌, Bool, true, false, Option, none, some, List, [], ◌∷◌, arith,
  same, same_iff, some?, if◌then◌else◌, Option-cases, Bool-cases, inl, inr, ◌∙◌, ap,
}
use intelli_attend_smart_boa.Dict.{
  Dict, lookup, insert, lookup-insert, HasUniqueKeys, insert-HasUniqueKeys, lookup_absent,
}
use intelli_attend_smart_boa.Models.{Db, BoardHeartbeat, minutes}
use intelli_attend_smart_boa.Session.Monitor.{
  newer_of, latest_from, is_stale, stale_boards, monitor_round,
}

-- The latest heartbeat of a board in a table, by a plain recursion.
abbrev pub newest : String → Option ℕ → List BoardHeartbeat → Option ℕ
newest board best [] = best
newest board best (hb ∷ rest) =
    newest board
      (if same hb.board_id board then some (newer_of best hb.last_heartbeat_at) else best) rest

lookup-latest_from :
    (board : String) (seen : Dict ℕ) (rows : List BoardHeartbeat)
    → lookup board (latest_from seen rows) ≡ newest board (lookup board seen) rows
unfolding latest_from
lookup-latest_from board seen [] = refl
lookup-latest_from board seen (hb ∷ rest) =
    let t = newer_of (lookup hb.board_id seen) hb.last_heartbeat_at in
    let here : lookup board (insert hb.board_id t seen) ≡ (
        if same hb.board_id board
        then some (newer_of (lookup board seen) hb.last_heartbeat_at)
        else lookup board seen) =
      ground (arith, lookup-insert hb.board_id board t seen, same_iff hb.board_id board) in
    lookup-latest_from board (insert hb.board_id t seen) rest ∙ ap (λ o. newest board o rest) here

latest_from-HasUniqueKeys :
    (seen : Dict ℕ) (rows : List BoardHeartbeat)
    → HasUniqueKeys seen
    → HasUniqueKeys (latest_from seen rows)
unfolding latest_from
latest_from-HasUniqueKeys seen [] h = h
latest_from-HasUniqueKeys seen (hb ∷ rest) h =
    let t = newer_of (lookup hb.board_id seen) hb.last_heartbeat_at in
    latest_from-HasUniqueKeys (insert hb.board_id t seen) rest
      (insert-HasUniqueKeys hb.board_id t seen h)

abbrev pub listed : String → List String → Bool
listed board boards = some? (λ b. same b board) boards

stale_of : ℕ → Option ℕ → Bool
stale_of now none = false
stale_of now (some t) = is_stale now t

listed-stale_boards :
    (now : ℕ) (board : String) (d : Dict ℕ)
    → HasUniqueKeys d
    → listed board (stale_boards now d) ≡ stale_of now (lookup board d)
unfolding stale_boards stale_of
listed-stale_boards now board [] h = refl
listed-stale_boards now board ((k, t) ∷ d) (a, h) = elim (Bool-cases (same k board)) [
  | inl e ↦
      let p : k ≡ board = (same_iff k board).0 e in
      let gone : lookup board d ≡ none = rw p at (lookup_absent k d a) in
      ground (arith, listed-stale_boards now board d h, gone)
  | inr e ↦ ground (arith, listed-stale_boards now board d h)
]

-- A round alerts about exactly the boards whose newest heartbeat is more than thirty minutes old; a
-- board that never sent one is not among them.
pub monitor_round_alerts :
    (now : ℕ) (db : Db) (board : String)
    → (listed board (monitor_round now db).1 ≡ true)
      ↔ ((t : ℕ) × (newest board none db.heartbeats ≡ some t) × (t + minutes 30 < now))
unfolding monitor_round stale_of
monitor_round_alerts now db board =
    let d = latest_from [] db.heartbeats in
    let e =
      listed-stale_boards now board d (latest_from-HasUniqueKeys [] db.heartbeats tt)
      ∙ ap (stale_of now) (lookup-latest_from board [] db.heartbeats) in
    elim (Option-cases (newest board none db.heartbeats)) [
      | inl n ↦ (λ h. absurd (ground (arith, e)), λ (t, found, old). absurd (ground arith))
      | inr (t, n) ↦ ((λ h. (t, n, ground (arith, e))), (λ (t', found, old). ground (arith, e)))
    ]
