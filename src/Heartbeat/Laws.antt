-- ===== src/Heartbeat/Laws.antt =====
-- What a heartbeat records, that it keeps the monitor quiet, and what the admin's lists count.
use intelli_attend_smart_boa.Base.{
  ℕ, ◌+◌, ◌≤◌, String, ◌≡◌, refl, ◌≢◌, true, false, Option, none, some, List, [], ◌∷◌, ◌++◌, arith,
  same, same_iff, find, length, count_where, keep, if◌then◌else◌, Bool-cases, inl, inr, ◌∙◌, Bool,
  not, ltb, sym,
}
use intelli_attend_smart_boa.Http.{http, ok, err, get_db}
use intelli_attend_smart_boa.Json.{Json}
use intelli_attend_smart_boa.Models.{Db, BoardHeartbeat, minutes, User}
use intelli_attend_smart_boa.Env.{Env}
use intelli_attend_smart_boa.Security.{BoardData}
use intelli_attend_smart_boa.Fleet.Report.{for_version, new_version}
use intelli_attend_smart_boa.Fleet.Report.Laws.{find-upsert_version, find-upsert_version_ne}
use intelli_attend_smart_boa.Session.Monitor.{newer_of, monitor_round}
use intelli_attend_smart_boa.Session.Monitor.Laws.{newest, listed, monitor_round_alerts}
use intelli_attend_smart_boa.Heartbeat.{
  HeartbeatV2Request, ConfigVariables, heartbeat_row, seen, board_heartbeat, place, newest_first,
  Status, is_stale, all_statuses, get_all_status, get_heartbeat_status, get_stale_boards,
}

module _ (env : Env) (now later : ℕ) (vars : ConfigVariables) (board : BoardData)
    (q : HeartbeatV2Request) (db : Db) where
  -- A heartbeat in another board's name is refused and records nothing. One in the board's own name
  -- is answered; it appends one row to the heartbeats, and sets the reported version and the time in
  -- the board's version row, keeping the rest of that row, or makes one; no other board's row changes.
  pub board_heartbeat_lem :
      let (r, db') = board_heartbeat env now later vars board q db in
      (q.board_id ≢ board.user_id
        → (r ≡ err (http 403 "Board ID does not match authenticated board")) × (db' ≡ db))
      × (q.board_id ≡ board.user_id
          → ((answer : Json) × (r ≡ ok answer))
            × (db'.heartbeats ≡ db.heartbeats ++ heartbeat_row now board.user_id q ∷ [])
            × (find (for_version board.user_id) db'.versions
                ≡ elim (find (for_version board.user_id) db.versions) [
                  | none ↦ some (seen now q.app_version (new_version board.user_id))
                  | some bv ↦ some (seen now q.app_version bv)
                ])
            × ((other : String)
                → board.user_id ≢ other
                → find (for_version other) db'.versions ≡ find (for_version other) db.versions))
  unfolding board_heartbeat get_db
  board_heartbeat_lem = (
    (λ ne.
        let t : same q.board_id board.user_id ≡ false =
          ground (arith, same_iff q.board_id board.user_id) in
        rw t (refl, refl)),
    (λ e.
        let t : same q.board_id board.user_id ≡ true =
          ground (arith, same_iff q.board_id board.user_id) in
        let new = seen now q.app_version (new_version board.user_id) in
        let change = seen now q.app_version in
        rw t (
          (_, refl),
          refl,
          find-upsert_version board.user_id new change db.versions refl (λ bv. refl),
          (λ other ne.
              find-upsert_version_ne board.user_id other new change db.versions ne refl
                (λ bv. refl)),
        )),
  )

newest-append :
    (board : String) (best : Option ℕ) (rows : List BoardHeartbeat) (hb : BoardHeartbeat)
    → same hb.board_id board ≡ true
    → newest board best (rows ++ hb ∷ [])
      ≡ some (newer_of (newest board best rows) hb.last_heartbeat_at)
newest-append board best [] hb h = rw h
newest-append board best (x ∷ rows) hb h =
    newest-append board
      (if same x.board_id board then some (newer_of best x.last_heartbeat_at) else best) rows hb h

newer_of-bound : (best : Option ℕ) (t : ℕ) → t ≤ newer_of best t
newer_of-bound none t = omega arith
newer_of-bound (some best) t = ground arith

-- A board whose newest row is at most thirty minutes old is not among the alerts.
pub quiet-append :
    (board : String) (at : ℕ) (hb : BoardHeartbeat) (before db : Db)
    → db.heartbeats ≡ before.heartbeats ++ hb ∷ []
    → hb.board_id ≡ board
    → at ≤ hb.last_heartbeat_at + minutes 30
    → listed board (monitor_round at db).1 ≡ false
quiet-append board at hb before db rows own early =
    let best = newest board none before.heartbeats in
    let last : newest board none db.heartbeats ≡ some (newer_of best hb.last_heartbeat_at) =
      rw rows
        (newest-append board none before.heartbeats hb ((same_iff hb.board_id board).1 own)) in
    elim (Bool-cases (listed board (monitor_round at db).1)) [
      | inl alerted ↦
          let (t, found, old) = (monitor_round_alerts at db board).0 alerted in
          absurd (ground (arith, last, newer_of-bound best hb.last_heartbeat_at))
      | inr quiet ↦ quiet
    ]

-- For thirty minutes after its heartbeat the monitor does not alert about a board.
pub heartbeat_keeps_quiet :
    (env : Env) (now later at : ℕ) (vars : ConfigVariables) (board : BoardData)
    (q : HeartbeatV2Request) (db : Db)
    → q.board_id ≡ board.user_id
    → at ≤ now + minutes 30
    → let db' = (board_heartbeat env now later vars board q db).1 in
      listed board.user_id (monitor_round at db').1 ≡ false
heartbeat_keeps_quiet env now later at vars board q db own early =
    let (_, rows, _, _) = (board_heartbeat_lem env now later vars board q db).1 own in
    quiet-append board.user_id at (heartbeat_row now board.user_id q) db
      (board_heartbeat env now later vars board q db).1 rows refl early

length-place :
    (hb : BoardHeartbeat) (rows : List BoardHeartbeat) → length (place hb rows) ≡ length rows + 1
unfolding place
length-place hb [] = omega arith
length-place hb (x ∷ rows) = ground (arith, length-place hb rows)

length-newest_first : (rows : List BoardHeartbeat) → length (newest_first rows) ≡ length rows
unfolding newest_first
length-newest_first [] = refl
length-newest_first (hb ∷ rows) =
    omega (arith, length-place hb (newest_first rows), length-newest_first rows)

length-all_statuses :
    (env : Env) (now : ℕ) (users : List User) (rows : List BoardHeartbeat)
    → length (all_statuses env now users rows) ≡ length rows
unfolding all_statuses
length-all_statuses env now users [] = refl
length-all_statuses env now users (hb ∷ rows) =
    omega (arith, length-all_statuses env now users rows)

length-keep : (ss : List Status) → length (keep is_stale ss) ≡ count_where is_stale ss
length-keep [] = refl
length-keep (s ∷ ss) = ground (arith, length-keep ss)

-- The last heartbeat of the row is more than five minutes before now.
abbrev pub is_silent : ℕ → BoardHeartbeat → Bool
is_silent now hb = ltb (hb.last_heartbeat_at + 300_000_000) now

count_where-place :
    (p : BoardHeartbeat → Bool) (hb : BoardHeartbeat) (rows : List BoardHeartbeat)
    → count_where p (place hb rows) ≡ count_where p (hb ∷ rows)
unfolding place
count_where-place p hb [] = refl
count_where-place p hb (x ∷ rows) = ground (arith, count_where-place p hb rows)

count_where-newest_first :
    (p : BoardHeartbeat → Bool) (rows : List BoardHeartbeat)
    → count_where p (newest_first rows) ≡ count_where p rows
unfolding newest_first
count_where-newest_first p [] = refl
count_where-newest_first p (hb ∷ rows) =
    ground (arith, count_where-place p hb (newest_first rows), count_where-newest_first p rows)

count_where-all_statuses :
    (env : Env) (now : ℕ) (users : List User) (rows : List BoardHeartbeat)
    → count_where is_stale (all_statuses env now users rows) ≡ count_where (is_silent now) rows
unfolding all_statuses
count_where-all_statuses env now users [] = refl
count_where-all_statuses env now users (hb ∷ rows) =
    ground (arith, count_where-all_statuses env now users rows)

count_where_split :
    (now : ℕ) (rows : List BoardHeartbeat)
    → count_where (is_silent now) rows + count_where (λ hb. not (is_silent now hb)) rows
      ≡ length rows
count_where_split now [] = omega arith
count_where_split now (hb ∷ rows) = ground (arith, count_where_split now rows)

count_where-keep :
    (ss : List Status) → count_where is_stale (keep is_stale ss) ≡ count_where is_stale ss
count_where-keep [] = refl
count_where-keep (s ∷ ss) = ground (arith, count_where-keep ss)

-- In the admin's overview, the number of boards is that of the rows of the table of heartbeats,
-- however many rows a board has; the number of stale boards is that of the rows that are more than
-- five minutes old, and the number of healthy boards that of all other rows. The list of stale boards
-- has as many entries, which are all marked stale, and states their number.
pub heartbeat_status_counts :
    (env : Env) (now : ℕ) (db : Db)
    → let status = get_heartbeat_status env now db in
      let (count, stale) = get_stale_boards env now db in
      (status.total_boards ≡ length db.heartbeats)
      × ((status.stale_boards ≡ count_where (is_silent now) db.heartbeats)
          × ((status.healthy_boards ≡ count_where (λ hb. not (is_silent now hb)) db.heartbeats)
              × ((count ≡ count_where (is_silent now) db.heartbeats)
                  × ((length stale ≡ count) × (count_where is_stale stale ≡ count)))))
unfolding get_heartbeat_status get_stale_boards get_all_status
heartbeat_status_counts env now db =
    let rows = newest_first db.heartbeats in
    let statuses = all_statuses env now db.users rows in
    let total = length-all_statuses env now db.users rows ∙ length-newest_first db.heartbeats in
    let stale =
      count_where-all_statuses env now db.users rows
      ∙ count_where-newest_first (is_silent now) db.heartbeats in
    (
      total,
      (
        stale,
        (
          omega (arith, total, stale, count_where_split now db.heartbeats),
          (
            length-keep statuses ∙ stale,
            (refl, count_where-keep statuses ∙ sym (length-keep statuses)),
          ),
        ),
      ),
    )
