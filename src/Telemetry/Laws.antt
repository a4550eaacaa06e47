-- ===== src/Telemetry/Laws.antt =====
-- What telemetry leaves behind.
use intelli_attend_smart_boa.Base.{ℕ, ◌+◌, ◌≤◌, ◌≡◌, refl, false, [], ◌∷◌, ◌++◌}
use intelli_attend_smart_boa.Json.{Json}
use intelli_attend_smart_boa.Http.{ok, get_db}
use intelli_attend_smart_boa.Models.{Db, minutes}
use intelli_attend_smart_boa.Security.{BoardData}
use intelli_attend_smart_boa.Session.Monitor.{monitor_round}
use intelli_attend_smart_boa.Session.Monitor.Laws.{listed}
use intelli_attend_smart_boa.Heartbeat.Laws.{quiet-append}
use intelli_attend_smart_boa.Telemetry.{TelemetryPayload, telemetry_row, receive_telemetry}

-- Telemetry counts as a sign of life of the board that sent it, whatever board its payload names:
-- it is answered, appends one row for the authenticated board and changes no other table, and for
-- thirty minutes the monitor does not alert about that board.
pub receive_telemetry_lem :
    (now at : ℕ) (board : BoardData) (payload : TelemetryPayload) (db : Db)
    → at ≤ now + minutes 30
    → let (r, db') = receive_telemetry now board payload db in
      ((answer : Json) × (r ≡ ok answer))
      × (db' ≡ record db { heartbeats = db.heartbeats ++ telemetry_row now board payload ∷ [] })
      × (listed board.user_id (monitor_round at db').1 ≡ false)
unfolding receive_telemetry get_db
receive_telemetry_lem now at board payload db early =
    let db' = (receive_telemetry now board payload db).1 in
    (
      (_, refl),
      refl,
      quiet-append board.user_id at (telemetry_row now board payload) db db' refl refl early,
    )
