-- ===== src/Telemetry/Tests.antt =====
-- Telemetry of the board "u1" in the name of another.
use intelli_attend_smart_boa.Base.{◌≡◌, refl, none, some}
use intelli_attend_smart_boa.Models.{AuthStatus}
use intelli_attend_smart_boa.Security.{BoardData, board_data_of}
use intelli_attend_smart_boa.Fixtures.{board_user, test_env}
use intelli_attend_smart_boa.Telemetry.{TelemetryPayload, health_check}

abbrev payload : TelemetryPayload
payload = record { board_id = "another"; app_version = "1.2.0" }

abbrev board : BoardData
board = board_data_of (board_user AuthStatus.active)

-- Without a database the probe answers 200 all the same.
probe_without_database : (health_check test_env 0 (some "refused") none).0 ≡ 200
unfolding health_check
probe_without_database = refl
