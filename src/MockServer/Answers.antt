-- ===== src/MockServer/Answers.antt =====
-- The routes of scripts/mock_server.py that write nothing.
use intelli_attend_smart_boa.Base.{ℕ, ◌/◌, String, [], ◌∷◌, ◌^^◌}
use intelli_attend_smart_boa.Dict.{Dict, insert, get_or}
use intelli_attend_smart_boa.Json.{Json, Fields, Items, nil, cons, num, text, obj, arr, end, ◌↪◌⨾◌}
use intelli_attend_smart_boa.Http.{Action, pure}
use intelli_attend_smart_boa.Env.{Env}
use intelli_attend_smart_boa.MockServer.Store.{MockStore, whole_seconds}

abbrev key_items : Dict Fields → Items
key_items [] = nil
key_items ((k, v) ∷ d) = cons (text k) (key_items d)

-- `list(d.keys())`
abbrev pub keys : Dict Fields → Json
keys d = arr (key_items d)

abbrev pub status : String → Json
status s = obj ("status" ↪ text s ⨾ end)

abbrev pub success : Json → Json
success payload = obj ("status" ↪ text "success" ⨾ "data" ↪ payload ⨾ end)

-- `health`
unfoldable pub health : ℕ → Action MockStore Json
health now =
    pure (
      obj
        ("status" ↪ text "ok" ⨾ "mode" ↪ text "mock" ⨾ "uptime_s" ↪ num (whole_seconds now) ⨾ end))

-- `get_server_time`
unfoldable pub get_server_time : ℕ → Action MockStore Json
get_server_time now =
    pure (obj ("status" ↪ text "success" ⨾ "server_timestamp_ms" ↪ num (now / 1000) ⨾ end))

-- `board_ready`
unfoldable pub board_ready : Env → ℕ → Action MockStore Json
board_ready env now =
    pure (obj ("status" ↪ text "ready" ⨾ "timestamp" ↪ text (env.isoformat now) ⨾ end))

-- `record_attendance`
unfoldable pub record_attendance : Action MockStore Json
record_attendance = pure (status "success")

-- `terminate_session`
unfoldable pub terminate_session : Action MockStore Json
terminate_session = pure (status "success")

-- `receive_telemetry`
unfoldable pub receive_telemetry : Action MockStore Json
receive_telemetry = pure (status "success")

-- `create_session_endpoint` answers and stores nothing.
unfoldable pub create_session : String → Action MockStore Json
create_session random =
    let session_id = "sess_" ^^ random in
    pure (
      obj (
        "status"
        ↪ text "success" ⨾ "session_id"
        ↪ text session_id ⨾ "data"
        ↪ obj ("session_id" ↪ text session_id ⨾ "otp" ↪ text "123456" ⨾ end) ⨾ end))

-- `mock_state`
unfoldable pub mock_state : Action MockStore Json
mock_state s =
    pure
      (obj (
        "boards"
        ↪ keys s.boards ⨾ "sessions"
        ↪ keys s.sessions ⨾ "heartbeats"
        ↪ keys s.heartbeats ⨾ end))
      s

-- `add_correlation_id`, on the headers of the answer
unfoldable pub add_correlation_id : Dict String → String → Dict String → Dict String
add_correlation_id request_headers uuid response_headers =
    insert "X-Mock-Server" "true"
      (insert "X-Request-ID" (get_or "X-Request-ID" uuid request_headers) response_headers)
