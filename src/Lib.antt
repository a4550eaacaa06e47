-- ===== src/Lib.antt =====
-- The Python backend of the IntelliAttend SmartBoard (backend/python/), which class-room boards,
-- faculty apps and administrators talk to over HTTP and WebSockets.
--
-- How the parts interact. The routes of main.py that touch the tables run inside the session of
-- core/database.py, which commits when the handler returns and rolls back when it raises, or open
-- a session of their own (ci-upload and the sockets); routes of boards first pass
-- core/security.py, admin routes `require_role` of services/auth_service.py, and all requests the
-- limiter of middleware/rate_limit_middleware.py. The handlers work on the tables of
-- models/sql_models.py, on the cache of services/cache_service.py, and on three stores of the
-- process: the tickets, `manager` (sockets that follow a session) and `board_manager` (sockets of
-- boards and the commands that wait for them).
--
-- How it is modelled. A handler is an action on an explicit state, which answers with a value or
-- an error (`HTTPException`, or any other exception) and a new state. Tables are lists of records
-- in the order of insertion; a query that expects one row takes the first that matches. Times are
-- microseconds since the epoch, and readings of the clock and random draws are arguments. What the
-- backend only calls (Firebase, PyJWT, hashing, the printing of dates, JSON text) is the record
-- Env, Redis is the record Redis of Cache, and the dates that only the history prints are its
-- record Calendar; theorems name what they need of them. Whether a socket takes a message is an
-- argument, a function of the socket and the message. Firestore and the database behind Alembic are
-- interfaces, records of operations with the laws that their documentation states; the tests fill
-- them with concrete functions.
--
-- Base (with Base/Tests, Base/Lists, Base/Sort and Base/Text) holds tests, lists, `sorted` and
-- Python's texts, Json the values of requests and answers, Dict Python's dicts. `str` prints at
-- most twenty digits, enough for every number below 10 ^ 20; the numbers that are printed are
-- counts and times far below it. The padding loop of the binary tokens runs on fuel, of which
-- three rounds are enough for every text.
--
--   Http             get_db, and how a handler raises
--   Models           models/sql_models.py
--   Env              what is called and not implemented
--   Security         core/security.py, require_role of services/auth_service.py
--   Registration     register_*_pg of services/auth_service.py; Registration/Endpoints: the routes of
--                    auth_router in main.py; Pending: the rows that the steps look up
--                    and write; Verify, Throttle, Flow: proofs
--   RateLimit        middleware/rate_limit_middleware.py; Window and Tiers: proofs
--   Sockets          Ticket: _tickets and the first checks of both socket routes, with the
--                    proofs in its Laws and Trace; Boards:
--                    BoardConnectionManager, with the log that it keeps for each board in its Log;
--                    Rooms: ConnectionManager; Live: session_websocket and
--                    board_websocket behind their tickets, with Live/Steps: the interleavings of
--                    these handlers, and the proofs in its Laws, Live and Reached
--   Fleet            Release: ci_upload, admin_rollback_all, the update block of _build_board_config;
--                    Report: report_update_status; Push: admin_push_update, admin_rollback_board;
--                    Overview: get_fleet_status
--   Admin            Guard: the admin dependency; Commands: admin_board_power,
--                    admin_board_notification; Deregister: admin_deregister_board
--   Telemetry        receive_telemetry, sync_server_time, board_ready, get_my_resources,
--                    get_college_resources, health_check
--   Middleware       correlation_id_middleware, security_headers_middleware
--   Heartbeat        board_heartbeat_v2, _build_board_config, services/board_service.py
--   QrToken          services/token_validator.py
--   BinaryToken      iatt_validator.py (at the root of the repository); Command: its command line
--   Attendance       _handle_attendance_submit, submit_attendance_rest, sync_vault
--   Cache            services/cache_service.py; Memory: the memory that it stands for, and the proof
--   History          get_session_history, its queries in Rows; Laws and Events: proofs
--   Hydration        services/hydration_service.py: Schedule, Roster, Manifest, and Payload with
--                    board_hydrate; proofs in the children of each
--   Session          services/session_service.py; Routes: session routes of main.py; Initiate and
--                    Lifecycle: proofs; Monitor: a round of stale_board_monitor
--                    Documents: the Firestore versions, and services/active_sessions_service.py
--   Alerts           services/alert_service.py, and the alerts of stale_board_monitor
--   Schema           alembic/versions: Initial (001) and Migrations (002, 003, the chain, and
--                    do_run_migrations of alembic/env.py) as operations; Catalog: what is documented
--                    of an operation; Frame, Grow and Types: how operations act beside other tables,
--                    and on types that exist; Laws: proofs
--   MockServer       scripts/mock_server.py (at the root of the repository): Store, Answers, the
--                    handlers that write, and Requests: the routes; Laws and Reached: proofs
--   Fixtures, Tests  concrete values, and the theorems applied to them
--
-- Not modelled: logging, the configuration and the offline mode of alembic/env.py, the development
-- scripts other than the mock server, and what the command line of iatt_validator.py prints of a
-- token. Integers of the database are unbounded here, and those that the code only stores or passes
-- on (counts, uptimes, days of the week) are natural numbers. Handlers run one after the other, but for
-- those of the sockets, which interleave between one `receive_text` and the next; two requests that
-- interleave at another await are outside the model.
pub mod Base
pub mod Json
pub mod Http
pub mod Models
pub mod Env
pub mod Security
pub mod Registration
pub mod Dict
pub mod RateLimit
pub mod Sockets
pub mod Fleet
pub mod Admin
pub mod Attendance
pub mod Cache
pub mod Session
pub mod Heartbeat
pub mod QrToken
pub mod History
pub mod Fixtures
pub mod Hydration
pub mod BinaryToken
pub mod Telemetry
pub mod Middleware
pub mod Schema
pub mod MockServer
pub mod Alerts
