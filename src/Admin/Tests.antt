-- ===== src/Admin/Tests.antt =====
-- A caller without a role, and a power command.
use intelli_attend_smart_boa.Base.{
  ◌≡◌, refl, Bool, true, none, some, [], ◌∷◌, or_else, same, starts_with, split, find, truthy,
  arith,
}
use intelli_attend_smart_boa.Json.{null}
use intelli_attend_smart_boa.Http.{Error, err, http, pure}
use intelli_attend_smart_boa.Env.{FirebaseClaims, JwtClaims}
use intelli_attend_smart_boa.Security.{bearer, get_current_board}
use intelli_attend_smart_boa.Fixtures.{
  test_env, fleet_db, empty_db, board_user, no_boards, first_broken,
}
use intelli_attend_smart_boa.Sockets.Boards.Laws.{Placed}
use intelli_attend_smart_boa.Registration.{has_email, has_board}
use intelli_attend_smart_boa.Models.{Db, AuthStatus}
use intelli_attend_smart_boa.Admin.Deregister.{admin_deregister_board}
use intelli_attend_smart_boa.Admin.Deregister.Laws.{deregistered_locked_out}
use intelli_attend_smart_boa.Admin.Guard.{World, admin_route, admin_route_refused}
use intelli_attend_smart_boa.Json.{natural}
use intelli_attend_smart_boa.Admin.Commands.{
  PowerCommandRequest, outcome, power_payload, admin_board_power,
}
use intelli_attend_smart_boa.Admin.Commands.Laws.{admin_board_power_lem}

abbrev fleet : World
fleet = record { db = fleet_db; boards = no_boards }

admin_route_refused_example :
    (e : Error) × (admin_route test_env 0 none (pure null) fleet ≡ (err e, fleet))
admin_route_refused_example =
    admin_route_refused test_env 0 none (pure null) fleet
      (λ t c carried. absurd (unfold bearer in ground arith))

abbrev restart : PowerCommandRequest
restart = record { action = "restart"; reason = ""; delay_seconds = natural 30; command_id = "c1" }

admin_board_power_lem_example :
    let (answer, t) = admin_board_power first_broken "B1" "uuid" "now" restart no_boards in
    (sent : Bool) × (answer ≡ outcome "command_id" (or_else (some "c1") "uuid") "B1" sent)
    × Placed first_broken "B1" (power_payload "uuid" "now" restart) no_boards sent t
admin_board_power_lem_example =
    admin_board_power_lem first_broken "B1" "uuid" "now" restart no_boards

abbrev board_db : Db
board_db = record empty_db { users = board_user AuthStatus.active ∷ [] }

abbrev board_claims : FirebaseClaims
board_claims = record { uid = some "board@school"; email = some "board@school" }

token_carried : bearer (some "Bearer board@school") ≡ some "board@school"
unfolding bearer starts_with split
token_carried = refl

board_found : find (has_email "board@school") board_db.users ≡ some (board_user AuthStatus.active)
unfolding same
board_found = refl

id_found : find (has_board "B1") board_db.users ≡ some (board_user AuthStatus.active)
unfolding same
id_found = refl

id_matches : has_board "B1" (board_user AuthStatus.active) ≡ true
unfolding same
id_matches = refl

email_named : truthy "board@school" ≡ true
unfolding same
email_named = refl

deregistered_locked_out_example :
    let db' = (admin_deregister_board "B1" board_db).1 in
    get_current_board test_env (some "Bearer board@school") db'
    ≡ (err (http 403 "BOARD_SUSPENDED: This board has been deactivated"), db')
deregistered_locked_out_example =
    deregistered_locked_out test_env "B1" board_db (board_user AuthStatus.active)
      (some "Bearer board@school") "board@school" "board@school" board_claims token_carried refl
      refl email_named board_found refl id_matches

abbrev verification_claims : JwtClaims
verification_claims = record {
  sub = some "B1";
  purpose = some "registration_verification";
  role = some "B1";
  iat = 0;
  exp = 0;
}
