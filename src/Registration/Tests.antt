-- ===== src/Registration/Tests.antt =====
-- A registration of the board "B1", and guesses at its OTP.
use intelli_attend_smart_boa.Base.{ℕ, ◌≡◌, refl, same, map, find, some, none, [], ◌∷◌, arith}
use intelli_attend_smart_boa.Http.{ok}
use intelli_attend_smart_boa.Env.{JwtClaims}
use intelli_attend_smart_boa.Models.{AuthStatus, Db}
use intelli_attend_smart_boa.Fixtures.{
  test_env, empty_db, pending_row, pending_db, board_user, apart,
}
use intelli_attend_smart_boa.Registration.{
  lookup_pending, register_complete, register_initiate, register_verify, generate_otp,
  generate_verification_token, registered_profile, has_board,
}
use intelli_attend_smart_boa.Registration.Verify.{Accepts, verified}
use intelli_attend_smart_boa.Registration.Throttle.{
  Guess, attempts_run, refusal, attempts_run_wrong, IsWrong,
}
use intelli_attend_smart_boa.Registration.Flow.{new_user, registration_activates}

abbrev at_start : ℕ → ℕ
at_start k = k

abbrev wrong_guess : Guess
wrong_guess = record { clock = at_start; otp = "000000" }

abbrev right_guess : Guess
right_guess = record { clock = at_start; otp = "123456" }

abbrev initiated : Db
initiated = (register_initiate test_env at_start 7 "id" "B1" "uid" "board@school" empty_db).1

abbrev active_db : Db
active_db = record empty_db { users = board_user AuthStatus.active ∷ [] }

found_row : lookup_pending "B1" pending_db ≡ some pending_row
unfolding lookup_pending same
found_row = refl

wrong_guess-IsWrong : IsWrong test_env "B1" pending_db pending_row wrong_guess
unfolding same
wrong_guess-IsWrong = record {
  six = refl;
  unlocked = refl;
  fresh = omega arith;
  wrong = apart "123456" "000000" refl;
}

row-Accepts : Accepts test_env at_start "B1" "123456" pending_db pending_row
row-Accepts = record {
  found = found_row;
  unlocked = refl;
  tries = omega arith;
  fresh = omega arith;
  matches = refl;
}

abbrev decoded_claims : JwtClaims → JwtClaims
decoded_claims c = record {
  sub = some (test_env.jwt_encode c "secret");
  purpose = some "registration_verification";
  role = some (test_env.jwt_encode c "secret");
  iat = 0;
  exp = 0;
}

registration_activates_example :
    let u = new_user "B1" "uid" "board@school" in
    let (answer, db2) = register_verify test_env at_start "B1" (generate_otp 7) initiated in
    (answer ≡ ok (verified test_env at_start "B1"))
    × (register_complete test_env 10 "B1"
          (generate_verification_token test_env 3 4 "B1")
          "hw"
          none
          db2
        ≡ (
          ok (registered_profile test_env "B1" u),
          record empty_db { users = record u { auth_status = AuthStatus.active } ∷ [] },
        ))
registration_activates_example =
    registration_activates test_env "B1" at_start at_start 10 7 "id" "uid" "board@school" "hw" none
      empty_db refl refl (omega arith) (omega arith) (omega arith)
      (λ c sub purpose issued alive. (decoded_claims c, refl, rw sub, rw purpose))

attempts_run_wrong_example :
    attempts_run test_env "B1" (wrong_guess ∷ wrong_guess ∷ wrong_guess ∷ []) pending_db ≡ (
      map
          (λ _. refusal test_env "B1" pending_db pending_row)
          (wrong_guess ∷ wrong_guess ∷ wrong_guess ∷ []),
      pending_db,
    )
attempts_run_wrong_example =
    attempts_run_wrong test_env "B1" pending_db pending_row
      (wrong_guess ∷ wrong_guess ∷ wrong_guess ∷ []) found_row (omega arith)
      (wrong_guess-IsWrong, (wrong_guess-IsWrong, (wrong_guess-IsWrong, tt)))

active_found : find (has_board "B1") active_db.users ≡ some (board_user AuthStatus.active)
unfolding same
active_found = refl
