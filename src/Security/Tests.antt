-- ===== src/Security/Tests.antt =====
-- A board's token, and an admin's.
use intelli_attend_smart_boa.Base.{◌≡◌, refl, some, [], ◌∷◌, starts_with, split, same}
use intelli_attend_smart_boa.Http.{ok}
use intelli_attend_smart_boa.Models.{AuthStatus, Db}
use intelli_attend_smart_boa.Fixtures.{test_env, empty_db, board_user}
use intelli_attend_smart_boa.Security.{bearer, board_data_of, get_current_board}
use intelli_attend_smart_boa.Security.Laws.{IsAdmitted, get_current_board_sound}

abbrev board_db : Db
board_db = record empty_db { users = board_user AuthStatus.active ∷ [] }

admitted :
    get_current_board test_env (some "Bearer board@school") board_db
    ≡ (ok (board_data_of (board_user AuthStatus.active)), board_db)
unfolding get_current_board bearer starts_with split same
admitted = refl

get_current_board_sound_example :
    IsAdmitted test_env
      (some "Bearer board@school")
      board_db
      (board_data_of (board_user AuthStatus.active))
    × (board_db ≡ board_db)
get_current_board_sound_example =
    get_current_board_sound test_env (some "Bearer board@school") board_db board_db
      (board_data_of (board_user AuthStatus.active)) admitted
