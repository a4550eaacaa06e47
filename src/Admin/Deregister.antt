-- ===== src/Admin/Deregister.antt =====
-- POST /api/v1/admin/board/{board_id}/deregister in backend/python/main.py. It commits the session
-- itself; the alert that it sends afterwards is left out.
pub mod Laws
use intelli_attend_smart_boa.Base.{
  ℕ, String, Bool, true, Option, none, some, List, ◌&&◌, ◌==◌, count_where, modify_where,
}
use intelli_attend_smart_boa.Json.{Json, bool, text, obj, end, ◌↪◌⨾◌}
use intelli_attend_smart_boa.Http.{http, Action, pure, gets, raise_if, modify, ◌>>=◌, ◌>>◌, get_db}
use intelli_attend_smart_boa.Models.{Db, User, AuthStatus}
use intelli_attend_smart_boa.Security.{is_board}
use intelli_attend_smart_boa.Registration.{has_board}

-- The rows of the update: board accounts with the id.
abbrev pub is_account : String → User → Bool
is_account board u = has_board board u && is_board u.role

abbrev pub deregistered : User → User
deregistered u = record u { auth_status = AuthStatus.pending; firebase_uid = none }

-- `admin_deregister_board`. Where no row is updated there is nothing to commit either.
unfoldable pub admin_deregister_board : (board_id : String) → Action Db Json
admin_deregister_board board = get_db (do
  count ← gets (λ db. count_where (is_account board) db.users)
  modify (λ db. record db { users = modify_where (is_account board) deregistered db.users })
  raise_if (count == 0) (http 404 "Board not found or already deregistered")
  pure (obj ("status" ↪ text "ok" ⨾ "board_id" ↪ text board ⨾ "deregistered" ↪ bool true ⨾ end)))
