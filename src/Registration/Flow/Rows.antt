-- ===== src/Registration/Flow/Rows.antt =====
-- The rows that a first registration makes, and the lookups before it.
use intelli_attend_smart_boa.Base.{
  ℕ, ◌+◌, String, ◌≡◌, false, none, some, arith, ◌^^◌, find, some?, slice_to, find_of_some?,
}
use intelli_attend_smart_boa.Json.{Json, bool, text, obj, end, ◌↪◌⨾◌}
use intelli_attend_smart_boa.Models.{Db, User, UserRole, AuthStatus, PendingRegistration, minutes}
use intelli_attend_smart_boa.Registration.{
  lookup_pending, has_email, has_board, for_board, clashes, pending_clashes,
}

-- The account and the row that step 1 adds for a board that is not known yet.
abbrev pub new_user : (board uid email : String) → User
new_user board uid email = record {
  id = slice_to 32 uid;
  email = email;
  name = "SmartBoard " ^^ board;
  role = UserRole.board;
  auth_status = AuthStatus.pending;
  firebase_uid = some uid;
  smart_board_id = some board;
  room_id = none;
  institution_id = none;
  roll_number = none;
}

abbrev pub new_pending : (id board uid email otp_hash : String) → ℕ → PendingRegistration
new_pending id board uid email otp_hash now = record {
  id = id;
  smart_board_id = board;
  firebase_uid = some uid;
  email = some email;
  otp_hash = otp_hash;
  otp_expires_at = now + minutes 10;
  attempts = 0;
  locked_until = none;
}

abbrev pub otp_required : (board email : String) → Json
otp_required board email = obj (
    "status"
    ↪ text "otp_required" ⨾ "is_registered"
    ↪ bool false ⨾ "smart_board_id"
    ↪ text board ⨾ "admin_email"
    ↪ text email ⨾ end)

pub no_account :
    (board uid email : String) (db : Db)
    → some? (clashes (new_user board uid email)) db.users ≡ false
    → (find (has_email email) db.users ≡ none) × (find (has_board board) db.users ≡ none)
no_account board uid email db free = (
  find_of_some? (clashes (new_user board uid email)) (has_email email) db.users free
      (λ x h. ground arith),
  find_of_some? (clashes (new_user board uid email)) (has_board board) db.users free
      (λ x h. ground arith),
)

pub no_row :
    (p : PendingRegistration) (db : Db)
    → some? (pending_clashes p) db.pending ≡ false
    → lookup_pending p.smart_board_id db ≡ none
unfolding lookup_pending
no_row p db unused =
    find_of_some? (pending_clashes p) (for_board p.smart_board_id) db.pending unused
      (λ x h. ground arith)
