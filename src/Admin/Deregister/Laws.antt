-- ===== src/Admin/Deregister/Laws.antt =====
-- A board that was deregistered is locked out, and can register again.
use intelli_attend_smart_boa.Base.{
  ℕ, String, ◌≡◌, refl, ◌≢◌, Bool, true, Option, none, some, List, [], ◌∷◌, arith, find, truthy,
  count_where, modify_where, if◌then◌else◌,
}
use intelli_attend_smart_boa.Json.{Json}
use intelli_attend_smart_boa.Http.{http, ok, err, get_db}
use intelli_attend_smart_boa.Models.{Db, User, UserRole}
use intelli_attend_smart_boa.Env.{Env, FirebaseClaims, JwtClaims, claims}
use intelli_attend_smart_boa.Security.{bearer, get_current_board}
use intelli_attend_smart_boa.Registration.{
  has_email, has_board, register_complete, registered_profile,
}
use intelli_attend_smart_boa.Registration.Flow.{register_complete_ok}
use intelli_attend_smart_boa.Admin.Deregister.{is_account, deregistered, admin_deregister_board}

find-modify_where :
    (p q : User → Bool) (f : User → User) (xs : List User)
    → ((x : User) → q (f x) ≡ q x)
    → find q (modify_where p f xs)
      ≡ elim (find q xs) [ none ↦ none | some x ↦ some (if p x then f x else x) ]
find-modify_where p q f [] h = refl
find-modify_where p q f (x ∷ xs) h = ground (arith, h x, find-modify_where p q f xs h)

count_where-found :
    (p q : User → Bool) (xs : List User) (u : User)
    → find q xs ≡ some u
    → p u ≡ true
    → count_where p xs ≢ 0
count_where-found p q [] u h k = absurd (ground arith)
count_where-found p q (x ∷ xs) u h k = ground (arith, count_where-found p q xs u)

module _ (env : Env) (board : String) (db : Db) (u : User) where
  -- Deregistering answers and changes the board accounts of the id only, where there is one.
  deregister_ok :
      (q : User → Bool)
      → find q db.users ≡ some u
      → is_account board u ≡ true
      → (admin_deregister_board board db).1
        ≡ record db { users = modify_where (is_account board) deregistered db.users }
  unfolding admin_deregister_board get_db
  deregister_ok q found mine =
      ground (arith, count_where-found (is_account board) q db.users u found mine)

  -- After an admin has deregistered a board, a token of the board's account that Firebase still
  -- verifies is refused by every board endpoint with 403, and nothing is changed.
  pub deregistered_locked_out :
      (header : Option String) (token email : String) (c : FirebaseClaims)
      → bearer header ≡ some token
      → env.verify_id_token token ≡ some c
      → c.email ≡ some email
      → truthy email ≡ true
      → find (has_email email) db.users ≡ some u
      → u.role ≡ UserRole.board
      → has_board board u ≡ true
      → let db' = (admin_deregister_board board db).1 in
        get_current_board env header db'
        ≡ (err (http 403 "BOARD_SUSPENDED: This board has been deactivated"), db')
  unfolding get_current_board
  deregistered_locked_out header token email c carried verified claimed named found role mine =
      let listed : is_account board u ≡ true = ground arith in
      let after = deregister_ok (has_email email) found listed in
      let there : find (has_email email) (modify_where (is_account board) deregistered db.users)
          ≡ some (deregistered u) =
        ground (
          arith,
          listed,
          find-modify_where (is_account board) (has_email email) deregistered db.users (λ x. refl),
        ) in
      rw after (ground (arith, there))

  -- A deregistered board is pending again: a fresh verification token of the board makes step 3 of
  -- the registration answer with its profile.
  pub deregistered_completes :
      (now : ℕ) (token hardware : String) (meta : Option Json) (c : JwtClaims)
      → env.jwt_decode token env.jwt_secret now ≡ claims c
      → c.purpose ≡ some "registration_verification"
      → c.sub ≡ some board
      → find (has_board board) db.users ≡ some u
      → u.role ≡ UserRole.board
      → has_board board u ≡ true
      → let db' = (admin_deregister_board board db).1 in
        (register_complete env now board token hardware meta db').0
        ≡ ok (registered_profile env board (deregistered u))
  deregistered_completes now token hardware meta c decoded purpose sub found role mine =
      let listed : is_account board u ≡ true = ground arith in
      let after = deregister_ok (has_board board) found listed in
      let db' : Db = record db { users = modify_where (is_account board) deregistered db.users } in
      let there : find (has_board board) db'.users ≡ some (deregistered u) = ground (
        arith,
        listed,
        find-modify_where (is_account board) (has_board board) deregistered db.users (λ x. refl),
      ) in
      rw after (
        rw
          (register_complete_ok env board now token hardware meta db' c (deregistered u) decoded
            purpose sub there refl)
          refl)
