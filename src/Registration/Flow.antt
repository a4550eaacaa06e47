-- ===== src/Registration/Flow.antt =====
-- The three steps of the registration one after the other, and what each leaves behind.
mod Rows
unfoldable pub use Rows.*
use intelli_attend_smart_boa.Base.{
  ℕ, ◌+◌, ◌≤◌, String, ◌≡◌, refl, ◌≢◌, true, false, Option, none, some, arith, ◌^^◌, List, [], ◌∷◌,
  ◌++◌, find, some?, same, same_refl, slice_to, modify_first, find_of_some?, find-append_none,
  remove_first-append, modify_first-append,
}
use intelli_attend_smart_boa.Json.{Json, bool, text, obj, end, ◌↪◌⨾◌}
use intelli_attend_smart_boa.Http.{ok}
use intelli_attend_smart_boa.Models.{
  Db, User, UserRole, AuthStatus, PendingRegistration, minutes, seconds,
}
use intelli_attend_smart_boa.Env.{Env, JwtClaims, claims}
use intelli_attend_smart_boa.Registration.Verify.{verified, register_verify_accepted}
use intelli_attend_smart_boa.Registration.{
  lookup_pending, has_email, has_board, for_board, clashes, pending_clashes, register_initiate,
  register_verify, register_complete, generate_otp, registered_profile, generate_verification_token,
}

module _ (env : Env) (board : String) where
  -- Step 1 for a board, user and e-mail that no row holds: the answer asks for the OTP, a pending
  -- board account is added, and a row with the hash of the OTP that runs out ten minutes later.
  pub register_initiate_new :
      (clock : ℕ → ℕ) (random : ℕ) (id uid email : String) (db : Db)
      → let u = new_user board uid email in
        let p = new_pending id board uid email (env.sha256 (generate_otp random)) (clock 3) in
        some? (clashes u) db.users ≡ false
        → some? (pending_clashes p) db.pending ≡ false
        → register_initiate env clock random id board uid email db ≡ (
          ok (otp_required board email),
          record db { users = db.users ++ u ∷ []; pending = db.pending ++ p ∷ [] },
        )
  unfolding register_initiate
  register_initiate_new clock random id uid email db free unused =
      let u = new_user board uid email in
      let p = new_pending id board uid email (env.sha256 (generate_otp random)) (clock 3) in
      ground (arith, no_account board uid email db free, no_row p db unused)

  -- Step 3 with a verification token of this board, for its pending account: the account becomes
  -- active, and nothing else changes.
  pub register_complete_ok :
      (now : ℕ) (token hardware : String) (meta : Option Json) (db : Db) (c : JwtClaims) (u : User)
      → env.jwt_decode token env.jwt_secret now ≡ claims c
      → c.purpose ≡ some "registration_verification"
      → c.sub ≡ some board
      → find (has_board board) db.users ≡ some u
      → u.auth_status ≡ AuthStatus.pending
      → register_complete env now board token hardware meta db ≡ (
        ok (registered_profile env board u),
        record db {
          users =
              modify_first
                (has_board board)
                (λ r. record r { auth_status = AuthStatus.active })
                db.users;
        },
      )
  unfolding register_complete
  register_complete_ok now token hardware meta db c u decoded purpose sub found status =
      ground (arith, same_refl "registration_verification", same_refl board)

  -- Step 3 is refused, whatever the token, where the board's account is active or suspended; so a
  -- verification token is of no use once the board is registered.
  pub register_complete_refused :
      (now : ℕ) (token hardware : String) (meta : Option Json) (db : Db) (u : User)
      → find (has_board board) db.users ≡ some u
      → u.auth_status ≢ AuthStatus.pending
      → (answer : Json) → (register_complete env now board token hardware meta db).0 ≢ ok answer
  unfolding register_complete
  register_complete_refused now token hardware meta db u found status answer = ground arith

  -- What PyJWT promises of a verification token made with the same secret, once the time that it
  -- was issued at has come and while it has a second or more to live.
  abbrev pub DecodesAt : ℕ → Type 0
  DecodesAt now =
      (c : JwtClaims)
      → c.sub ≡ some board
      → c.purpose ≡ some "registration_verification"
      → c.iat ≤ now
      → now + seconds 1 ≤ c.exp
      → (d : JwtClaims) × (env.jwt_decode (env.jwt_encode c env.jwt_secret) env.jwt_secret now
          ≡ claims d)
        × (d.sub ≡ c.sub)
        × (d.purpose ≡ c.purpose)

  -- Step 2 on the database that step 1 leaves.
  verify_after_initiate :
      (clock' : ℕ → ℕ) (otp : String) (db : Db) (users : List User) (p : PendingRegistration)
      → same p.smart_board_id board ≡ true
      → find (for_board board) db.pending ≡ none
      → p.otp_hash ≡ env.sha256 otp
      → p.attempts ≡ 0
      → p.locked_until ≡ none
      → clock' 2 ≤ p.otp_expires_at
      → register_verify env clock' board otp
          (record db { users = users; pending = db.pending ++ p ∷ [] })
        ≡ (ok (verified env clock' board), record db { users = users })
  unfolding lookup_pending
  verify_after_initiate clock' otp db users p mine none_yet hash zero_tries open_row fresh =
      let db1 = record db { users = users; pending = db.pending ++ p ∷ [] } in
      let found = find-append_none (for_board board) db.pending (p ∷ []) none_yet in
      rw
        (register_verify_accepted env clock' board otp db1 p (record {
          found = ground arith;
          unlocked = ground arith;
          tries = omega arith;
          fresh = fresh;
          matches = hash;
        }))
        (ground (arith, remove_first-append (for_board board) db.pending p none_yet mine))

  complete_after_verify :
      (now : ℕ) (token hardware : String) (meta : Option Json) (db : Db) (u : User) (d : JwtClaims)
      → env.jwt_decode token env.jwt_secret now ≡ claims d
      → d.purpose ≡ some "registration_verification"
      → d.sub ≡ some board
      → find (has_board board) db.users ≡ none
      → has_board board u ≡ true
      → u.auth_status ≡ AuthStatus.pending
      → register_complete env now board token hardware meta
          (record db { users = db.users ++ u ∷ [] })
        ≡ (
          ok (registered_profile env board u),
          record db { users = db.users ++ record u { auth_status = AuthStatus.active } ∷ [] },
        )
  complete_after_verify now token hardware meta db u d decoded purpose sub absent mine status =
      let db2 : Db = record db { users = db.users ++ u ∷ [] } in
      let found = find-append_none (has_board board) db.users (u ∷ []) absent in
      let activate : User → User = λ r. record r { auth_status = AuthStatus.active } in
      rw
        (register_complete_ok now token hardware meta db2 d u decoded purpose sub (ground arith)
          status)
        (rw (modify_first-append (has_board board) activate db.users u absent mine))

  -- A whole registration. For a board, user and e-mail that no row holds, the OTP of step 1, sent
  -- back within its ten minutes, is answered in step 2 with a token; if step 3 comes no earlier than
  -- that token was issued and at least a second before its fifteen minutes are over, and decoding
  -- then gives back the subject and purpose that it was made from, step 3 accepts it, and the three
  -- steps together have added exactly one account, an active one for this board, and left no pending
  -- row.
  pub registration_activates :
      (clock clock' : ℕ → ℕ) (now random : ℕ) (id uid email hardware : String) (meta : Option Json)
      (db : Db)
      → let u = new_user board uid email in
        let otp = generate_otp random in
        let p = new_pending id board uid email (env.sha256 otp) (clock 3) in
        let token = generate_verification_token env (clock' 3) (clock' 4) board in
        let db1 = (register_initiate env clock random id board uid email db).1 in
        let (answer, db2) = register_verify env clock' board otp db1 in
        some? (clashes u) db.users ≡ false
        → some? (pending_clashes p) db.pending ≡ false
        → clock' 2 ≤ clock 3 + minutes 10
        → clock' 3 ≤ now
        → now + seconds 1 ≤ clock' 4 + minutes 15
        → DecodesAt now
        → (answer ≡ ok (verified env clock' board))
          × (register_complete env now board token hardware meta db2 ≡ (
            ok (registered_profile env board u),
            record db { users = db.users ++ record u { auth_status = AuthStatus.active } ∷ [] },
          ))
  unfolding generate_verification_token
  registration_activates clock clock' now random id uid email hardware meta db free unused fresh
        issued alive codec =
      let u = new_user board uid email in
      let otp = generate_otp random in
      let p = new_pending id board uid email (env.sha256 otp) (clock 3) in
      let (d, decoded, sub, purpose) = codec _ refl refl issued alive in
      let verified_step =
        verify_after_initiate clock' otp db (db.users ++ u ∷ []) p (same_refl board)
          (unfold lookup_pending in no_row p db unused) refl refl refl fresh in
      rw (register_initiate_new clock random id uid email db free unused, verified_step)
        (
          refl,
          complete_after_verify now _ hardware meta db u d decoded purpose sub
              (no_account board uid email db free).1 (same_refl board) refl,
        )
