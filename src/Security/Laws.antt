-- ===== src/Security/Laws.antt =====
-- What a handler may rely on when the dependencies of the route let a request through.
use intelli_attend_smart_boa.Base.{
  ℕ, String, ◌≡◌, refl, ◌≢◌, ◌⊎◌, ◌↔◌, Option, none, some, List, arith, find, same, same_iff,
  Option-cases, Bool-cases, inl, inr, true,
}
use intelli_attend_smart_boa.Http.{Error, http, ok, err}
use intelli_attend_smart_boa.Models.{User, UserRole, AuthStatus, Db}
use intelli_attend_smart_boa.Env.{Env, FirebaseClaims, JwtClaims, Decoded, claims, expired, invalid}
use intelli_attend_smart_boa.Security.{
  bearer, BoardData, board_data_of, admit_board, get_current_board, allowed, require_role,
}

-- The evidence behind an admitted board: the token verified, and an active board account.
pub record IsAdmitted (env : Env) (authorization : Option String) (db : Db) (b : BoardData)
    : Type 0 where
  pub token : String
  pub email : String
  pub decoded : FirebaseClaims
  pub user : User
  pub carried : bearer authorization ≡ some token
  pub verified : env.verify_id_token token ≡ some decoded
  pub claimed : decoded.email ≡ some email
  pub named : email ≢ ""
  pub found : find (λ (u : User). same u.email email) db.users ≡ some user
  pub role : user.role ≡ UserRole.board
  pub status : user.auth_status ≡ AuthStatus.active
  pub answer : b ≡ board_data_of user

Decoded-cases : (d : Decoded) → ((c : JwtClaims) × (d ≡ claims c)) ⊎ ((d ≡ expired) ⊎ (d ≡ invalid))
Decoded-cases (claims c) = inl (c, refl)
Decoded-cases expired = inr (inl refl)
Decoded-cases invalid = inr (inr refl)

module _ (env : Env) (authorization : Option String) (db db' : Db) (b : BoardData) where
  admit_board_sound :
      (found : Option User)
      → admit_board env found db ≡ (ok b, db')
      → (u : User) × (found ≡ some u)
        × (u.role ≡ UserRole.board)
        × (u.auth_status ≡ AuthStatus.active)
        × (b ≡ board_data_of u)
        × (db' ≡ db)
  unfolding admit_board
  admit_board_sound none h = absurd (ground arith)
  admit_board_sound (some u) h = (u, refl, ground arith, ground arith, ground arith, ground arith)

  -- A board endpoint runs only for a caller whose token Firebase verified, whose email claim is not
  -- empty and belongs to a user with the role `board` and the status `active`; the handler is given
  -- that user's data, and the check changes nothing.
  pub get_current_board_sound :
      get_current_board env authorization db ≡ (ok b, db')
      → IsAdmitted env authorization db b × (db' ≡ db)
  unfolding get_current_board
  get_current_board_sound h = elim (Option-cases (bearer authorization)) [
    | inl e ↦ absurd (ground arith)
    | inr (token, carried) ↦ elim (Option-cases (env.verify_id_token token)) [
      | inl e ↦ absurd (ground arith)
      | inr (decoded, verified) ↦ elim (Option-cases decoded.email) [
        | inl e ↦ absurd (ground arith)
        | inr (email, claimed) ↦ elim (Bool-cases (same email "")) [
          | inl e ↦ absurd (ground arith)
          | inr e ↦
              let (user, found, role, status, answer, kept) =
                admit_board_sound (find (λ (u : User). same u.email email) db.users)
                  (ground arith) in
              (
                record {
                  token = token;
                  email = email;
                  decoded = decoded;
                  user = user;
                  carried = carried;
                  verified = verified;
                  claimed = claimed;
                  named = ground (arith, same_iff email "");
                  found = found;
                  role = role;
                  status = status;
                  answer = answer;
                },
                kept,
              )
        ]
      ]
    ]
  ]

-- An admin or faculty route runs exactly when the header carries a bearer token that decodes to
-- claims whose role is in the route's list; the check never changes the state.
pub require_role_iff :
    {S : Type 0} (env : Env) (roles : List String) (now : ℕ) (authorization : Option String) (s : S)
    (c : JwtClaims)
    → (require_role env roles now authorization s ≡ (ok c, s)) ↔ (
        (t : String) × (bearer authorization ≡ some t)
        × (env.jwt_decode t env.jwt_secret now ≡ claims c)
        × (allowed roles c.role ≡ true))
unfolding require_role
require_role_iff env roles now authorization s c = (
  (λ h. elim (Option-cases (bearer authorization)) [
    | inl e ↦ absurd (ground arith)
    | inr (t, carried) ↦ elim (Decoded-cases (env.jwt_decode t env.jwt_secret now)) [
      | inl (d, e) ↦ elim (Bool-cases (allowed roles d.role)) [
        | inl listed ↦ (t, carried, ground arith, ground arith)
        | inr other ↦ absurd (ground arith)
      ]
      | inr (inl e) ↦ absurd (ground arith)
      | inr (inr e) ↦ absurd (ground arith)
    ]
  ]),
  (λ (t, carried, decoded, listed). ground arith),
)

-- The check answers with claims or refuses, and keeps the state.
pub require_role_outcome :
    {S : Type 0} (env : Env) (roles : List String) (now : ℕ) (authorization : Option String) (s : S)
    → ((c : JwtClaims) × (require_role env roles now authorization s ≡ (ok c, s)))
      ⊎ ((e : Error) × (require_role env roles now authorization s ≡ (err e, s)))
unfolding require_role
require_role_outcome env roles now authorization s = elim (Option-cases (bearer authorization)) [
  | inl e ↦ inr (http 401 "Missing or invalid Authorization header", ground arith)
  | inr (t, carried) ↦ elim (Decoded-cases (env.jwt_decode t env.jwt_secret now)) [
    | inl (d, e) ↦ elim (Bool-cases (allowed roles d.role)) [
      | inl listed ↦ inl (d, ground arith)
      | inr other ↦ inr (http 403 "Insufficient permissions", ground arith)
    ]
    | inr (inl e) ↦ inr (http 401 "Token expired", ground arith)
    | inr (inr e) ↦ inr (http 401 "Invalid token", ground arith)
  ]
]
