-- ===== src/Admin/Guard.antt =====
-- The state of an admin route, its session, and its dependency `require_role(["admin"])`.
use intelli_attend_smart_boa.Base.{
  ℕ, String, ◌≡◌, ◌≢◌, true, Option, none, some, [], ◌∷◌, arith, inl, inr, same_iff,
}
use intelli_attend_smart_boa.Http.{Error, ok, err, Action, ◌>>◌}
use intelli_attend_smart_boa.Models.{Db}
use intelli_attend_smart_boa.Env.{Env, JwtClaims, claims}
use intelli_attend_smart_boa.Security.{bearer, require_role, allowed}
use intelli_attend_smart_boa.Security.Laws.{require_role_iff, require_role_outcome}
use intelli_attend_smart_boa.Sockets.Boards.{Boards}

-- The database, and the process-wide `board_manager`.
pub record World : Type 0 where
  pub db : Db
  pub boards : Boards

-- `get_db` around a route: it takes back the changes of the database only.
unfoldable pub in_session : {A : Type 0} → Action World A → Action World A
in_session handler w =
    let (r, v) = handler w in elim r [ ok a ↦ (ok a, v) | err e ↦ (err e, record v { db = w.db }) ]

-- A route with the dependency `require_role(["admin"])`.
unfoldable pub admin_route :
    {A : Type 0} → Env → ℕ → Option String → Action World A → Action World A
unfolding in_session
admin_route env now authorization handler =
    in_session (do require_role env ("admin" ∷ []) now authorization; handler)

allowed_admin : (r : Option String) → allowed ("admin" ∷ []) r ≡ true → r ≡ some "admin"
allowed_admin none h = ground arith
allowed_admin (some r) h = ground (arith, same_iff "admin" r)

-- A caller whose header holds no bearer token with the role `admin` gets no answer from an admin
-- route, whatever its handler, and changes neither the database nor the state of the boards.
pub admin_route_refused :
    {A : Type 0} (env : Env) (now : ℕ) (authorization : Option String) (handler : Action World A)
    (w : World)
    → ((t : String) (c : JwtClaims)
        → bearer authorization ≡ some t
        → env.jwt_decode t env.jwt_secret now ≡ claims c
        → c.role ≢ some "admin")
    → (e : Error) × (admin_route env now authorization handler w ≡ (err e, w))
unfolding admin_route
admin_route_refused env now authorization handler w h =
    elim (require_role_outcome env ("admin" ∷ []) now authorization w) [
      | inl (c, e) ↦
          let (t, carried, decoded, listed) =
            (require_role_iff env ("admin" ∷ []) now authorization w c).0 e in
          absurd (h t c carried decoded (allowed_admin c.role listed))
      | inr (e, refused) ↦ (e, ground (arith, refused))
    ]
