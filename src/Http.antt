-- ===== src/Http.antt =====
-- Handlers as actions on a state: FastAPI's `HTTPException`, other exceptions, and the session
-- dependency `get_db` of backend/python/core/database.py.
pub mod Laws
use intelli_attend_smart_boa.Base.{ℕ, String, Bool, true, false, Option, none, some}

-- An `HTTPException` with its status code and detail, or any other exception.
pub data Error : Type 0 where
  http : ℕ → String → Error
  crash : Error

pub data Result {ℓ} (A : Type ℓ) : Type ℓ where
  ok : A → Result A
  err : Error → Result A

abbrev pub Action : Type 0 → Type 0 → Type 0
Action S A = S → Result A × S

module _ {S A : Type 0} where
  abbrev pub pure : A → Action S A
  pure a s = (ok a, s)

  abbrev pub raise : Error → Action S A
  raise e s = (err e, s)

  abbrev pub gets : (S → A) → Action S A
  gets f s = (ok (f s), s)

  abbrev pub or_raise : Option A → Error → Action S A
  or_raise none e = raise e
  or_raise (some a) e = pure a

infixl 5 ◌>>=◌ ◌>>◌
abbrev pub ◌>>=◌ : {S A B : Type 0} → Action S A → (A → Action S B) → Action S B
◌>>=◌ m f s = let (r, t) = m s in elim r [ ok a ↦ f a t | err e ↦ (err e, t) ]

abbrev pub ◌>>◌ : {S A B : Type 0} → Action S A → Action S B → Action S B
m >> k = m >>= λ _. k

abbrev pub raise_if : {S : Type 0} → Bool → Error → Action S (Unit {0})
raise_if true e s = (err e, s)
raise_if false e s = (ok tt, s)

abbrev pub modify : {S : Type 0} → (S → S) → Action S (Unit {0})
modify f s = (ok tt, f s)

-- `get_db`: the handler runs at the `yield`; its changes are committed if it returns, and rolled
-- back if it raises, an `HTTPException` included.
unfoldable pub get_db : {S A : Type 0} → Action S A → Action S A
get_db handler s = let (r, t) = handler s in elim r [ ok a ↦ (ok a, t) | err e ↦ (err e, s) ]

-- `try: … except HTTPException: raise; except Exception: raise HTTPException(500, detail)`
abbrev pub crash_as : {A : Type 0} → String → Result A → Result A
crash_as detail (ok a) = ok a
crash_as detail (err (http code d)) = err (http code d)
crash_as detail (err crash) = err (http 500 detail)

abbrev pub guarded : {S A : Type 0} → String → Action S A → Action S A
guarded detail m s = let (r, t) = m s in (crash_as detail r, t)
