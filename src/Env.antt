-- ===== src/Env.antt =====
-- What the backend calls and does not implement: Firebase, PyJWT, hashing, encodings and the
-- printing of dates. Each is an argument of the model; theorems name what they need of it.
use intelli_attend_smart_boa.Base.{ℕ, String, Option}
use intelli_attend_smart_boa.Json.{Json, PyInt}

-- The claims of a decoded Firebase ID token.
pub record FirebaseClaims : Type 0 where
  pub uid : Option String
  pub email : Option String

-- The claims that the backend reads from its own tokens.
pub record JwtClaims : Type 0 where
  pub sub : Option String
  pub purpose : Option String
  pub role : Option String
  pub iat : ℕ
  pub exp : ℕ

-- The outcomes of `jwt.decode`: the claims, `ExpiredSignatureError`, another `InvalidTokenError`.
pub data Decoded : Type 0 where
  claims : JwtClaims → Decoded
  expired : Decoded
  invalid : Decoded

pub record Env : Type 0 where
  pub jwt_secret : String
  -- `jwt.encode`, and `jwt.decode` at a time
  pub jwt_encode : JwtClaims → String → String
  pub jwt_decode : String → String → ℕ → Decoded
  -- `firebase_auth.verify_id_token`, `none` where it raises
  pub verify_id_token : String → Option FirebaseClaims
  -- `firebase_auth.create_custom_token`, `none` where it raises
  pub create_custom_token : String → Option String
  -- `hashlib.sha256(text.encode()).hexdigest()`
  pub sha256 : String → String
  -- `hmac.new(key, message, sha256).hexdigest()`
  pub hmac_sha256 : String → String → String
  -- `str.lower`, and `int` of a text, `none` where it raises
  pub lower : String → String
  pub parse_int : String → Option PyInt
  -- `json.dumps`, also with sorted keys and no spaces; `json.loads`, `none` where it raises
  pub dumps : Json → String
  pub dumps_sorted : Json → String
  pub loads : String → Option Json
  -- `strftime("%Y-%m-%d")`
  pub date : ℕ → String
  -- `datetime.isoformat()`
  pub isoformat : ℕ → String
