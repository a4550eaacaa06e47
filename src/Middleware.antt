-- ===== src/Middleware.antt =====
-- The two HTTP middlewares of backend/python/main.py. Header names, which are compared without
-- regard to case, are kept in lower case.
pub mod Laws
mod Tests
use intelli_attend_smart_boa.Base.{ℕ, String, Option, none, some, List, [], ◌∷◌}
use intelli_attend_smart_boa.Dict.{Dict, insert, get_or}
use intelli_attend_smart_boa.Json.{Json}

pub record Response : Type 0 where
  pub status_code : ℕ
  pub headers : Dict String
  pub body : Json

-- What the application below a middleware does with a request: it answers, or raises (`none`).
abbrev pub App : Type 0
App = Dict String → Option Response

abbrev pub set_header : String → String → Response → Response
set_header name value r = record r { headers = insert name value r.headers }

abbrev pub set_headers : Dict String → Response → Response
set_headers [] r = r
set_headers ((name, value) ∷ rest) r = set_headers rest (set_header name value r)

-- The headers of `security_headers_middleware`.
abbrev pub security_headers : Dict String
security_headers =
    ("x-content-type-options", "nosniff")
    ∷ ("x-frame-options", "DENY")
    ∷ ("referrer-policy", "strict-origin-when-cross-origin")
    ∷ ("content-security-policy", "default-src 'none'")
    ∷ ("permissions-policy", "camera=(), microphone=(), geolocation=()")
    ∷ ("cross-origin-opener-policy", "same-origin")
    ∷ ("cross-origin-resource-policy", "same-origin")
    ∷ []

-- `correlation_id_middleware`
unfoldable pub correlation_id_middleware : App → App
correlation_id_middleware app request_headers = elim (app request_headers) [
  | none ↦ none
  | some r ↦
      some (set_header "x-request-id" (get_or "x-request-id" "internal-v1" request_headers) r)
]

-- `security_headers_middleware`
unfoldable pub security_headers_middleware : App → App
security_headers_middleware app request_headers = elim (app request_headers) [
  | none ↦ none
  | some r ↦ some (set_headers security_headers r)
]

-- The later one is the outer one; the limiter and the routes are below both.
unfoldable pub middlewares : App → App
unfolding correlation_id_middleware security_headers_middleware
middlewares app = security_headers_middleware (correlation_id_middleware app)
