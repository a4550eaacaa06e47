-- ===== src/Middleware/Laws.antt =====
-- Which headers a response carries.
use intelli_attend_smart_boa.Base.{
  ◌≡◌, refl, ◌∙◌, String, Option, none, some, [], ◌∷◌, arith, same, same_iff, if◌then◌else◌,
  Option-cases, inl, inr,
}
use intelli_attend_smart_boa.Dict.{
  Dict, lookup, get_or, lookup-insert, HasUniqueKeys, lookup_absent,
}
use intelli_attend_smart_boa.Middleware.{
  Response, App, set_headers, set_header, security_headers, middlewares,
}

-- The second value, where there is no first.
abbrev pub first_of : {A : Type 0} → Option A → Option A → Option A
first_of none b = b
first_of (some a) b = some a

lookup-set_headers :
    (name : String) (hs : Dict String) (r : Response)
    → HasUniqueKeys hs
    → lookup name (set_headers hs r).headers ≡ first_of (lookup name hs) (lookup name r.headers)
lookup-set_headers name [] r unique = refl
lookup-set_headers name ((k, v) ∷ hs) r (absent, unique) = ground (
  arith,
  lookup-set_headers name hs (set_header k v r) unique,
  lookup-insert k name v r.headers,
  lookup_absent k hs absent,
  same_iff k name,
)

-- The headers that every answer is to carry, as the docstring of the middleware lists them.
abbrev pub promised : Dict String
promised =
    ("x-content-type-options", "nosniff")
    ∷ ("x-frame-options", "DENY")
    ∷ ("referrer-policy", "strict-origin-when-cross-origin")
    ∷ ("content-security-policy", "default-src 'none'")
    ∷ ("permissions-policy", "camera=(), microphone=(), geolocation=()")
    ∷ ("cross-origin-opener-policy", "same-origin")
    ∷ ("cross-origin-resource-policy", "same-origin")
    ∷ []

-- What the middlewares make of an outcome. An exception stays one. The status and the body of an
-- answer are kept; a header has the value that is promised, or is the request's id, or
-- else is what the route set.
abbrev pub IsDressed : Dict String → Option Response → Option Response → Type 0
IsDressed request_headers none none = Unit
IsDressed request_headers none (some r) = ⊥
IsDressed request_headers (some inner) none = ⊥
IsDressed request_headers (some inner) (some r) =
    (r.status_code ≡ inner.status_code)
    × (r.body ≡ inner.body)
    × ((name : String)
        → lookup name r.headers
          ≡ first_of (lookup name promised) (
              if same "x-request-id" name
              then some (get_or "x-request-id" "internal-v1" request_headers)
              else lookup name inner.headers))

security_headers-HasUniqueKeys : HasUniqueKeys security_headers
unfolding same
security_headers-HasUniqueKeys = ground arith

middlewares-none :
    (app : App) (request_headers : Dict String)
    → app request_headers ≡ none
    → middlewares app request_headers ≡ none
unfolding middlewares
middlewares-none app request_headers e = ground arith

middlewares-some :
    (app : App) (request_headers : Dict String) (inner : Response)
    → app request_headers ≡ some inner
    → middlewares app request_headers
      ≡ some (
          set_headers security_headers
            (set_header "x-request-id" (get_or "x-request-id" "internal-v1" request_headers) inner))
unfolding middlewares
middlewares-some app request_headers inner e = ground arith

-- Every answer leaves with the seven security headers, by name and value (nosniff, DENY,
-- strict-origin-when-cross-origin, default-src 'none', no camera, microphone and geolocation, and
-- same-origin as opener and resource policy) and the request's id, whatever the route set under
-- these names, and with everything else that the route set; that holds of refusals too. Where
-- the application raises there is no answer to dress: the exception passes both middlewares.
pub middlewares_lem :
    (app : App) (request_headers : Dict String)
    → IsDressed request_headers (app request_headers) (middlewares app request_headers)
middlewares_lem app request_headers = elim (Option-cases (app request_headers)) [
  | inl e ↦ rw (e, middlewares-none app request_headers e) tt
  | inr (inner, e) ↦
      let id = get_or "x-request-id" "internal-v1" request_headers in
      rw (e, middlewares-some app request_headers inner e)
        (
          refl,
          refl,
          λ name.
              lookup-set_headers name security_headers (set_header "x-request-id" id inner)
                security_headers-HasUniqueKeys
              ∙ λ i.
                  first_of (lookup name security_headers)
                    (lookup-insert "x-request-id" name id inner.headers i),
        )
]
