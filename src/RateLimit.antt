-- ===== src/RateLimit.antt =====
-- The rate limiter of backend/python/middleware/rate_limit_middleware.py. Times and windows are in
-- microseconds. `time.time` is read once by `check` and once by `record`.
pub mod Window
pub mod Tiers
mod Tests
use intelli_attend_smart_boa.Base.{
  ℕ, ◌+◌, ◌-◌, ◌<◌, String, Bool, true, false, Option, none, some, List, [], ◌∷◌, ◌++◌, ltb, same,
  if◌then◌else◌, length, keep, starts_with, ◌^^◌,
}
use intelli_attend_smart_boa.Dict.{Dict, get_or, insert, erase}
use intelli_attend_smart_boa.Models.{seconds}

-- `SlidingWindowRateLimiter`
pub record Limiter : Type 0 where
  pub max_requests : ℕ
  pub window : ℕ
  pub buckets : Dict (List ℕ)

-- `_buckets.get(key, [])`
abbrev pub bucket : String → Limiter → List ℕ
bucket key l = get_or key [] l.buckets

-- `_key`, for the client's address and its `X-Device-ID` header
unfoldable pub key_of : Option String → String → String
key_of none device = "unknown:" ^^ device
key_of (some ip) device = ip ^^ ":" ^^ device

-- `t > now - window`, without a negative number
abbrev pub recent : ℕ → ℕ → ℕ → Bool
recent window now t = ltb now (t + window)

abbrev pub is_empty : List ℕ → Bool
is_empty [] = true
is_empty (t ∷ ts) = false

-- `_trim`
unfoldable pub trim : String → ℕ → Limiter → Limiter
trim key now l =
    let kept = keep (recent l.window now) (bucket key l) in
    record l { buckets = if is_empty kept then erase key l.buckets else insert key kept l.buckets }

-- `check`: the limiter after it, whether the request is allowed, and the rest of its budget
unfoldable pub check : String → ℕ → Limiter → Limiter × Bool × ℕ
unfolding trim
check key now l =
    let l' = trim key now l in
    let count = length (bucket key l') in (l', ltb count l.max_requests, l.max_requests - count)

-- `record`
unfoldable pub record_request : String → ℕ → Limiter → Limiter
record_request key now l = record l { buckets = insert key (bucket key l ++ now ∷ []) l.buckets }

-- One arrival at a limiter: its key, and the times at which it is checked and recorded.
pub record Arrival : Type 0 where
  pub key : String
  pub checked : ℕ
  pub recorded : ℕ

-- `check`, and `record` if the request is allowed, as `dispatch` calls them.
unfoldable pub arrive : Arrival → Limiter → Limiter × Bool × ℕ
arrive a l =
    let (l', allowed, remaining) = check a.key a.checked l in
    (if allowed then record_request a.key a.recorded l' else l', allowed, remaining)

pub data Tier : Type 0 where
  health auth ticket general : Tier

-- The limiters of `RateLimitMiddleware`
pub record Middleware : Type 0 where
  pub health_limiter : Limiter
  pub auth_limiter : Limiter
  pub ticket_limiter : Limiter
  pub general_limiter : Limiter

abbrev pub limit_of : Tier → ℕ
limit_of Tier.health = 120
limit_of Tier.auth = 5
limit_of Tier.ticket = 10
limit_of Tier.general = 60

abbrev pub empty_limiter : ℕ → ℕ → Limiter
empty_limiter max_requests window_seconds = record {
  max_requests = max_requests;
  window = seconds window_seconds;
  buckets = [];
}

-- `__init__`
unfoldable pub new_middleware : ℕ → ℕ → Middleware
new_middleware max_requests window_seconds = record {
  health_limiter = empty_limiter (limit_of Tier.health) 60;
  auth_limiter = empty_limiter (limit_of Tier.auth) 60;
  ticket_limiter = empty_limiter (limit_of Tier.ticket) 60;
  general_limiter = empty_limiter max_requests window_seconds;
}

-- `_select_limiter`
unfoldable pub select_tier : String → Tier
select_tier path =
    if same path "/health"
    then Tier.health
    else if starts_with path "/api/v1/device/register"
    then Tier.auth
    else if starts_with path "/api/v1/websocket/ticket"
    then Tier.ticket
    else Tier.general

abbrev pub limiter : Tier → Middleware → Limiter
limiter Tier.health m = m.health_limiter
limiter Tier.auth m = m.auth_limiter
limiter Tier.ticket m = m.ticket_limiter
limiter Tier.general m = m.general_limiter

abbrev pub set_limiter : Tier → Limiter → Middleware → Middleware
set_limiter Tier.health l m = record m { health_limiter = l }
set_limiter Tier.auth l m = record m { auth_limiter = l }
set_limiter Tier.ticket l m = record m { ticket_limiter = l }
set_limiter Tier.general l m = record m { general_limiter = l }

-- What `dispatch` does with a request: it passes it on as it is, passes it on and sets the headers
-- `X-RateLimit-Limit` and `X-RateLimit-Remaining`, or raises 429.
pub data Verdict : Type 0 where
  exempt : Verdict
  passed : (limit remaining : ℕ) → Verdict
  refused : Verdict

-- `dispatch`
unfoldable pub dispatch : String → Arrival → Middleware → Middleware × Verdict
dispatch path a m =
    let tier = select_tier path in
    let (l, allowed, remaining) = arrive a (limiter tier m) in
    if starts_with path "/api/v1/admin" then (m, exempt) else (
      set_limiter tier l m,
      if allowed
          then passed (limit_of tier) (if ltb 0 remaining then remaining - 1 else 0)
          else refused,
    )
