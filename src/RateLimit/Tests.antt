-- ===== src/RateLimit/Tests.antt =====
-- Two clients of a limiter of two requests per second.
use intelli_attend_smart_boa.Base.{ℕ, ◌≡◌, List, [], ◌∷◌, arith, ◌≤◌, count_where}
use intelli_attend_smart_boa.Models.{seconds}
use intelli_attend_smart_boa.RateLimit.{
  Arrival, Middleware, bucket, recent, empty_limiter, new_middleware,
}
use intelli_attend_smart_boa.RateLimit.Window.{serve, admitted, serve_limits}

abbrev from : ℕ → Arrival
from t = record { key = "10.0.0.1:a"; checked = t; recorded = t }

abbrev from_other : ℕ → Arrival
from_other t = record { key = "10.0.0.1:b"; checked = t; recorded = t }

abbrev burst : List Arrival
burst = from 1 ∷ from 2 ∷ from_other 3 ∷ from 4 ∷ []

serve_limits_example :
    let (l, log) = serve burst (empty_limiter 2 1, []) in
    (admitted "10.0.0.1:a" (seconds 1) 5 log ≤ 2)
    × (count_where (recent (seconds 1) 5) (bucket "10.0.0.1:a" l)
        ≡ admitted "10.0.0.1:a" (seconds 1) 5 log)
serve_limits_example = serve_limits 2 1 burst "10.0.0.1:a" 5 (ground arith) (omega arith)

abbrev middleware : Middleware
middleware = new_middleware 60 60
