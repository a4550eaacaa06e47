-- ===== src/RateLimit/Tiers.antt =====
-- Which limiter a request meets, and what the others see of it.
use intelli_attend_smart_boa.Base.{
  ◌+◌, ◌≤◌, ◌<◌, String, ◌≡◌, ◌≢◌, ◌↔◌, ◌⊎◌, true, false, List, [], ◌∷◌, arith, same_iff, length,
  starts_with,
}
use intelli_attend_smart_boa.RateLimit.{
  Limiter, bucket, Arrival, arrive, Tier, Middleware, limiter, set_limiter, select_tier, refused,
  dispatch,
}
use intelli_attend_smart_boa.RateLimit.Window.{
  kept_of, arrive-allowed, arrive-bucket, arrive_fixed, Log, serve,
}

limiter-set_ne :
    (t u : Tier) (l : Limiter) (m : Middleware)
    → t ≢ u
    → limiter t (set_limiter u l m) ≡ limiter t m
limiter-set_ne Tier.health u l m h = ground arith
limiter-set_ne Tier.auth u l m h = ground arith
limiter-set_ne Tier.ticket u l m h = ground arith
limiter-set_ne Tier.general u l m h = ground arith

module _ (path : String) (a : Arrival) (m : Middleware) where
  -- Outside the admin routes a request is refused exactly when its key has used up the budget of
  -- the limiter that the path selects; admin routes are never refused and touch no limiter.
  pub dispatch-eq-refused_iff :
      let l = limiter (select_tier path) m in
      ((dispatch path a m).1 ≡ refused)
      ↔ ((starts_with path "/api/v1/admin" ≡ false) × (l.max_requests ≤ length (kept_of a l)))
  unfolding dispatch
  dispatch-eq-refused_iff =
      let l = limiter (select_tier path) m in ground (arith, arrive-allowed a l)

  -- A request is seen by one limiter only: every other limiter is as it was, and so are all
  -- limiters for an admin route.
  pub dispatch_isolated :
      (t : Tier)
      → (starts_with path "/api/v1/admin" ≡ true) ⊎ (t ≢ select_tier path)
      → limiter t (dispatch path a m).0 ≡ limiter t m
  unfolding dispatch
  dispatch_isolated t h =
      let u = select_tier path in ground (arith, limiter-set_ne t u (arrive a (limiter u m)).0 m)

abbrev pub Differs : String → List Arrival → Type 0
Differs k [] = Unit
Differs k (a ∷ rest) = (k ≢ a.key) × Differs k rest

-- Arrivals whose keys are new to the limiter and to one another.
abbrev pub Rotates : Limiter → List Arrival → Type 0
Rotates l [] = Unit
Rotates l (a ∷ rest) = (bucket a.key l ≡ []) × Differs a.key rest × Rotates l rest

Rotates-arrive :
    (a : Arrival) (l : Limiter) (rest : List Arrival)
    → Differs a.key rest
    → Rotates l rest
    → Rotates (arrive a l).0 rest
Rotates-arrive a l [] d r = tt
Rotates-arrive a l (b ∷ rest) (n, d) (e, f, r) =
    (ground (arith, arrive-bucket a l b.key, same_iff a.key b.key), f, Rotates-arrive a l rest d r)

-- The key holds the `X-Device-ID` header, which the client chooses: requests that each carry a new
-- one are all let through, however many they are, where the budget is not zero.
pub serve_rotating :
    (arrivals : List Arrival) (l : Limiter) (log : Log)
    → 0 < l.max_requests
    → Rotates l arrivals
    → length (serve arrivals (l, log)).1 ≡ length log + length arrivals
unfolding serve
serve_rotating [] l log h r = omega arith
serve_rotating (a ∷ rest) l log h (e, d, r) =
    let l' = (arrive a l).0 in
    let allowed : (arrive a l).1 ≡ true = ground (arith, arrive-allowed a l) in
    let ih =
      serve_rotating rest l' ((a.key, a.recorded) ∷ log) (ground (arith, arrive_fixed a l))
        (Rotates-arrive a l rest d r) in
    ground (arith, allowed, ih)
