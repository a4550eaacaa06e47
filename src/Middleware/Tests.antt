-- ===== src/Middleware/Tests.antt =====
-- A route that sets a header of its own, and one that it may not.
use intelli_attend_smart_boa.Base.{some, [], ◌∷◌}
use intelli_attend_smart_boa.Json.{null}
use intelli_attend_smart_boa.Middleware.{Response, App, middlewares}
use intelli_attend_smart_boa.Middleware.Laws.{IsDressed, middlewares_lem}

abbrev answer : Response
answer = record {
  status_code = 200;
  headers = ("cache-control", "public, max-age=120") ∷ ("x-frame-options", "ALLOW") ∷ [];
  body = null;
}

abbrev route : App
route request_headers = some answer

middlewares_lem_example : IsDressed [] (some answer) (middlewares route [])
middlewares_lem_example = middlewares_lem route []
