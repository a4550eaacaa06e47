-- ===== src/Cache.antt =====
-- `CacheService` of backend/python/services/cache_service.py: Redis with an in-memory fallback.
-- What Redis does is an argument: each call succeeds with a value or raises (`none`).
pub mod Laws
pub mod Memory
mod Tests
use intelli_attend_smart_boa.Base.{
  ℕ, String, Bool, true, false, Option, none, some, truthy, if◌then◌else◌, ◌&&◌,
}
use intelli_attend_smart_boa.Dict.{Dict, lookup, insert, erase}
use intelli_attend_smart_boa.Json.{Json}
use intelli_attend_smart_boa.Env.{Env}

-- The client library and its server, whose state is an `S`. `available` says that the library is
-- installed and an URL is configured; `ping` whether a new client reaches the server.
pub record Redis (S : Type 0) : Type 0 where
  pub available : Bool
  pub ping : S → Bool
  pub get : String → S → Option (Option String)
  pub setex : String → ℕ → String → S → Option S
  pub delete : String → S → Option S

-- The class variables `_client` (whether there is one) and `_local_fallback`, and the server.
pub record Cache (S : Type 0) : Type 0 where
  pub client : Bool
  pub local : Dict String
  pub server : S

module _ {S : Type 0} (redis : Redis S) where
  -- `get_client`
  unfoldable pub get_client : Cache S → Cache S
  get_client c =
      if c.client then c else record c { client = redis.available && redis.ping c.server }

  -- `get`
  unfoldable pub get : String → Cache S → Option String × Cache S
  unfolding get_client
  get key c =
      let c' = get_client c in
      (
        if c'.client
            then elim (redis.get key c'.server) [ none ↦ lookup key c'.local | some found ↦ found ]
            else lookup key c'.local,
        c',
      )

  -- `set`
  unfoldable pub set : String → String → ℕ → Cache S → Cache S
  unfolding get_client
  set key value ttl c =
      let c' = get_client c in
      let stored = record c' { local = insert key value c'.local } in
      if c'.client
      then elim (redis.setex key ttl value c'.server) [
        | none ↦ stored
        | some server ↦ record c' { server = server }
      ]
      else stored

  -- `delete`
  unfoldable pub delete : String → Cache S → Cache S
  unfolding get_client
  delete key c =
      let c' = get_client c in
      let dropped = record c' { local = erase key c'.local } in
      if c'.client
      then elim (redis.delete key c'.server) [
        | none ↦ dropped
        | some server ↦ record c' { server = server }
      ]
      else dropped

  -- `set_json`
  unfoldable pub set_json : Env → String → Json → ℕ → Cache S → Cache S
  unfolding set
  set_json env key value ttl c = set key (env.dumps value) ttl c

  -- `get_json`
  unfoldable pub get_json : Env → String → Cache S → Option Json × Cache S
  unfolding get
  get_json env key c =
      let (raw, c') = get key c in
      (elim raw [ none ↦ none | some s ↦ if truthy s then env.loads s else none ], c')
