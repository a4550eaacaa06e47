-- ===== src/Cache/Laws.antt =====
-- When a cached value can be read back.
use intelli_attend_smart_boa.Base.{
  ℕ, String, ◌≡◌, ◌≢◌, true, false, Option, none, some, arith, same_iff, same_refl, ◌&&◌,
}
use intelli_attend_smart_boa.Dict.{insert, lookup-insert, lookup-erase}
use intelli_attend_smart_boa.Cache.{Redis, Cache, get, set, delete}

module _ {S : Type 0} (redis : Redis S) where
  -- The cache has no client, and gets none.
  abbrev pub IsOffline : Cache S → Type 0
  IsOffline c = (c.client ≡ false) × ((redis.available && redis.ping c.server) ≡ false)

  -- Without Redis the cache is a plain dict: what is set is read back until it is set again or
  -- deleted, other keys are not touched, and the time to live that was asked for has no effect.
  pub offline_dict :
      (key other value : String) (ttl ttl' : ℕ) (c : Cache S)
      → IsOffline c
      → let c' = set redis key value ttl c in
        ((get redis key c').0 ≡ some value)
        × (other ≢ key → (get redis other c').0 ≡ (get redis other c).0)
        × ((get redis key (delete redis key c')).0 ≡ none)
        × (c' ≡ set redis key value ttl' c)
  unfolding get set delete
  offline_dict key other value ttl ttl' c (cold, dead) = (
    ground (arith, lookup-insert key key value c.local, same_refl key),
    λ h. ground (arith, lookup-insert key other value c.local, same_iff key other),
    ground (arith, lookup-erase key key (insert key value c.local), same_refl key),
    ground arith,
  )

  -- With a client, a value that Redis takes is read back if Redis answers with what it was given.
  pub online_read_back :
      (key value : String) (ttl : ℕ) (c : Cache S) (server : S)
      → c.client ≡ true
      → redis.setex key ttl value c.server ≡ some server
      → redis.get key server ≡ some (some value)
      → (get redis key (set redis key value ttl c)).0 ≡ some value
  unfolding get set
  online_read_back key value ttl c server up taken kept = ground arith

  -- A value that is set while Redis refuses the write goes to the fallback only, and is not read
  -- when Redis answers again: the reader sees what Redis held before.
  pub outage_write_hidden :
      (key value : String) (ttl : ℕ) (c : Cache S) (held : Option String)
      → c.client ≡ true
      → redis.setex key ttl value c.server ≡ none
      → redis.get key c.server ≡ some held
      → (get redis key (set redis key value ttl c)).0 ≡ held
  unfolding get set
  outage_write_hidden key value ttl c held up refused answers = ground arith
