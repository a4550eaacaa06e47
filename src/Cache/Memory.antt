-- ===== src/Cache/Memory.antt =====
-- The cache without Redis against what it stands for: a memory from keys to texts.
use intelli_attend_smart_boa.Base.{
  ℕ, String, ◌≡◌, refl, Option, none, some, List, [], ◌∷◌, same, arith, if◌then◌else◌,
}
use intelli_attend_smart_boa.Dict.{lookup, lookup-insert, lookup-erase}
use intelli_attend_smart_boa.Cache.{Redis, Cache, get_client, get, set, delete}
use intelli_attend_smart_boa.Cache.Laws.{IsOffline}

-- A call of the service.
pub data Call : Type 0 where
  gets : (key : String) → Call
  sets : (key value : String) → (ttl : ℕ) → Call
  deletes : (key : String) → Call

abbrev pub Memory : Type 0
Memory = String → Option String

-- The answers that a memory gives to the reads among some calls. It never forgets: the time to live
-- plays no part.
abbrev pub expected : List Call → Memory → List (Option String)
expected [] m = []
expected (gets key ∷ calls) m = m key ∷ expected calls m
expected (sets key value ttl ∷ calls) m =
    expected calls (λ k. if same key k then some value else m k)
expected (deletes key ∷ calls) m = expected calls (λ k. if same key k then none else m k)

module _ {S : Type 0} (redis : Redis S) where
  -- The answers of the cache.
  pub observed : List Call → Cache S → List (Option String)
  observed [] c = []
  observed (gets key ∷ calls) c = let (answer, c') = get redis key c in answer ∷ observed calls c'
  observed (sets key value ttl ∷ calls) c = observed calls (set redis key value ttl c)
  observed (deletes key ∷ calls) c = observed calls (delete redis key c)

  -- The cache has no client and gets none, and its fallback holds what the memory holds.
  abbrev Represents : Cache S → Memory → Type 0
  Represents c m = IsOffline redis c × ((key : String) → lookup key c.local ≡ m key)

  get-Represents :
      (key : String) (c : Cache S) (m : Memory)
      → Represents c m
      → let (answer, c') = get redis key c in (answer ≡ m key) × Represents c' m
  unfolding get get_client
  get-Represents key c m ((cold, dead), held) = ground (arith, held key)

  set-Represents :
      (key value : String) (ttl : ℕ) (c : Cache S) (m : Memory)
      → Represents c m
      → Represents (set redis key value ttl c) (λ k. if same key k then some value else m k)
  unfolding set get_client
  set-Represents key value ttl c m ((cold, dead), held) =
      (ground arith, λ k. ground (arith, held k, lookup-insert key k value c.local))

  delete-Represents :
      (key : String) (c : Cache S) (m : Memory)
      → Represents c m
      → Represents (delete redis key c) (λ k. if same key k then none else m k)
  unfolding delete get_client
  delete-Represents key c m ((cold, dead), held) =
      (ground arith, λ k. ground (arith, held k, lookup-erase key k c.local))

  observed-eq :
      (calls : List Call) (c : Cache S) (m : Memory)
      → Represents c m
      → observed calls c ≡ expected calls m
  unfolding observed
  observed-eq [] c m r = refl
  observed-eq (gets key ∷ calls) c m r =
      let (answered, r') = get-Represents key c m r in
      λ i. answered i ∷ observed-eq calls (get redis key c).1 m r' i
  observed-eq (sets key value ttl ∷ calls) c m r =
      observed-eq calls (set redis key value ttl c) _ (set-Represents key value ttl c m r)
  observed-eq (deletes key ∷ calls) c m r =
      observed-eq calls (delete redis key c) _ (delete-Represents key c m r)

  -- Without Redis the cache is a memory: whatever calls of get, set and delete are made, in any order
  -- and number, every get answers what was set last under its key and not deleted since, or what the
  -- fallback held at first, and nothing else. The times to live have no effect.
  pub offline_refines :
      (calls : List Call) (c : Cache S)
      → IsOffline redis c
      → observed calls c ≡ expected calls (λ key. lookup key c.local)
  offline_refines calls c offline =
      observed-eq calls c (λ key. lookup key c.local) (offline, λ key. refl)
