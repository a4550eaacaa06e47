-- ===== src/Cache/Tests.antt =====
-- The cache without Redis, and with a Redis that loses its writes.
use intelli_attend_smart_boa.Base.{◌≡◌, refl, true, false, none, some, [], ◌∷◌, String, List}
use intelli_attend_smart_boa.Dict.{lookup}
use intelli_attend_smart_boa.Cache.Memory.{
  Call, gets, sets, deletes, observed, expected, offline_refines,
}
use intelli_attend_smart_boa.Cache.{Redis, Cache}

-- A server that answers reads with its one value and refuses writes.
abbrev read_only : Redis String
read_only = record {
  available = true;
  ping = λ s. true;
  get = λ key s. some (some s);
  setex = λ key ttl value s. none;
  delete = λ key s. none;
}

abbrev no_library : Redis String
no_library = record read_only { available = false }

abbrev cold : Cache String
cold = record { client = false; local = ("b", "2") ∷ []; server = "old" }

abbrev warm : Cache String
warm = record cold { client = true }

abbrev other_key : String
other_key = "b"

-- A write, a read, a deletion, and two reads.
abbrev calls : List Call
calls = sets "a" "1" 300 ∷ gets "a" ∷ deletes "b" ∷ gets "b" ∷ gets "a" ∷ []

offline_refines_example :
    observed no_library calls cold ≡ expected calls (λ key. lookup key cold.local)
offline_refines_example = offline_refines no_library calls cold (refl, refl)
