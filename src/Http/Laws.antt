-- ===== src/Http/Laws.antt =====
-- The session dependency makes every handler atomic.
use intelli_attend_smart_boa.Base.{◌≡◌, arith}
use intelli_attend_smart_boa.Http.{Error, err, Action, get_db}

-- A request whose handler raises leaves the database as it was.
pub get_db_rolls_back :
    {S A : Type 0} (handler : Action S A) (s : S) (e : Error)
    → (get_db handler s).0 ≡ err e
    → get_db handler s ≡ (err e, s)
unfolding get_db
get_db_rolls_back handler s e h = ground arith
