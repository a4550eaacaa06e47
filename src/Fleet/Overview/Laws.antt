-- ===== src/Fleet/Overview/Laws.antt =====
-- The counts of the dashboard are right, and add up to the number of boards.
use intelli_attend_smart_boa.Base.{
  ℕ, ◌+◌, String, ◌≡◌, List, [], ◌∷◌, arith, same, same_iff, count_where, length, ◌∙◌,
}
use intelli_attend_smart_boa.Dict.{Dict, insert, get_or, lookup-insert}
use intelli_attend_smart_boa.Models.{BoardVersion}
use intelli_attend_smart_boa.Fleet.Overview.{
  tally, version_key, status_key, initial_statuses, version_counts, status_counts,
}

-- The sum of all counts.
abbrev pub total : Dict ℕ → ℕ
total [] = 0
total ((k, n) ∷ counts) = n + total counts

total-bump :
    (k : String) (counts : Dict ℕ)
    → total (insert k (get_or k 0 counts + 1) counts) ≡ total counts + 1
total-bump k [] = omega arith
total-bump k ((j, n) ∷ counts) = ground (arith, total-bump k counts)

total-tally :
    (key : BoardVersion → String) (versions : List BoardVersion) (counts : Dict ℕ)
    → total (tally key versions counts) ≡ total counts + length versions
unfolding tally
total-tally key [] counts = omega arith
total-tally key (bv ∷ versions) counts = omega (
  arith,
  total-tally key versions (insert (key bv) (get_or (key bv) 0 counts + 1) counts),
  total-bump (key bv) counts,
)

get_or-tally :
    (key : BoardVersion → String) (versions : List BoardVersion) (counts : Dict ℕ) (k : String)
    → get_or k 0 (tally key versions counts)
      ≡ get_or k 0 counts + count_where (λ bv. same (key bv) k) versions
unfolding tally
get_or-tally key [] counts k = omega arith
get_or-tally key (bv ∷ versions) counts k =
    let n = get_or (key bv) 0 counts + 1 in
    ground (
      arith,
      get_or-tally key versions (insert (key bv) n counts) k,
      lookup-insert (key bv) k n counts,
      same_iff (key bv) k,
    )

initial_zero : (k : String) → get_or k 0 initial_statuses ≡ 0
initial_zero k = ground arith

-- Each version and each status is counted as often as boards have it, and both distributions add
-- up to the number of boards.
pub distributions_add_up :
    (versions : List BoardVersion)
    → (total (version_counts versions) ≡ length versions)
      × (total (status_counts versions) ≡ length versions)
      × ((v : String)
          → get_or v 0 (version_counts versions)
            ≡ count_where (λ bv. same (version_key bv) v) versions)
      × ((s : String)
          → get_or s 0 (status_counts versions)
            ≡ count_where (λ bv. same (status_key bv) s) versions)
unfolding version_counts status_counts
distributions_add_up versions = (
  total-tally version_key versions [] ∙ omega arith,
  total-tally status_key versions initial_statuses ∙ omega arith,
  (λ v. get_or-tally version_key versions [] v ∙ omega arith),
  (λ s. get_or-tally status_key versions initial_statuses s ∙ omega (arith, initial_zero s)),
)
