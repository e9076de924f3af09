-- ===== src/Graph/State/Counts.antt =====
-- What `_merge_counts` of graph/state.py does to one key.
use kyc_agent_nordvik.Prelude.{
  ℕ, ◌+◌, ◌≡◌, String, [], ◌∷◌, put, get-put, arith, ◌==◌, if◌then◌else◌, eq_iff,
}
use kyc_agent_nordvik.Graph.State.{Counts, count_of, merge_counts}

-- All that a list of counters holds under a key.
abbrev pub total : String → Counts → ℕ
total key [] = 0
total key ((k, n) ∷ counts) = (if k == key then n else 0) + total key counts

-- After a merge the count of a key is its old count and the sum of all that the update holds for it.
pub count_of-merge_counts :
    (key : String) (left right : Counts)
    → count_of key (merge_counts left right) ≡ count_of key left + total key right
unfolding merge_counts
count_of-merge_counts key left [] = omega arith
count_of-merge_counts key left ((k, n) ∷ right) = ground (
  arith,
  count_of-merge_counts key (put k (count_of k left + n) left) right,
  get-put k key (count_of k left + n) left,
  eq_iff k key,
)
