-- ===== src/Tasks/Counts.antt =====
-- Sums over the tasks: the edges into a task, those that are still to be counted down, and the tasks
-- that have not committed.
use xitao.Prelude.{
  ℕ, zero, suc, ◌+◌, ◌≤◌, ◌<◌, ◌≡◌, sym, Bool, List, if◌then◌else◌, arith, count, ◌≢◌,
}
use xitao.Prelude.Family.{update, update_same, update_other, sum, sum-ext, sum-moved}
use xitao.Layout.{max_threads}
use xitao.Tasks.{Runtime}

abbrev pub edges_to : ℕ → (ℕ → List ℕ) → ℕ → ℕ
edges_to t out a = count t (out a)

abbrev pub open_edges_to : ℕ → (ℕ → List ℕ) → (ℕ → Bool) → ℕ → ℕ
open_edges_to t out committed a = if committed a then 0 else count t (out a)

-- The edges into task `t`, and those from tasks that have not committed.
abbrev pub indegree : Runtime → ℕ → ℕ
indegree s t = sum s.size (edges_to t s.out)

abbrev pub remaining : Runtime → ℕ → ℕ
remaining s t = sum s.size (open_edges_to t s.out s.committed)

abbrev pub is_live : (ℕ → Bool) → ℕ → ℕ
is_live committed a = if committed a then 0 else 1

-- The tasks that have not committed.
abbrev pub uncommitted : Runtime → ℕ
uncommitted s = sum s.size (is_live s.committed)

-- What the accounting counts as pending.
abbrev pub accounted : Runtime → ℕ
accounted s = uncommitted s + sum max_threads s.task_pool + sum max_threads s.task_completions

sum-le :
    (bound : ℕ) (small big : ℕ → ℕ) → ((k : ℕ) → small k ≤ big k) → sum bound small ≤ sum bound big
unfolding sum
sum-le zero small big below = omega arith
sum-le (suc bound) small big below = omega (arith, below bound, sum-le bound small big below)

pub remaining_le : (s : Runtime) (t : ℕ) → remaining s t ≤ indegree s t
remaining_le s t =
    sum-le s.size (open_edges_to t s.out s.committed) (edges_to t s.out) (λ a. ground arith)

-- One more task, which has no edge yet.
pub sum-fresh :
    (n : ℕ) (before after : ℕ → ℕ)
    → ((k : ℕ) → k < n → before k ≡ after k)
    → sum (suc n) after ≡ after n + sum n before
unfolding sum
sum-fresh n before after agree = omega (arith, sum-ext n before after agree)

-- An entry of an array grows by `d`, or shrinks.
pub sum-grown :
    (bound at d : ℕ) (before after : ℕ → ℕ)
    → at < bound
    → ((k : ℕ) → at ≢ k → before k ≡ after k)
    → after at ≡ before at + d
    → sum bound after ≡ sum bound before + d
sum-grown bound at d before after row same grown =
    omega (arith, sum-moved bound at before after row same, grown)

-- One entry of a table of threads is replaced.
pub sum-replaced :
    (bound at x : ℕ) (rows : ℕ → ℕ)
    → at < bound
    → sum bound rows + x ≡ sum bound (update rows at x) + rows at
sum-replaced bound at x rows row =
    let moved =
      sum-moved bound at rows (update rows at x) row (λ k ne. sym (update_other rows at k x ne)) in
    omega (arith, moved, update_same rows at x)
