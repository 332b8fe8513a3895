-- ===== src/Tasks/Counted.antt =====
-- The invariant of the counts of src/poly_task.cpp: the reference counts, the log of the woken
-- tasks and the number of pending tasks.
use xitao.Prelude.{ℕ, ◌+◌, ◌≤◌, ◌≡◌, refl, false, ◌&&◌, ltb, ◌==◌, if◌then◌else◌, count}
use xitao.Prelude.Int.{pos, ◌+ℤ◌, ◌-ℤ◌, int_laws}
use xitao.Tasks.{Runtime}
use xitao.Tasks.Counts.{indegree, remaining, accounted}

abbrev pub woken_count : ℕ → ℕ → ℕ
woken_count left all = if (left == 0) && ltb 0 all then 1 else 0

pub woken_count-ext : {l l' n n' : ℕ} → l ≡ l' → n ≡ n' → woken_count l n ≡ woken_count l' n'
woken_count-ext e e' = rw (e, e') refl

-- The counts of the code are those of the graph.
pub record IsCounted (s : Runtime) : Type 0 where
  pub counts : (t : ℕ) → s.refcount t ≡ pos (remaining s t)
  pub logged : (t : ℕ) → count t s.woken ≡ woken_count (remaining s t) (indegree s t)
  pub no_edge : (t : ℕ) → s.size ≤ t → indegree s t ≡ 0
  pub not_run : (t : ℕ) → s.size ≤ t → s.committed t ≡ false
  pub pending : s.pending_tasks ≡ pos (accounted s)

pub pos_sub : (x y z : ℕ) → x ≡ z + y → pos x -ℤ pos y ≡ pos z
pos_sub x y z e = omega (int_laws, e)

pub pos_add : (x y z : ℕ) → x + y ≡ z → pos x +ℤ pos y ≡ pos z
pos_add x y z e = omega (int_laws, e)
