-- ===== src/Tasks/Runs.antt =====
-- Runs of the task graph (src/poly_task.cpp, include/queue_manager.h): their steps, and what holds
-- of every run.
use xitao.Prelude.{ℕ, ◌<◌, ◌≡◌, refl, false, List, [], ◌∷◌, some, count}
use xitao.Prelude.Int.{ℤ}
use xitao.Prelude.Result.{ok}
use xitao.Layout.{max_threads}
use xitao.Tasks.{
  Runtime, Settings, new_task, make_edge, commit_and_wakeup, flush_completions, flush_pool,
  at_start, insert_in_ready_queue, insert_task_in_assembly_queues, try_pop_ready_task,
  try_pop_assembly_task,
}
use xitao.Tasks.Counts.{indegree}
use xitao.Tasks.Counted.{IsCounted}
use xitao.Tasks.Rounds.{IsQuiet, rearranged}
use xitao.Tasks.Tracked.{IsTracked}

-- One operation of a run, after the tasks `pushed` from outside and those `taken` from queues. An
-- edge goes out of a task that has not committed, into one that has been neither woken nor pushed;
-- a task commits once; a task that a thread has taken may be distributed. The program and the
-- scheduler set the affinity, the criticality and the place of the tasks at any time.
pub data Step (c : Settings) (pushed taken : List ℕ) : Runtime → Runtime → Type 0 where
  constructs :
      (nthread : ℕ) (width : ℤ) (s : Runtime)
      → nthread < max_threads
      → Step c pushed taken s (new_task nthread width s)
  connects :
      (a t : ℕ) (s : Runtime)
      → a < s.size
      → t < s.size
      → s.committed a ≡ false
      → count t s.woken ≡ 0
      → count t pushed ≡ 0
      → Step c pushed taken s (make_edge a t s)
  arranges :
      (affinity criticality leader width : ℕ → ℤ) (s : Runtime)
      → Step c pushed taken s
          (rearranged affinity criticality leader width s.ready_q s.assembly_q s)
  commits :
      (nthread a : ℕ) (s s' : Runtime)
      → nthread < max_threads
      → a < s.size
      → s.committed a ≡ false
      → commit_and_wakeup c nthread a s ≡ ok s'
      → Step c pushed taken s s'
  distributes :
      (t : ℕ) (s s' : Runtime)
      → 0 < count t taken
      → insert_task_in_assembly_queues c.nthreads t s ≡ ok s'
      → Step c pushed taken s s'
  takes_completions :
      (nthread : ℕ) (s : Runtime)
      → nthread < max_threads
      → Step c pushed taken s (flush_completions nthread s)
  takes_pool :
      (nthread : ℕ) (s : Runtime)
      → nthread < max_threads
      → Step c pushed taken s (flush_pool nthread s)

-- The states of the runs from the start, with the tasks that were pushed and taken so far. Only
-- tasks without predecessors are pushed.
pub data Reachable (c : Settings) : List ℕ → List ℕ → Runtime → Type 0 where
  starts : Reachable c [] [] at_start
  steps :
      (pushed taken : List ℕ) (s s' : Runtime)
      → Reachable c pushed taken s
      → Step c pushed taken s s'
      → Reachable c pushed taken s'
  pushes :
      (pushed taken : List ℕ) (t queue : ℕ) (s : Runtime)
      → Reachable c pushed taken s
      → indegree s t ≡ 0
      → Reachable c (t ∷ pushed) taken (insert_in_ready_queue t queue s)
  takes_ready :
      (pushed taken : List ℕ) (nthread requesting_thread t : ℕ) (s s' : Runtime)
      → Reachable c pushed taken s
      → try_pop_ready_task c nthread requesting_thread s ≡ (some t, s')
      → Reachable c pushed (t ∷ taken) s'
  takes_assembly :
      (pushed taken : List ℕ) (nthread t : ℕ) (s s' : Runtime)
      → Reachable c pushed taken s
      → try_pop_assembly_task nthread s ≡ (some t, s')
      → Reachable c pushed (t ∷ taken) s'

pub quiet-indegree : (t : ℕ) (s s' : Runtime) → IsQuiet s s' → indegree s' t ≡ indegree s t
quiet-indegree t s s' q = let same = q.rest in rw (same.sizes, same.outs) refl

pub quiet-IsCounted : (s s' : Runtime) → IsQuiet s s' → IsCounted s → IsCounted s'
quiet-IsCounted s s' q h =
    let same = q.rest in
    let log = q.log in
    let refs = q.refcounts in
    record {
      counts = λ t. rw (refs, same.sizes, same.outs, same.commits) (h.counts t);
      logged = λ t. rw (log, same.sizes, same.outs, same.commits) (h.logged t);
      no_edge = λ t above. rw (same.sizes, same.outs) (h.no_edge t (rw same.sizes at above));
      not_run = λ t above. rw same.commits (h.not_run t (rw same.sizes at above));
      pending =
          rw (same.pendings, same.sizes, same.commits, same.pools, same.completions) h.pending;
    }

-- What holds of every run: the counts, the queues, and the pushed tasks have no predecessor.
pub record IsRun (c : Settings) (pushed taken : List ℕ) (s : Runtime) : Type 0 where
  pub counted : IsCounted s
  pub tracked : IsTracked c pushed taken s
  pub roots : (t : ℕ) → 0 < count t pushed → indegree s t ≡ 0
