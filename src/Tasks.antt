-- ===== src/Tasks.antt =====
-- src/poly_task.cpp and include/queue_manager.h, with the accounting of src/tao_sched.cpp: the graph
-- of tasks, the queues of the threads, and the number of pending tasks.
-- Tasks are numbered in the order of their construction; each field of PolyTask is an array by task.
-- A step of the code under a lock, or on data that one thread alone touches, is one operation.
pub mod Counts
pub mod Rounds
pub mod Effects
pub mod Counted
pub mod Build
pub mod Commit
pub mod Flush
pub mod Offers
pub mod Tracked
pub mod Takes
pub mod Runs
pub mod Upheld
pub mod Safety
pub mod Queues
pub mod Pops
use xitao.Prelude.{
  Option, none, some, ℕ, zero, suc, ◌+◌, ◌-◌, ◌<◌, ◌≡◌, Bool, true, false, ◌&&◌, List, [], ◌∷◌,
  ◌++◌, ltb, leb, ◌==◌, if◌then◌else◌,
}
use xitao.Prelude.Int.{ℤ, pos, negsuc, pos_part, minus_one, ltb_ℤ, leb_ℤ, eqb_ℤ, ◌+ℤ◌, ◌-ℤ◌}
use xitao.Prelude.Family.{update}
use xitao.Prelude.Member.{push}
use xitao.Prelude.Result.{Result, ok, exit, ◌>>=◌}

-- `TASK_POOL` of include/config.h
abbrev pub task_pool_size : ℕ
task_pool_size = 100

pub record Runtime : Type 0 where
  pub size : ℕ  -- the tasks constructed so far are 0 to size - 1
  pub affinity_queue : ℕ → ℤ
  pub criticality : ℕ → ℤ
  pub refcount : ℕ → ℤ
  pub out : ℕ → List ℕ
  pub leader : ℕ → ℤ
  pub width : ℕ → ℤ
  pub ready_q : ℕ → List ℕ
  pub assembly_q : ℕ → List ℕ
  pub pending_tasks : ℤ
  pub task_pool : ℕ → ℕ
  pub task_completions : ℕ → ℕ
  pub committed : ℕ → Bool  -- the tasks that have run `commit_and_wakeup`
  pub woken : List ℕ  -- the tasks that `commit_and_wakeup` found ready, in that order

-- `PolyTask::PolyTask` for the thread `_nthread`, with the fields that the scheduler reads.
unfoldable pub new_task : ℕ → ℤ → Runtime → Runtime
new_task nthread width s =
    let t = s.size in
    let empty = s.task_pool nthread == 0 in
    record s {
      size = suc t;
      affinity_queue = update s.affinity_queue t minus_one;
      criticality = update s.criticality t (pos 0);
      refcount = update s.refcount t (pos 0);
      out = update s.out t [];
      leader = update s.leader t minus_one;
      width = update s.width t width;
      pending_tasks = if empty then s.pending_tasks +ℤ pos task_pool_size else s.pending_tasks;
      task_pool =
          update s.task_pool nthread
            (if empty then task_pool_size - 1 else s.task_pool nthread - 1);
    }

-- `a->make_edge(t)`, without the table of times that it may insert.
unfoldable pub make_edge : ℕ → ℕ → Runtime → Runtime
make_edge a t s = record s {
  out = push s.out a t;
  refcount = update s.refcount t (s.refcount t +ℤ pos 1);
}

-- `insert_in_ready_queue`
unfoldable pub insert_in_ready_queue : ℕ → ℕ → Runtime → Runtime
insert_in_ready_queue task nthread s = record s { ready_q = push s.ready_q nthread task }

-- The failed `assert` of `insert_task_in_assembly_queues`.
pub data QueueExit : Type 0 where
  no_such_queue : QueueExit

-- The loop of `insert_task_in_assembly_queues`, at queue `i` with `n` rounds left.
unfoldable pub distribute : ℤ → ℕ → ℕ → ℤ → Runtime → Result QueueExit Runtime
distribute nthreads task zero i s = ok s
distribute nthreads task (suc n) i s =
    let rest =
      distribute nthreads task n (i +ℤ pos 1)
        (record s { assembly_q = push s.assembly_q (pos_part i) task }) in
    if ltb_ℤ i nthreads && leb_ℤ (pos 0) i then rest else exit no_such_queue

unfoldable pub insert_task_in_assembly_queues : ℤ → ℕ → Runtime → Result QueueExit Runtime
insert_task_in_assembly_queues nthreads task s =
    distribute nthreads task (pos_part (s.width task)) (s.leader task) s

-- `config`, and what the performance model finds for the place of a task.
pub record Settings : Type 0 where
  pub nthreads : ℤ
  pub use_performance_modeling : Bool
  pub global_search_ptt : ℕ → ℤ × ℤ
  pub history_mold_locally : ℕ → ℕ → Option (ℤ × ℤ)  -- by thread and task, if the place changes

module _ (c : Settings) where
  -- What `commit_and_wakeup` does with a task that became ready.
  unfoldable pub wake : ℕ → ℕ → Runtime → Result QueueExit Runtime
  wake nthread it s =
      let s' = record s { woken = s.woken ++ it ∷ [] } in
      if eqb_ℤ (s.criticality it) (pos 1) && c.use_performance_modeling
      then insert_task_in_assembly_queues c.nthreads it (record s' {
        leader = update s.leader it (c.global_search_ptt it).0;
        width = update s.width it (c.global_search_ptt it).1;
      })
      else ok (
          insert_in_ready_queue it
            (if eqb_ℤ (s.affinity_queue it) minus_one
              then nthread
              else pos_part (s.affinity_queue it))
            s')

  -- The loop of `commit_and_wakeup` over `out`.
  unfoldable pub wake_all : ℕ → List ℕ → Runtime → Result QueueExit Runtime
  wake_all nthread [] s = ok s
  wake_all nthread (it ∷ its) s =
      let refs = s.refcount it in
      let s' = record s { refcount = update s.refcount it (refs -ℤ pos 1) } in
      (if eqb_ℤ refs (pos 1) then wake nthread it s' else ok s') >>= wake_all nthread its

  unfoldable pub commit_and_wakeup : ℕ → ℕ → Runtime → Result QueueExit Runtime
  commit_and_wakeup nthread a s = wake_all nthread (s.out a) s >>= λ s'. ok (record s' {
    task_completions = update s'.task_completions nthread (suc (s'.task_completions nthread));
    committed = update s'.committed a true;
  })

-- Step 4 of `worker_loop`: an idle thread takes what it has completed, and the tasks of its pool
-- that were never constructed, off the pending tasks.
unfoldable pub flush_completions : ℕ → Runtime → Runtime
flush_completions nthread s =
    if ltb 0 (s.task_completions nthread)
    then record s {
      pending_tasks = s.pending_tasks -ℤ pos (s.task_completions nthread);
      task_completions = update s.task_completions nthread 0;
    }
    else s

unfoldable pub flush_pool : ℕ → Runtime → Runtime
flush_pool nthread s =
    if ltb 0 (s.task_pool nthread)
    then record s {
      pending_tasks = s.pending_tasks -ℤ pos (s.task_pool nthread);
      task_pool = update s.task_pool nthread 0;
    }
    else s

-- Before any task is constructed.
abbrev pub at_start : Runtime
at_start = record {
  size = 0;
  affinity_queue = λ _. minus_one;
  criticality = λ _. pos 0;
  refcount = λ _. pos 0;
  out = λ _. [];
  leader = λ _. minus_one;
  width = λ _. pos 0;
  ready_q = λ _. [];
  assembly_q = λ _. [];
  pending_tasks = pos 0;
  task_pool = λ _. 0;
  task_completions = λ _. 0;
  committed = λ _. false;
  woken = [];
}

-- `front` and `pop` of the assembly queue.
unfoldable pub try_pop_assembly_task : ℕ → Runtime → Option ℕ × Runtime
try_pop_assembly_task nthread s = elim (s.assembly_q nthread) [
  | [] ↦ (none, s)
  | task ∷ rest ↦ (some task, record s { assembly_q = update s.assembly_q nthread rest })
]

-- `back` and `pop_back` of a vector.
unfoldable pub unsnoc : List ℕ → Option (List ℕ × ℕ)
unsnoc [] = none
unsnoc (x ∷ xs) = elim (unsnoc xs) [
  | none ↦ some ([], x)
  | some (front, last) ↦ some (x ∷ front, last)
]

-- The place that `history_mold_locally` writes into a task.
unfoldable pub molded : Option (ℤ × ℤ) → ℕ → Runtime → Runtime
molded none task s = s
molded (some (leader, width)) task s = record s {
  leader = update s.leader task leader;
  width = update s.width task width;
}

-- The branches of `try_pop_ready_task`, by what `back` finds.
unfoldable pub pop_back : Settings → ℕ → ℕ → Runtime → Option (List ℕ × ℕ) → Option ℕ × Runtime
pop_back c nthread requesting_thread s none = (none, s)
pop_back c nthread requesting_thread s (some (front, task)) =
    let s' = record s { ready_q = update s.ready_q nthread front } in
    (
      some task,
      if c.use_performance_modeling
          then molded (c.history_mold_locally requesting_thread task) task s'
          else s',
    )

unfoldable pub try_pop_ready_task : Settings → ℕ → ℕ → Runtime → Option ℕ × Runtime
try_pop_ready_task c nthread requesting_thread s =
    pop_back c nthread requesting_thread s (unsnoc (s.ready_q nthread))
