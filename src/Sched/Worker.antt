-- ===== src/Sched/Worker.antt =====
-- src/tao_sched.cpp, lines 262 to 420: the loop of a worker thread, one round at a time.
-- `draws` are the values of `rand_r`, in their order. What a task does when it is executed is the
-- list of the calls; the times that it takes are those of include/perf_model.h, so only the calls of
-- `update_performance_model` are kept.
use xitao.Prelude.{
  ℕ, zero, suc, ◌+◌, ◌-◌, ◌*◌, ◌/◌, ◌%◌, Bool, true, false, not, ◌&&◌, List, [], ◌∷◌, ◌++◌, Option,
  none, some, ltb, leb, ◌==◌, if◌then◌else◌,
}
use xitao.Prelude.Int.{ℤ, pos, pos_part, neg_part, ltb_ℤ, eqb_ℤ}
use xitao.Prelude.Family.{update}
use xitao.Prelude.Result.{Result, ok, exit, ◌>>=◌}
use xitao.Layout.{Place, max_threads}
use xitao.Tasks.{
  Runtime, Settings, QueueExit, insert_task_in_assembly_queues, commit_and_wakeup,
  try_pop_assembly_task, try_pop_ready_task, flush_completions, flush_pool,
}
use xitao.Sched.{Scheduler, no_places}

pub record Worker : Type 0 where
  pub runtime : Runtime
  pub is_simple : ℕ → Bool  -- the type of a task
  pub threads_out_tao : ℕ → ℕ
  pub executed : List (ℕ × ℕ)  -- the thread and the task of each call
  pub measured : List (ℕ × ℕ)
  pub deleted : ℕ → Bool
  pub steals : ℕ

-- The settings that only the loop reads.
pub record WorkerSettings : Type 0 where
  pub settings : Settings
  pub delete_executed_taos : Bool
  pub enable_workstealing : Bool
  pub enable_local_workstealing : Bool
  pub steal_attempts : ℕ
  pub can_exit : Bool

-- The ways in which the process stops. `stuck_stealing` says that the rounds of the search for
-- another thread ran out.
pub data WorkerExit : Type 0 where
  queue_error : QueueExit → WorkerExit
  division_by_zero : WorkerExit
  stuck_stealing : WorkerExit
  no_resource : WorkerExit

unfoldable pub lift_queue : Result QueueExit Runtime → Result WorkerExit Runtime
lift_queue (ok r) = ok r
lift_queue (exit e) = exit (queue_error e)

-- The processor of a thread.
unfoldable pub phys_core : Scheduler → ℕ → Result WorkerExit ℤ
phys_core s nthread =
    let base = pos_part s.gotao_thread_base in
    if s.resources_runtime_controlled
    then if leb s.mapper_size nthread
      then exit no_resource
      else ok (pos (s.runtime_resource_mapper nthread))
    else if base == max_threads
    then exit division_by_zero
    else ok (s.layout.static_resource_mapper (base + nthread % (max_threads - base)))

-- Whether the thread takes part: it is in a place.
unfoldable pub is_active : Scheduler → ℕ → Bool
is_active s nthread = not (no_places (s.layout.inclusive_partitions nthread))

-- The defensive check of the leader.
unfoldable pub settle_leader : ℕ → ℕ → Runtime → Result WorkerExit Runtime
settle_leader nthread st r =
    let w = pos_part (r.width st) + neg_part (r.width st) in
    if ltb_ℤ (r.leader st) (pos 0)
    then if w == 0
      then exit division_by_zero
      else ok (record r { leader = update r.leader st (pos (nthread / w * w)) })
    else ok r

module _ (c : WorkerSettings) where
  -- 0. A task that is provided via forwarding.
  unfoldable pub run_forwarded : ℕ → ℕ → Worker → Result WorkerExit Worker
  run_forwarded nthread st w =
      if w.is_simple st
      then (lift_queue (commit_and_wakeup c.settings nthread st w.runtime) >>= λ r.
          ok (record w { runtime = r; executed = w.executed ++ (nthread, st) ∷ [] }))
      else settle_leader nthread st w.runtime >>= λ r.
          lift_queue (insert_task_in_assembly_queues c.settings.nthreads st r) >>= λ r'.
          ok (record w { runtime = r' })

  -- The last thread that leaves the assembly.
  unfoldable pub finish_assembly : ℕ → ℕ → Worker → Result WorkerExit Worker
  finish_assembly nthread st w =
      lift_queue (commit_and_wakeup c.settings nthread st w.runtime) >>= λ r. ok (record w {
        runtime = r;
        deleted = if c.delete_executed_taos then update w.deleted st true else w.deleted;
      })

  -- What a thread does with a task of its assembly queue before it looks whether it is the last.
  unfoldable pub execute_assembly : ℕ → ℕ → Worker → Worker
  execute_assembly nthread st w =
      let leads = eqb_ℤ (w.runtime.leader st) (pos nthread) in
      record w {
        executed = w.executed ++ (nthread, st) ∷ [];
        measured =
            if c.settings.use_performance_modeling && leads
            then w.measured ++ (nthread, st) ∷ []
            else w.measured;
        threads_out_tao = update w.threads_out_tao st (suc (w.threads_out_tao st));
      }

  -- 1. A task of the assembly queue.
  unfoldable pub run_assembly : ℕ → ℕ → Worker → Result WorkerExit Worker
  run_assembly nthread st w =
      let w' = execute_assembly nthread st w in
      if eqb_ℤ (pos (suc (w.threads_out_tao st))) (w.runtime.width st)
      then finish_assembly nthread st w'
      else ok w'

  -- The inner loop of the stealing: another thread, and the draws that are left. After two tries
  -- in its own place a thread may get itself.
  unfoldable pub random_core : ℕ → ℕ → ℕ → Place → (ℕ → ℕ) → ℕ → ℕ → Result WorkerExit (ℕ × ℕ)
  random_core zero nthread nthreads own draws k tries = exit stuck_stealing
  random_core (suc rounds) nthread nthreads own draws k tries =
      let tries' = if c.enable_local_workstealing then suc tries else tries in
      let core =
        if c.enable_local_workstealing
        then own.leader + draws k % own.width
        else draws k % nthreads in
      let rest = random_core rounds nthread nthreads own draws (suc k) tries' in
      if (core == nthread) && ltb tries' 2 then rest else ok (core, suc k)

  -- What is left after a try: the number of steals counts the tries that find a task.
  unfoldable pub took : Option ℕ × Runtime → Worker → Option ℕ × Worker
  took (some st, r) w = (some st, record w { runtime = r; steals = suc w.steals })
  took (none, r) w = (none, record w { runtime = r })

  unfoldable pub steal_once :
      ℕ → ℕ → ℕ → Place → (ℕ → ℕ) → ℕ → Worker → Result WorkerExit (Option ℕ × Worker × ℕ)
  steal_once rounds nthread nthreads own draws k w =
      random_core rounds nthread nthreads own draws k 0 >>= λ chosen.
      let r =
        took
          (if chosen.0 == nthread
            then (none, w.runtime)
            else try_pop_ready_task c.settings chosen.0 nthread w.runtime)
          w in
      ok (r.0, r.1, chosen.1)

  -- The outer loop, for the tries that are left.
  unfoldable pub steal :
      ℕ → ℕ → ℕ → ℕ → Place → (ℕ → ℕ) → ℕ → Worker → Result WorkerExit (Option ℕ × Worker)
  steal zero rounds nthread nthreads own draws k w = ok (none, w)
  steal (suc tries) rounds nthread nthreads own draws k w =
      steal_once rounds nthread nthreads own draws k w >>= λ r. elim r.0 [
        | some st ↦ ok (some st, r.1)
        | none ↦ steal tries rounds nthread nthreads own draws r.2 r.1
      ]

  -- 3. Try to steal, twice at most.
  unfoldable pub try_steal :
      ℕ → ℕ → ℕ → Place → (ℕ → ℕ) → Worker → Result WorkerExit (Option ℕ × Worker)
  try_steal rounds nthread nthreads own draws w =
      if c.enable_workstealing && (not (c.steal_attempts == 0) && (draws 0 % c.steal_attempts == 0))
      then steal 2 rounds nthread nthreads own draws 1 w
      else ok (none, w)

  -- 4. Take off what is done, and whether the thread leaves its loop.
  unfoldable pub idle : ℕ → Worker → Bool × Worker
  idle nthread w =
      let r = flush_pool nthread (flush_completions nthread w.runtime) in
      (c.can_exit && eqb_ℤ r.pending_tasks (pos 0), record w { runtime = r })

  -- What follows the search for a task to steal.
  unfoldable pub after_steal : ℕ → Option ℕ × Worker → Bool × Option ℕ × Worker
  after_steal nthread (some st, w) = (false, some st, w)
  after_steal nthread (none, w) = ((idle nthread w).0, none, (idle nthread w).1)

  -- 2. The own ready queue, then the others.
  unfoldable pub after_assembly :
      ℕ
      → ℕ
      → ℕ
      → Place
      → (ℕ → ℕ)
      → Option ℕ × Runtime
      → Worker
      → Result WorkerExit (Bool × Option ℕ × Worker)
  after_assembly rounds nthread nthreads own draws (some st, r) w =
      ok (false, some st, record w { runtime = r })
  after_assembly rounds nthread nthreads own draws (none, r) w =
      try_steal rounds nthread nthreads own draws (record w { runtime = r }) >>= λ found.
      ok (after_steal nthread found)

  unfoldable pub after_pop :
      ℕ
      → ℕ
      → ℕ
      → Place
      → (ℕ → ℕ)
      → Option ℕ × Runtime
      → Worker
      → Result WorkerExit (Bool × Option ℕ × Worker)
  after_pop rounds nthread nthreads own draws (some st, r) w =
      run_assembly nthread st (record w { runtime = r }) >>= λ w'. ok (false, none, w')
  after_pop rounds nthread nthreads own draws (none, r) w =
      after_assembly rounds nthread nthreads own draws
        (try_pop_ready_task c.settings nthread nthread r) w

  -- One round of `worker_loop`: whether the thread leaves, and `st`.
  unfoldable pub worker_round :
      ℕ → ℕ → ℕ → Place → (ℕ → ℕ) → Option ℕ → Worker → Result WorkerExit (Bool × Option ℕ × Worker)
  worker_round rounds nthread nthreads own draws (some st) w =
      run_forwarded nthread st w >>= λ w'. ok (false, none, w')
  worker_round rounds nthread nthreads own draws none w =
      after_pop rounds nthread nthreads own draws (try_pop_assembly_task nthread w.runtime) w
