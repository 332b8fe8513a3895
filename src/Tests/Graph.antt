-- ===== src/Tests/Graph.antt =====
-- A run of the task graph (src/poly_task.cpp).
use xitao.Prelude.Family.{sum}
use xitao.Prelude.{
  none, some, ℕ, ◌<◌, ◌≡◌, refl, true, false, [], ◌∷◌, ◌==◌, if◌then◌else◌, arith, count,
}
use xitao.Prelude.Int.{pos, minus_one, ◌+ℤ◌, ◌-ℤ◌}
use xitao.Prelude.Result.{ok, exit, Result}
use xitao.Tasks.{
  try_pop_ready_task, pop_back, unsnoc, Runtime, Settings, QueueExit, new_task, make_edge,
  commit_and_wakeup, wake_all, wake, insert_in_ready_queue, insert_task_in_assembly_queues,
  distribute, flush_completions, flush_pool, at_start,
}
use xitao.Tasks.Pops.{try_pop_ready_task-insert_in_ready_queue}
use xitao.Tasks.Counts.{accounted}
use xitao.Tasks.Rounds.{rearranged}
use xitao.Tasks.Offers.{HasPlaces, is_ready}
use xitao.Tasks.Tracked.{IsHere}
use xitao.Tasks.Runs.{
  Reachable, constructs, connects, arranges, commits, takes_completions, takes_pool, starts, steps,
  pushes, takes_ready,
}
use xitao.Tasks.Safety.{
  offered-after_predecessors, predecessors-offered, pending_tasks-accounted, drained-all_committed,
}

-- Without performance modelling, a woken task goes to the ready queue of the thread.
abbrev settings : Settings
settings = record {
  nthreads = pos 4;
  use_performance_modeling = false;
  global_search_ptt = λ it. (minus_one, pos 1);
  history_mold_locally = λ thread it. none;
}

-- Task 0 before task 1.
abbrev built : Runtime
built = make_edge 0 1 (new_task 0 (pos 1) (new_task 0 (pos 1) at_start))

built-Reachable : Reachable settings [] [] built
unfolding new_task make_edge
built-Reachable =
    steps _ _ _ _
      (steps _ _ _ _ (steps _ _ _ _ starts (constructs 0 (pos 1) at_start (omega arith)))
        (constructs 0 (pos 1) (new_task 0 (pos 1) at_start) (omega arith)))
      (connects 0 1 (new_task 0 (pos 1) (new_task 0 (pos 1) at_start)) (omega arith) (omega arith)
        refl refl refl)

-- Task 0 is pushed to thread 2, which takes it.
abbrev pushed_0 : Runtime
pushed_0 = insert_in_ready_queue 0 2 built

abbrev taken_0 : Runtime
taken_0 = (try_pop_ready_task settings 2 2 pushed_0).1

taken_0-Reachable : Reachable settings (0 ∷ []) (0 ∷ []) taken_0
unfolding new_task make_edge insert_in_ready_queue try_pop_ready_task pop_back unsnoc sum
taken_0-Reachable =
    takes_ready _ _ 2 2 0 pushed_0 taken_0 (pushes _ _ 0 2 built built-Reachable refl) refl

result : Result QueueExit Runtime → Runtime
result (ok s) = s
result (exit e) = at_start

-- Thread 2 runs task 0, then takes task 1 out of its ready queue and runs it.
abbrev first_ran : Runtime
first_ran = result (commit_and_wakeup settings 2 0 taken_0)

abbrev taken_1 : Runtime
taken_1 = (try_pop_ready_task settings 2 2 first_ran).1

abbrev both_ran : Runtime
both_ran = result (commit_and_wakeup settings 2 1 taken_1)

first_commit : commit_and_wakeup settings 2 0 taken_0 ≡ ok first_ran
unfolding new_task make_edge commit_and_wakeup wake_all wake insert_in_ready_queue result
    try_pop_ready_task pop_back unsnoc insert_task_in_assembly_queues distribute ◌+ℤ◌ ◌-ℤ◌
first_commit = refl

ready_of_two : first_ran.ready_q 2 ≡ 1 ∷ []
unfolding new_task make_edge commit_and_wakeup wake_all wake insert_in_ready_queue result
    try_pop_ready_task pop_back unsnoc insert_task_in_assembly_queues distribute ◌+ℤ◌ ◌-ℤ◌
ready_of_two = refl

second_commit : commit_and_wakeup settings 2 1 taken_1 ≡ ok both_ran
unfolding new_task make_edge commit_and_wakeup wake_all wake insert_in_ready_queue result
    try_pop_ready_task pop_back unsnoc insert_task_in_assembly_queues distribute ◌+ℤ◌ ◌-ℤ◌
second_commit = refl

first_ran-Reachable : Reachable settings (0 ∷ []) (0 ∷ []) first_ran
unfolding new_task make_edge commit_and_wakeup wake_all wake insert_in_ready_queue result
    try_pop_ready_task pop_back unsnoc insert_task_in_assembly_queues distribute ◌+ℤ◌ ◌-ℤ◌
first_ran-Reachable =
    steps _ _ _ _ taken_0-Reachable
      (commits 2 0 taken_0 first_ran (omega arith) (omega arith) refl first_commit)

both_ran-Reachable : Reachable settings (0 ∷ []) (1 ∷ 0 ∷ []) both_ran
unfolding new_task make_edge commit_and_wakeup wake_all wake insert_in_ready_queue result
    try_pop_ready_task pop_back unsnoc insert_task_in_assembly_queues distribute ◌+ℤ◌ ◌-ℤ◌
both_ran-Reachable =
    steps _ _ _ _ (takes_ready _ _ 2 2 1 first_ran taken_1 first_ran-Reachable refl)
      (commits 2 1 taken_1 both_ran (omega arith) (omega arith) refl second_commit)

-- Threads 0 and 2 become idle.
abbrev idle : Runtime
idle = flush_pool 0 (flush_completions 2 both_ran)

idle-Reachable : Reachable settings (0 ∷ []) (1 ∷ 0 ∷ []) idle
idle-Reachable =
    steps _ _ _ _ (steps _ _ _ _ both_ran-Reachable (takes_completions 2 both_ran (omega arith)))
      (takes_pool 0 (flush_completions 2 both_ran) (omega arith))

offered-after_predecessors_example : (first_ran.committed 0 ≡ true) × (count 1 first_ran.woken ≡ 1)
unfolding new_task make_edge commit_and_wakeup wake_all wake insert_in_ready_queue result
    try_pop_ready_task pop_back unsnoc insert_task_in_assembly_queues distribute ◌+ℤ◌ ◌-ℤ◌
offered-after_predecessors_example =
    offered-after_predecessors settings (0 ∷ []) (0 ∷ []) first_ran 1 0 first_ran-Reachable
      (is_ready 2 (omega arith)) (omega arith) (omega arith)

-- With performance modelling, task 1 is critical and goes to the assembly queues of its place.
abbrev modelling : Settings
modelling = record settings {
  use_performance_modeling = true;
  global_search_ptt = λ it. (pos 1, pos 2);
}

modelling-HasPlaces : HasPlaces modelling
modelling-HasPlaces it = omega arith

abbrev critical : Runtime
critical =
    rearranged built.affinity_queue (λ t. if t == 1 then pos 1 else pos 0) built.leader built.width
      built.ready_q built.assembly_q built

abbrev critical_ran : Runtime
critical_ran = result (commit_and_wakeup modelling 2 0 critical)

critical_commit : commit_and_wakeup modelling 2 0 critical ≡ ok critical_ran
unfolding new_task make_edge commit_and_wakeup wake_all wake insert_in_ready_queue result
    try_pop_ready_task pop_back unsnoc insert_task_in_assembly_queues distribute ◌+ℤ◌ ◌-ℤ◌
critical_commit = refl

assembly_of_two : critical_ran.assembly_q 2 ≡ 1 ∷ []
unfolding new_task make_edge commit_and_wakeup wake_all wake insert_in_ready_queue result
    try_pop_ready_task pop_back unsnoc insert_task_in_assembly_queues distribute ◌+ℤ◌ ◌-ℤ◌
assembly_of_two = refl

critical_ran-Reachable : Reachable modelling [] [] critical_ran
unfolding new_task make_edge commit_and_wakeup wake_all wake insert_in_ready_queue result
    try_pop_ready_task pop_back unsnoc insert_task_in_assembly_queues distribute ◌+ℤ◌ ◌-ℤ◌
critical_ran-Reachable =
    steps _ _ _ _
      (steps _ _ _ _
        (steps _ _ _ _
          (steps _ _ _ _ (steps _ _ _ _ starts (constructs 0 (pos 1) at_start (omega arith)))
            (constructs 0 (pos 1) (new_task 0 (pos 1) at_start) (omega arith)))
          (connects 0 1 (new_task 0 (pos 1) (new_task 0 (pos 1) at_start)) (omega arith)
            (omega arith) refl refl refl))
        (arranges _ _ _ _ built))
      (commits 2 0 critical critical_ran (omega arith) (omega arith) refl critical_commit)

only_first :
    (b : ℕ)
    → b < critical_ran.size
    → 0 < count 1 (critical_ran.out b)
    → critical_ran.committed b ≡ true
unfolding new_task make_edge commit_and_wakeup wake_all wake insert_in_ready_queue result
    try_pop_ready_task pop_back unsnoc insert_task_in_assembly_queues distribute ◌+ℤ◌ ◌-ℤ◌
only_first b row edge = ground arith

predecessors-offered_example : IsHere critical_ran [] 1 × (count 1 critical_ran.woken ≡ 1)
unfolding new_task make_edge commit_and_wakeup wake_all wake insert_in_ready_queue result
    try_pop_ready_task pop_back unsnoc insert_task_in_assembly_queues distribute ◌+ℤ◌ ◌-ℤ◌
predecessors-offered_example =
    predecessors-offered modelling [] [] critical_ran 1 0 modelling-HasPlaces critical_ran-Reachable
      (omega arith) (omega arith) only_first

pending_tasks-accounted_example : both_ran.pending_tasks ≡ pos (accounted both_ran)
pending_tasks-accounted_example =
    pending_tasks-accounted settings (0 ∷ []) (1 ∷ 0 ∷ []) both_ran both_ran-Reachable

drained-all_committed_example : idle.committed 1 ≡ true
unfolding new_task make_edge commit_and_wakeup wake_all wake insert_in_ready_queue result
    try_pop_ready_task pop_back unsnoc insert_task_in_assembly_queues distribute ◌+ℤ◌ ◌-ℤ◌
    flush_completions flush_pool
drained-all_committed_example =
    drained-all_committed settings (0 ∷ []) (1 ∷ 0 ∷ []) idle 1 idle-Reachable refl (omega arith)

-- Thread 3 steals task 1 from thread 2.
try_pop_ready_task-insert_in_ready_queue_example :
    ((try_pop_ready_task settings 2 3 (insert_in_ready_queue 1 2 built)).0 ≡ some 1)
    × ((q : ℕ)
        → (try_pop_ready_task settings 2 3 (insert_in_ready_queue 1 2 built)).1.ready_q q
          ≡ built.ready_q q)
try_pop_ready_task-insert_in_ready_queue_example =
    try_pop_ready_task-insert_in_ready_queue settings 1 2 3 built
