-- ===== src/Tests/Scheduling.antt =====
-- Runs of the scheduler (src/tao_sched.cpp).
use xitao.Prelude.{
  ℕ, zero, suc, ◌*◌, ◌/◌, ◌<◌, ◌≡◌, ◌↔◌, refl, Bool, true, false, List, [], ◌∷◌, Option, none, inr,
  arith, ltb, ◌==◌, if◌then◌else◌,
}
use xitao.Prelude.Int.{ℤ, pos, minus_one}
use xitao.Prelude.Member.{In}
use xitao.Prelude.Result.{ok, exit}
use xitao.Trace.Order.{slice}
use xitao.Layout.{Place, max_threads}
use xitao.Layout.Widths.{IsWidth}
use xitao.Tasks.{Runtime, at_start, insert_in_ready_queue}
use xitao.Sched.{
  Scheduler, Environment, no_places, wanted_queue, set_xitao_mask, xitao_init_hw, xitao_push,
  endless,
}
use xitao.Sched.Mask.{cpus, set_xitao_mask-cpus}
use xitao.Sched.Places.{xitao_init_hw-places}
use xitao.Sched.Push.{xitao_push-finds}
use xitao.Sched.Single.{xitao_init_hw-xitao_push}
use xitao.Sched.Worker.{Worker, WorkerSettings, worker_round, stuck_stealing}
use xitao.Sched.Assembly.{popped}
use xitao.Sched.Stealing.{worker_round_stuck}
use xitao.Tests.Places.{no_layout, no_layout-IsSized}

abbrev not_started : Scheduler
not_started = record {
  layout = no_layout;
  gotao_ncontexts = pos 0;
  gotao_thread_base = pos 0;
  gotao_can_exit = false;
  gotao_initialized = false;
  gotao_started = false;
  resources_runtime_controlled = false;
  suppress_init_warnings = false;
  runtime_resource_mapper = λ _. 0;
  mapper_size = 0;
  tao_total_steals = 0;
}

abbrev nothing_set : Environment
nothing_set = record {
  gotao_nthreads = none;
  xitao_layout_path = none;
  gotao_hw_contexts = none;
  gotao_thread_base = none;
}

-- Processors 0 to 2.
abbrev three_cpus : ℕ → Bool
three_cpus cpu = ltb cpu 3

set_xitao_mask-cpus_example :
    ((set_xitao_mask three_cpus 3 not_started).resources_runtime_controlled ≡ true)
    × (slice
          (set_xitao_mask three_cpus 3 not_started).runtime_resource_mapper
          0
          (set_xitao_mask three_cpus 3 not_started).mapper_size
        ≡ cpus three_cpus max_threads 0)
unfolding cpus
set_xitao_mask-cpus_example = set_xitao_mask-cpus three_cpus 3 not_started refl refl

abbrev no_number : List ℕ → ℤ
no_number text = pos 0

abbrev no_value : List ℕ → Option ℤ
no_value text = none

xitao_init_hw-places_example :
    (s' : Scheduler) × (xitao_init_hw no_number no_value nothing_set
        (pos 6)
        (pos 0)
        (pos 1)
        not_started
      ≡ ok s')
    × (s'.resources_runtime_controlled ≡ false)
    × (s'.layout.nthreads ≡ 6)
    × ((t : ℕ) (p : Place)
        → t < 6
        → In p (s'.layout.inclusive_partitions t)
          ↔ (IsWidth 6 p.width × (p.leader ≡ t / p.width * p.width)))
xitao_init_hw-places_example =
    xitao_init_hw-places no_number no_value nothing_set 6 (pos 0) (pos 1) not_started refl refl
      (omega arith) (inr (λ k. (refl, refl))) no_layout-IsSized

xitao_init_hw-xitao_push_example :
    (s' : Scheduler) × (xitao_init_hw no_number no_value nothing_set
        (pos 1)
        (pos 0)
        (pos 1)
        not_started
      ≡ ok s')
    × ((sta : Bool) (rounds draw : ℕ) (here : ℤ) (pt : ℕ) (queue : ℤ) (r : Runtime)
        → wanted_queue sta (r.affinity_queue pt) queue here ≡ pos 0
        → xitao_push sta rounds draw here s' pt queue r ≡ exit endless)
xitao_init_hw-xitao_push_example =
    xitao_init_hw-xitao_push no_number no_value nothing_set (pos 0) (pos 1) not_started refl refl
      (inr (λ k. (refl, refl))) no_layout-IsSized

-- Thread 1 of two is in a place.
abbrev one_place : ℕ → List Place
one_place zero = []
one_place (suc zero) = record { leader = 1; width = 1 } ∷ []
one_place (suc (suc k)) = []

abbrev two_threads : Scheduler
two_threads = record not_started {
  layout = record no_layout { nthreads = 2; inclusive_partitions = one_place };
}

xitao_push-finds_example :
    (q : ℕ) × (xitao_push true 2 0 (pos 0) two_threads 5 minus_one at_start
      ≡ ok (insert_in_ready_queue 5 q at_start))
    × (q < 2)
    × (no_places (one_place q) ≡ false)
unfolding wanted_queue
xitao_push-finds_example =
    xitao_push-finds true 2 0 (pos 0) two_threads 5 minus_one at_start 0 1 refl refl (omega arith)
      (omega arith) refl (omega arith)

abbrev settings : WorkerSettings
settings = record {
  settings = record {
    nthreads = pos 2;
    use_performance_modeling = false;
    global_search_ptt = λ _. (pos 0, pos 1);
    history_mold_locally = λ _ _. none;
  };
  delete_executed_taos = true;
  enable_workstealing = true;
  enable_local_workstealing = false;
  steal_attempts = 1;
  can_exit = false;
}

-- Task 0 has width 3 and nothing behind it.
abbrev worker : Worker
worker = record {
  runtime = record at_start { size = 1; width = λ _. pos 3; pending_tasks = pos 100 };
  is_simple = λ _. false;
  threads_out_tao = λ _. 0;
  executed = [];
  measured = [];
  deleted = λ _. false;
  steals = 0;
}

-- Task 0 is in front of the assembly queues of threads 0 to 2.
abbrev assembled : Worker
assembled = record worker {
  runtime = record worker.runtime { assembly_q = λ q. if ltb q 3 then 0 ∷ [] else [] };
}

abbrev committed : Runtime
committed = record (popped (1 ∷ 2 ∷ 0 ∷ []) assembled.runtime) {
  task_completions = λ k. if 0 == k then 1 else 0;
  committed = λ k. if 0 == k then true else false;
}

abbrev alone : ℕ → Place
alone t = record { leader = t; width = 1 }

worker_round_stuck_example :
    worker_round settings 9 0 1 (record { leader = 0; width = 1 }) (λ _. 0) none worker
    ≡ exit stuck_stealing
worker_round_stuck_example =
    worker_round_stuck settings 9 (record { leader = 0; width = 1 }) (λ _. 0) worker refl refl refl
      refl (λ e. omega arith) (omega arith)
