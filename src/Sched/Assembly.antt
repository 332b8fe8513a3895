-- ===== src/Sched/Assembly.antt =====
-- How the threads of a place execute an assembly task (step 1 of worker_loop in src/tao_sched.cpp).
use xitao.Prelude.{ℕ, ◌≡◌, List, [], ◌∷◌, ◌++◌, map, Option, none, some}
use xitao.Prelude.Result.{Result, ok, ◌>>=◌}
use xitao.Layout.{Place}
use xitao.Tasks.{Runtime, try_pop_assembly_task}
use xitao.Sched.Worker.{Worker, WorkerSettings, WorkerExit, worker_round, after_pop}

-- The threads take the tasks in front of their assembly queues, in their order.
abbrev pub popped : List ℕ → Runtime → Runtime
popped [] r = r
popped (nthread ∷ rest) r = popped rest (try_pop_assembly_task nthread r).1

-- Each of the threads finds task `st` in front of its assembly queue when it comes to its turn.
abbrev pub Finds : ℕ → List ℕ → Runtime → Type 0
Finds st [] r = Unit
Finds st (nthread ∷ rest) r =
    ((try_pop_assembly_task nthread r).0 ≡ some st)
    × Finds st rest (try_pop_assembly_task nthread r).1

module _ (c : WorkerSettings) (rounds nthreads : ℕ) (own : ℕ → Place) (draws : ℕ → ℕ) where
  -- A round of the loop of a thread to which no task was forwarded.
  unfoldable pub run_round : ℕ → Worker → Result WorkerExit Worker
  run_round nthread w =
      worker_round c rounds nthread nthreads (own nthread) draws none w >>= λ x. ok x.2

  -- A round of each of the threads, one after the other.
  unfoldable pub run_each : List ℕ → Worker → Result WorkerExit Worker
  run_each [] w = ok w
  run_each (nthread ∷ rest) w = run_round nthread w >>= run_each rest

  -- The calls of `execute` by some threads.
  abbrev pub calls : ℕ → List ℕ → List (ℕ × ℕ)
  calls st = map (λ (nthread : ℕ). (nthread, st))

  -- Threads that execute the task before the last one only take it out of their queues.
  record Passed (st n : ℕ) (threads : List ℕ) (w w' : Worker) : Type 0 where
    pub same : w'.runtime ≡ popped threads w.runtime
    pub out : w'.threads_out_tao st ≡ n
    pub all : w'.executed ≡ w.executed ++ calls st threads

  abbrev by_front : ℕ → Runtime → Worker → Option ℕ → Result WorkerExit Worker
  by_front nthread r w o =
      after_pop c rounds nthread nthreads (own nthread) draws (o, r) w >>= λ x. ok x.2
