-- ===== src/Sched/Stealing.antt =====
-- The stealing of a thread that is alone (step 3 of worker_loop in src/tao_sched.cpp).
use xitao.Prelude.{
  ℕ, zero, suc, ◌%◌, ◌≡◌, ◌≢◌, refl, ◌∙◌, ap, true, false, List, [], none, Option, arith, ◌==◌,
}
use xitao.Prelude.Result.{Result, ok, exit, ◌>>=◌}
use xitao.Layout.{Place}
use xitao.Tasks.{Runtime, Settings, try_pop_assembly_task, try_pop_ready_task, unsnoc, pop_back}
use xitao.Sched.Worker.{
  Worker, WorkerSettings, WorkerExit, random_core, steal_once, steal, try_steal, worker_round,
  after_pop, after_assembly, after_steal, stuck_stealing,
}

no_assembly_task : (r : Runtime) → r.assembly_q 0 ≡ [] → try_pop_assembly_task 0 r ≡ (none, r)
unfolding try_pop_assembly_task
no_assembly_task r empty = rw (empty, try_pop_assembly_task) refl

no_ready_task :
    (c : Settings) (r : Runtime) → r.ready_q 0 ≡ [] → try_pop_ready_task c 0 0 r ≡ (none, r)
unfolding try_pop_ready_task pop_back unsnoc
no_ready_task c r empty = ap (λ (l : List ℕ). pop_back c 0 0 r (unsnoc l)) empty

module _ (c : WorkerSettings) where
  random_core-stuck :
      (rounds : ℕ) (own : Place) (draws : ℕ → ℕ) (k : ℕ)
      → c.enable_local_workstealing ≡ false
      → random_core c rounds 0 1 own draws k 0 ≡ exit stuck_stealing
  unfolding random_core
  random_core-stuck zero own draws k global = refl
  random_core-stuck (suc rounds) own draws k global =
      let itself : draws k % 1 ≡ 0 = omega arith in
      rw (global, itself) (random_core-stuck rounds own draws (suc k) global)

  try_steal-stuck :
      (rounds : ℕ) (own : Place) (draws : ℕ → ℕ) (w : Worker)
      → c.enable_workstealing ≡ true
      → c.enable_local_workstealing ≡ false
      → c.steal_attempts ≢ 0
      → draws 0 % c.steal_attempts ≡ 0
      → try_steal c rounds 0 1 own draws w ≡ exit stuck_stealing
  unfolding try_steal steal steal_once random_core
  try_steal-stuck rounds own draws w steals global some_attempts now =
      let some : (c.steal_attempts == 0) ≡ false = ground arith in
      let due : (draws 0 % c.steal_attempts == 0) ≡ true = ground arith in
      rw (steals, some, due) (rw (random_core-stuck rounds own draws 1 global) refl)

  -- A round of the only thread of the runtime, which has nothing in its queues and is due to
  -- steal, with work stealing on and not confined to its own places, searches for another thread
  -- for ever, whatever the number of rounds.
  pub worker_round_stuck :
      (rounds : ℕ) (own : Place) (draws : ℕ → ℕ) (w : Worker)
      → w.runtime.assembly_q 0 ≡ []
      → w.runtime.ready_q 0 ≡ []
      → c.enable_workstealing ≡ true
      → c.enable_local_workstealing ≡ false
      → c.steal_attempts ≢ 0
      → draws 0 % c.steal_attempts ≡ 0
      → worker_round c rounds 0 1 own draws none w ≡ exit stuck_stealing
  unfolding worker_round after_pop after_assembly
  worker_round_stuck rounds own draws w no_assembly no_task steals global some_attempts now =
      ap (λ (p : Option ℕ × Runtime). after_pop c rounds 0 1 own draws p w)
        (no_assembly_task w.runtime no_assembly)
      ∙ ap (λ (p : Option ℕ × Runtime). after_assembly c rounds 0 1 own draws p w)
          (no_ready_task c.settings w.runtime no_task)
      ∙ ap
          (λ (m : Result WorkerExit (Option ℕ × Worker)). m >>= λ found. ok (after_steal c 0 found))
          (try_steal-stuck rounds own draws w steals global some_attempts now)
