-- ===== src/Tasks/Upheld.antt =====
-- Every run of the task graph (src/poly_task.cpp, include/queue_manager.h) keeps its invariant.
use xitao.Prelude.{
  ℕ, ◌<◌, ◌≡◌, ◌≢◌, refl, ap, ◌∙◌, subst, List, ◌∷◌, ltb, ◌==◌, false, arith, Bool-cases, inl, inr,
  ℕ_discrete, count,
}
use xitao.Prelude.Int.{ℤ}
use xitao.Prelude.Family.{sum}
use xitao.Prelude.Member.{push}
use xitao.Prelude.Result.{ok, >>=-eq-ok}
use xitao.Tasks.{
  Runtime, Settings, new_task, make_edge, commit_and_wakeup, wake_all, flush_completions,
  flush_pool, insert_in_ready_queue, insert_task_in_assembly_queues,
}
use xitao.Tasks.Counts.{indegree}
use xitao.Tasks.Rounds.{ok-injective, IsQuiet, rearranged-IsQuiet, distribute-IsQuiet}
use xitao.Tasks.Effects.{wake_all-IsUntouched}
use xitao.Tasks.Build.{
  at_start-IsCounted, new_task-IsCounted, make_edge-IsCounted, new_task-indegree,
  make_edge-indegree,
}
use xitao.Tasks.Commit.{commit_and_wakeup-IsCounted}
use xitao.Tasks.Flush.{flush_completions-IsCounted, flush_pool-IsCounted}
use xitao.Tasks.Offers.{is_ready, is_assembled, is_taken}
use xitao.Tasks.Tracked.{
  IsTracked, commit_and_wakeup-IsTracked, insert_in_ready_queue-IsTracked,
  insert_task_in_assembly_queues-IsTracked,
}
use xitao.Tasks.Takes.{
  IsPopped, try_pop_ready_task-IsPopped, try_pop_assembly_task-IsPopped, popped-IsTracked,
}
use xitao.Tasks.Runs.{
  Step, constructs, connects, arranges, commits, distributes, takes_completions, takes_pool,
  Reachable, starts, steps, pushes, takes_ready, takes_assembly, quiet-indegree, quiet-IsCounted,
  IsRun,
}

commit_and_wakeup-indegree :
    (c : Settings) (nthread a t : ℕ) (s s' : Runtime)
    → commit_and_wakeup c nthread a s ≡ ok s'
    → indegree s' t ≡ indegree s t
unfolding commit_and_wakeup
commit_and_wakeup-indegree c nthread a t s s' e =
    let (s1, wakes, done) = >>=-eq-ok (wake_all c nthread (s.out a) s) _ e in
    let same = wake_all-IsUntouched c nthread (s.out a) s s1 wakes in
    subst (λ (x : Runtime). indegree x t ≡ indegree s t) (ok-injective done)
      (rw (same.sizes, same.outs) refl)

module _ (c : Settings) (pushed taken : List ℕ) where
  flush_completions-IsTracked :
      (nthread : ℕ) (s : Runtime)
      → IsTracked c pushed taken s
      → IsTracked c pushed taken (flush_completions nthread s)
        × ((t : ℕ) → indegree (flush_completions nthread s) t ≡ indegree s t)
  unfolding flush_completions
  flush_completions-IsTracked nthread s h = elim (Bool-cases (ltb 0 (s.task_completions nthread))) [
    | inl left ↦ rw left (record { safe = h.safe; kept = h.kept }, λ t. refl)
    | inr empty ↦ rw empty (h, λ t. refl)
  ]

  flush_pool-IsTracked :
      (nthread : ℕ) (s : Runtime)
      → IsTracked c pushed taken s
      → IsTracked c pushed taken (flush_pool nthread s)
        × ((t : ℕ) → indegree (flush_pool nthread s) t ≡ indegree s t)
  unfolding flush_pool
  flush_pool-IsTracked nthread s h = elim (Bool-cases (ltb 0 (s.task_pool nthread))) [
    | inl left ↦ rw left (record { safe = h.safe; kept = h.kept }, λ t. refl)
    | inr empty ↦ rw empty (h, λ t. refl)
  ]

  new_task-IsTracked :
      (nthread : ℕ) (width : ℤ) (s : Runtime)
      → IsTracked c pushed taken s
      → IsTracked c pushed taken (new_task nthread width s)
  unfolding new_task
  new_task-IsTracked nthread width s h = record { safe = h.safe; kept = h.kept }

  make_edge-IsTracked :
      (a t : ℕ) (s : Runtime)
      → IsTracked c pushed taken s
      → IsTracked c pushed taken (make_edge a t s)
  unfolding make_edge
  make_edge-IsTracked a t s h = record { safe = h.safe; kept = h.kept }

  insert_task_in_assembly_queues-IsQuiet :
      (t : ℕ) (s s' : Runtime)
      → insert_task_in_assembly_queues c.nthreads t s ≡ ok s'
      → IsQuiet s s'
  unfolding insert_task_in_assembly_queues
  insert_task_in_assembly_queues-IsQuiet t s s' e = distribute-IsQuiet c.nthreads t _ _ s s' e

  insert_in_ready_queue-IsQuiet :
      (t queue : ℕ) (s : Runtime) → IsQuiet s (insert_in_ready_queue t queue s)
  unfolding insert_in_ready_queue
  insert_in_ready_queue-IsQuiet t queue s = rearranged-IsQuiet _ _ _ _ (push s.ready_q queue t) _ s

  -- The pushed tasks still have no predecessor.
  roots_still :
      (s s' : Runtime)
      → ((t : ℕ) → 0 < count t pushed → indegree s' t ≡ indegree s t)
      → ((t : ℕ) → 0 < count t pushed → indegree s t ≡ 0)
      → (t : ℕ) → 0 < count t pushed
      → indegree s' t ≡ 0
  roots_still s s' same roots t h = same t h ∙ roots t h

  Step-IsRun :
      (s s' : Runtime) → Step c pushed taken s s' → IsRun c pushed taken s → IsRun c pushed taken s'
  Step-IsRun s _ (constructs nthread width _ row) h = record {
    counted = new_task-IsCounted nthread width s row h.counted;
    tracked = new_task-IsTracked nthread width s h.tracked;
    roots =
        roots_still s (new_task nthread width s)
          (λ t some. new_task-indegree nthread width s h.counted t) h.roots;
  }
  Step-IsRun s _ (connects a t _ from to live asleep outside) h = record {
    counted = make_edge-IsCounted a t s from to live asleep h.counted;
    tracked = make_edge-IsTracked a t s h.tracked;
    roots =
        roots_still s (make_edge a t s)
          (λ u some.
            let other : t ≢ u = λ e. let k = ap (λ (v : ℕ). count v pushed) e in omega arith in
            let miss : (t == u) ≡ false = ground arith in
            make_edge-indegree a t s from u ∙ rw miss (omega arith))
          h.roots;
  }
  Step-IsRun s _ (arranges affinity criticality leader width _) h =
      let quiet = rearranged-IsQuiet affinity criticality leader width s.ready_q s.assembly_q s in
      record {
        counted = quiet-IsCounted s _ quiet h.counted;
        tracked = record { safe = h.tracked.safe; kept = h.tracked.kept };
        roots = h.roots;
      }
  Step-IsRun s s' (commits nthread a _ _ row from live e) h = record {
    counted = commit_and_wakeup-IsCounted c nthread a s s' row from live e h.counted;
    tracked = commit_and_wakeup-IsTracked c nthread a pushed taken s s' e h.tracked;
    roots = roots_still s s' (λ t some. commit_and_wakeup-indegree c nthread a t s s' e) h.roots;
  }
  Step-IsRun s s' (distributes t _ _ held e) h =
      let quiet = insert_task_in_assembly_queues-IsQuiet t s s' e in
      record {
        counted = quiet-IsCounted s s' quiet h.counted;
        tracked = insert_task_in_assembly_queues-IsTracked c t pushed taken s s' held e h.tracked;
        roots = roots_still s s' (λ u some. quiet-indegree u s s' quiet) h.roots;
      }
  Step-IsRun s _ (takes_completions nthread _ row) h = record {
    counted = flush_completions-IsCounted nthread s row h.counted;
    tracked = (flush_completions-IsTracked nthread s h.tracked).0;
    roots =
        roots_still s (flush_completions nthread s)
          (λ t some. (flush_completions-IsTracked nthread s h.tracked).1 t) h.roots;
  }
  Step-IsRun s _ (takes_pool nthread _ row) h = record {
    counted = flush_pool-IsCounted nthread s row h.counted;
    tracked = (flush_pool-IsTracked nthread s h.tracked).0;
    roots =
        roots_still s (flush_pool nthread s)
          (λ t some. (flush_pool-IsTracked nthread s h.tracked).1 t) h.roots;
  }

  popped-IsRun :
      (t : ℕ) (s s' : Runtime)
      → IsPopped t s s'
      → IsRun c pushed taken s
      → IsRun c pushed (t ∷ taken) s'
  popped-IsRun t s s' p h = record {
    counted = quiet-IsCounted s s' p.quiet h.counted;
    tracked = popped-IsTracked c t pushed taken s s' p h.tracked;
    roots = roots_still s s' (λ u some. quiet-indegree u s s' p.quiet) h.roots;
  }

  pushed-IsRun :
      (t queue : ℕ) (s : Runtime)
      → indegree s t ≡ 0
      → IsRun c pushed taken s
      → IsRun c (t ∷ pushed) taken (insert_in_ready_queue t queue s)
  pushed-IsRun t queue s root h =
      let quiet = insert_in_ready_queue-IsQuiet t queue s in
      record {
        counted = quiet-IsCounted s _ quiet h.counted;
        tracked = insert_in_ready_queue-IsTracked c t queue pushed taken s h.tracked;
        roots = λ u some. quiet-indegree u s _ quiet ∙ elim (ℕ_discrete t u) [
          | yes here ↦ subst (λ (v : ℕ). indegree s v ≡ 0) here root
          | no other ↦ h.roots u (ground arith)
        ];
      }

pub Reachable-IsRun :
    (c : Settings) (pushed taken : List ℕ) (s : Runtime)
    → Reachable c pushed taken s
    → IsRun c pushed taken s
unfolding sum
Reachable-IsRun c _ _ _ starts = record {
  counted = at_start-IsCounted;
  tracked = record {
    safe = λ t h. elim h [ is_ready q x ↦ x | is_assembled q x ↦ x | is_taken x ↦ x ];
    kept = λ places t h. is_taken h;
  };
  roots = λ t h. refl;
}
Reachable-IsRun c _ _ s' (steps pushed taken s _ run step) =
    Step-IsRun c pushed taken s s' step (Reachable-IsRun c pushed taken s run)
Reachable-IsRun c _ _ _ (pushes pushed taken t queue s run root) =
    pushed-IsRun c pushed taken t queue s root (Reachable-IsRun c pushed taken s run)
Reachable-IsRun c _ _ s' (takes_ready pushed taken nthread requesting_thread t s _ run e) =
    popped-IsRun c pushed taken t s s'
      (try_pop_ready_task-IsPopped c nthread requesting_thread t s s' e)
      (Reachable-IsRun c pushed taken s run)
Reachable-IsRun c _ _ s' (takes_assembly pushed taken nthread t s _ run e) =
    popped-IsRun c pushed taken t s s' (try_pop_assembly_task-IsPopped nthread t s s' e)
      (Reachable-IsRun c pushed taken s run)
