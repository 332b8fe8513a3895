-- ===== src/Tasks/Flush.antt =====
-- Step 4 of `worker_loop` (src/tao_sched.cpp) and the invariant of the counts.
use xitao.Prelude.{ℕ, ◌<◌, ap, ◌∙◌, ltb, arith, Bool-cases, inl, inr}
use xitao.Prelude.Int.{ℤ, pos, ◌-ℤ◌}
use xitao.Layout.{max_threads}
use xitao.Tasks.{Runtime, flush_completions, flush_pool}
use xitao.Tasks.Counts.{sum-replaced}
use xitao.Tasks.Counted.{IsCounted, pos_sub}

-- An idle thread that takes its numbers off the pending tasks keeps the counts.
pub flush_completions-IsCounted :
    (nthread : ℕ) (s : Runtime)
    → nthread < max_threads
    → IsCounted s
    → IsCounted (flush_completions nthread s)
unfolding flush_completions
flush_completions-IsCounted nthread s row h =
    elim (Bool-cases (ltb 0 (s.task_completions nthread))) [
      | inl some ↦
          let replaced = sum-replaced max_threads nthread 0 s.task_completions row in
          rw some (record {
            counts = h.counts;
            logged = h.logged;
            no_edge = h.no_edge;
            not_run = h.not_run;
            pending =
                ap (λ (n : ℤ). n -ℤ pos (s.task_completions nthread)) h.pending
                ∙ pos_sub _ _ _ (omega (arith, replaced));
          })
      | inr none ↦ rw none h
    ]

pub flush_pool-IsCounted :
    (nthread : ℕ) (s : Runtime)
    → nthread < max_threads
    → IsCounted s
    → IsCounted (flush_pool nthread s)
unfolding flush_pool
flush_pool-IsCounted nthread s row h = elim (Bool-cases (ltb 0 (s.task_pool nthread))) [
  | inl some ↦
      let replaced = sum-replaced max_threads nthread 0 s.task_pool row in
      rw some (record {
        counts = h.counts;
        logged = h.logged;
        no_edge = h.no_edge;
        not_run = h.not_run;
        pending =
            ap (λ (n : ℤ). n -ℤ pos (s.task_pool nthread)) h.pending
            ∙ pos_sub _ _ _ (omega (arith, replaced));
      })
  | inr none ↦ rw none h
]
