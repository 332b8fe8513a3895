-- ===== src/Sched/Mask.antt =====
-- The processors that `set_xitao_mask` of src/tao_sched.cpp takes.
use xitao.Prelude.{
  ℕ, zero, suc, ◌<◌, ◌≡◌, refl, ◌∙◌, ap, Bool, true, false, List, [], ◌∷◌, length, ltb,
  if◌then◌else◌, arith, Bool-cases, inl, inr,
}
use xitao.Prelude.Family.{update, update_same, update_other}
use xitao.Trace.Order.{slice}
use xitao.Layout.{max_threads}
use xitao.Sched.{Scheduler, mask_loop, resize, set_xitao_mask}

-- The processors in a mask, from `i` on.
unfoldable pub cpus : (ℕ → Bool) → ℕ → ℕ → List ℕ
cpus cpu_isset zero i = []
cpus cpu_isset (suc more) i =
    let rest = cpus cpu_isset more (suc i) in if cpu_isset i then i ∷ rest else rest

mask_loop-cpus :
    (cpu_isset : ℕ → Bool) (more i j : ℕ) (mapper : ℕ → ℕ)
    → ((k : ℕ) → k < j → mask_loop cpu_isset more i j mapper k ≡ mapper k)
      × (slice (mask_loop cpu_isset more i j mapper) j (length (cpus cpu_isset more i))
          ≡ cpus cpu_isset more i)
unfolding mask_loop cpus slice
mask_loop-cpus cpu_isset zero i j mapper = (λ k below. refl, refl)
mask_loop-cpus cpu_isset (suc more) i j mapper = elim (Bool-cases (cpu_isset i)) [
  | inr unset ↦ rw unset (mask_loop-cpus cpu_isset more (suc i) j mapper)
  | inl here ↦
      let (kept, put) = mask_loop-cpus cpu_isset more (suc i) (suc j) (update mapper j i) in
      let first = kept j (omega arith) ∙ update_same mapper j i in
      rw here (
        λ k below. kept k (omega arith) ∙ update_other mapper j k i (λ e. omega arith),
        λ n. first n ∷ put n,
      )
]

-- Before the runtime is initialized, a mask whose processors are all among the first 64 gives the
-- control of the resources to the mapper, which becomes the list of the processors of the mask,
-- in their order.
pub set_xitao_mask-cpus :
    (cpu_isset : ℕ → Bool) (cpu_count : ℕ) (s : Scheduler)
    → s.gotao_initialized ≡ false
    → cpu_count ≡ length (cpus cpu_isset max_threads 0)
    → ((set_xitao_mask cpu_isset cpu_count s).resources_runtime_controlled ≡ true)
      × (slice
            (set_xitao_mask cpu_isset cpu_count s).runtime_resource_mapper
            0
            (set_xitao_mask cpu_isset cpu_count s).mapper_size
          ≡ cpus cpu_isset max_threads 0)
unfolding set_xitao_mask resize
set_xitao_mask-cpus cpu_isset cpu_count s fresh counted =
    let put =
      (mask_loop-cpus cpu_isset max_threads 0 0
        (λ k. if ltb k s.mapper_size then s.runtime_resource_mapper k else 0)).1 in
    rw fresh (
      refl,
      ap
            (slice
              (mask_loop cpu_isset max_threads 0 0
                (λ k. if ltb k s.mapper_size then s.runtime_resource_mapper k else 0))
              0)
            counted
          ∙ put,
    )
