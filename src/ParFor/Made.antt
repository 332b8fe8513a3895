-- ===== src/ParFor/Made.antt =====
-- What the constructor of `ParForTask` sets up.
use xitao.Prelude.{
  ℕ, zero, suc, ◌+◌, ◌-◌, ◌*◌, ◌/◌, ◌≤◌, ◌<◌, ◌≡◌, ◌∙◌, ap, arith, Bool-cases, inl, inr,
}
use xitao.Prelude.Int.{ℤ, pos, negsuc, pos_part, ◌+ℤ◌, ◌-ℤ◌, leb_ℤ, int_laws, eq-pos_part}
use xitao.ParFor.{Exit, ParForTask, no_work, make_task, switch_sched, dynamic_block_size}
use xitao.Prelude.Result.{Result, ok, exit}

-- The range of the task, which is not empty.
pub record IsRange (start end : ℤ) (p : ParForTask) : Type 0 where
  pub starts : p.start ≡ start
  pub ends : p.end ≡ end
  pub sized : p.size ≡ pos_part (end -ℤ start)

-- The blocks of a dynamic task: they are not empty, and only the last is not full.
pub record IsBlocked (p : ParForTask) : Type 0 where
  pub some_block : 1 ≤ p.blocks
  pub fits : (p.blocks - 1) * p.block_size < p.size
  pub reach : p.size ≤ p.blocks * p.block_size
  pub fresh : p.next_block ≡ 0

switch_sched-range :
    (sched start end : ℤ) (width size : ℕ) (p : ParForTask)
    → switch_sched sched start end width size ≡ ok p
    → (p.start ≡ start) × (p.end ≡ end) × (p.size ≡ size)
unfolding switch_sched
switch_sched-range (pos zero) start end width size p e = ground arith
switch_sched-range (pos (suc zero)) start end width size p e = ground arith
switch_sched-range (pos (suc (suc n))) start end width size p e = ground arith
switch_sched-range (negsuc n) start end width size p e = ground arith

pub make_task-inv :
    (sched start end : ℤ) (width : ℕ) (p : ParForTask)
    → make_task sched start end width ≡ ok p
    → IsRange start end p
      × (end ≡ start +ℤ pos (pos_part (end -ℤ start)))
      × (switch_sched sched start end width (pos_part (end -ℤ start)) ≡ ok p)
      × (0 < pos_part (end -ℤ start))
unfolding make_task
make_task-inv sched start end width p e = elim (Bool-cases (leb_ℤ (end -ℤ start) (pos 0))) [
  | inl empty ↦
      let no_task : ◌≡◌ {A = Result Exit ParForTask} (exit no_work) (ok p) = rw empty at e in cc
  | inr some_work ↦
      let e' : switch_sched sched start end width (pos_part (end -ℤ start)) ≡ ok p =
        rw some_work at e in
      let (s, t, n) = switch_sched-range sched start end width (pos_part (end -ℤ start)) p e' in
      let size : 0 < pos_part (end -ℤ start) = ground arith in
      let back : end ≡ start +ℤ (end -ℤ start) = omega int_laws in
      let range = back ∙ ap (λ (d : ℤ). start +ℤ d) (eq-pos_part (end -ℤ start) size) in
      (record { starts = s; ends = t; sized = n }, range, e', size)
]

dynamic_block_size_pos : (size width : ℕ) → 0 < dynamic_block_size size width
unfolding dynamic_block_size
dynamic_block_size_pos size width = ground arith

ceiling_of :
    (n b q : ℕ)
    → 0 < n
    → 0 < b
    → q * b ≤ n + b - 1
    → n + b - 1 < q * b + b
    → (1 ≤ q) × ((q - 1) * b < n) × (n ≤ q * b)
ceiling_of n b zero some_n some_b lo hi = absurd (omega arith)
ceiling_of n b (suc q) some_n some_b lo hi =
    let e : suc q - 1 ≡ q = omega arith in (omega arith, rw e (omega arith), omega arith)

-- The division rounds up.
pub ceiling :
    (n b : ℕ)
    → 0 < n
    → 0 < b
    → (1 ≤ (n + b - 1) / b) × (((n + b - 1) / b - 1) * b < n) × (n ≤ ((n + b - 1) / b) * b)
ceiling n b some_n some_b =
    ceiling_of n b ((n + b - 1) / b) some_n some_b (grind arith) (grind arith)

pub dynamic-IsBlocked :
    (start end : ℤ) (width size : ℕ) (p : ParForTask)
    → 0 < size
    → switch_sched (pos 1) start end width size ≡ ok p
    → IsBlocked p
unfolding switch_sched
dynamic-IsBlocked start end width size p some_size e =
    let (c1, c2, c3) =
      ceiling size (dynamic_block_size size width) some_size (dynamic_block_size_pos size width) in
    ground arith
