-- ===== src/ParFor.antt =====
-- include/tao.h, lines 91 to 165, and include/xitao_api.h: the SPMD loop tasks (`ParForTask`) with
-- static and dynamic scheduling, and `xitao_vec_multiparallel`, which splits a loop into tasks.
-- `int` is ℤ without overflow. The width of a task is a count, so ℕ; where it is 0 the source
-- divides by zero.
pub mod Made
pub mod Span
pub mod Blocks
pub mod Static
pub mod Dynamic
pub mod Multi
use xitao.Prelude.{
  ℕ, zero, suc, ◌+◌, ◌-◌, ◌*◌, ◌/◌, Bool, true, false, List, [], ◌∷◌, ◌++◌, ltb, leb, ◌==◌,
  if◌then◌else◌,
}
use xitao.Prelude.Int.{ℤ, pos, negsuc, minus_one, pos_part, ◌+ℤ◌, ◌-ℤ◌, ◌*ℤ◌, leb_ℤ, ltb_ℤ}
use xitao.Prelude.Family.{update}
use xitao.Prelude.Result.{Result, ok, exit, ◌>>=◌}

-- Why a process stops: `exit(0)` behind a message, or the fault of a division by zero.
pub data Exit : Type 0 where
  no_work undefined_sched not_enough_work div_by_zero : Exit

-- The fields of the class. `_spmd_region` is represented by the log of its calls.
pub record ParForTask : Type 0 where
  pub sched_type : ℤ
  pub start : ℤ
  pub end : ℤ
  pub size : ℕ
  pub block_size : ℕ
  pub blocks : ℕ
  pub next_block : ℕ
  pub leader : ℤ
  pub width : ℕ

abbrev pub slackness : ℕ
slackness = 8

-- `_size / (width * slackness)`, at least 1.
unfoldable pub dynamic_block_size : ℕ → ℕ → ℕ
dynamic_block_size size width = let b = size / (width * slackness) in if b == 0 then 1 else b

-- The fields after the `switch` of the constructor, by its case.
abbrev pub static_task : ℤ → ℤ → ℕ → ℕ → ParForTask
static_task start end width size = record {
  sched_type = pos 0;
  start = start;
  end = end;
  size = size;
  block_size = 0;
  blocks = 0;
  next_block = 0;
  leader = minus_one;
  width = width;
}

abbrev pub dynamic_task : ℤ → ℤ → ℕ → ℕ → ParForTask
dynamic_task start end width size =
    let b = dynamic_block_size size width in
    record {
      sched_type = pos 1;
      start = start;
      end = end;
      size = size;
      block_size = b;
      blocks = (size + b - 1) / b;
      next_block = 0;
      leader = minus_one;
      width = width;
    }

unfoldable pub switch_sched : ℤ → ℤ → ℤ → ℕ → ℕ → Result Exit ParForTask
switch_sched (pos zero) start end width size = ok (static_task start end width size)
switch_sched (pos (suc zero)) start end width size =
    if width == 0 then exit div_by_zero else ok (dynamic_task start end width size)
switch_sched _ start end width size = exit undefined_sched

-- `ParForTask::ParForTask`
unfoldable pub make_task : ℤ → ℤ → ℤ → ℕ → Result Exit ParForTask
make_task sched start end width =
    if leb_ℤ (end -ℤ start) (pos 0)
    then exit no_work
    else switch_sched sched start end width (pos_part (end -ℤ start))

-- One call `_spmd_region(lo, hi, thread)`.
pub record Call : Type 0 where
  pub lo : ℤ
  pub hi : ℤ
  pub thread : ℕ

-- `xitao_looper`: the values at which the loop body runs. The rounds are at most `end - start`.
unfoldable pub looper_rounds : ℕ → ℤ → ℤ → List ℤ
looper_rounds zero i end = []
looper_rounds (suc rounds) i end =
    let rest = looper_rounds rounds (i +ℤ pos 1) end in if ltb_ℤ i end then i ∷ rest else []

unfoldable pub looper : ℤ → ℤ → List ℤ
looper start end = looper_rounds (pos_part (end -ℤ start)) start end

unfoldable pub iterations : List Call → List ℤ
iterations [] = []
iterations (c ∷ cs) = looper c.lo c.hi ++ iterations cs

-- `execute`, the branch `xitao_vec_static`.
unfoldable pub execute_static : ParForTask → ℕ → Result Exit (ParForTask × Call)
execute_static p thread =
    let b = p.size / p.width in
    let thread_id = pos thread -ℤ p.leader in
    let lo = p.start +ℤ thread_id *ℤ pos b in
    let hi = if leb_ℤ (pos p.width -ℤ pos 1) thread_id then p.end else lo +ℤ pos b in
    if p.width == 0
    then exit div_by_zero
    else if ltb b 1
    then exit not_enough_work
    else ok (record p { block_size = b }, record { lo = lo; hi = hi; thread = thread })

-- The threads of the place run `execute` one after the other, from thread `t` on.
unfoldable pub run_static : ParForTask → ℕ → ℕ → Result Exit (List Call)
run_static p t zero = ok []
run_static p t (suc n) =
    execute_static p t >>= λ (p', c). run_static p' (t + 1) n >>= λ cs. ok (c ∷ cs)

-- `execute`, the branch `xitao_vec_dynamic`: the block that `block_id` names.
unfoldable pub dynamic_call : ParForTask → ℕ → ℕ → Call
dynamic_call p block_id thread =
    let lo = p.start +ℤ pos (block_id * p.block_size) in
    record {
      lo = lo;
      hi = if leb (p.blocks - 1) block_id then p.end else lo +ℤ pos p.block_size;
      thread = thread;
    }

-- The threads that run the dynamic branch together: the shared task, which threads have left the
-- loop, and the calls made so far.
pub record Team : Type 0 where
  pub task : ParForTask
  pub left : ℕ → Bool
  pub calls : List Call

-- One `block_id = next_block++` of a thread, its test, and the call that follows.
unfoldable pub claim : Team → ℕ → Team
claim s thread =
    let id = s.task.next_block in
    let task' = record s.task { next_block = id + 1 } in
    if s.left thread
    then s
    else if ltb id s.task.blocks
    then record {
      task = task';
      left = s.left;
      calls = s.calls ++ dynamic_call s.task id thread ∷ [];
    }
    else record { task = task'; left = update s.left thread true; calls = s.calls }

-- The claims in the order of their atomic increments: any interleaving of the threads.
unfoldable pub run_dynamic : Team → List ℕ → Team
run_dynamic s [] = s
run_dynamic s (t ∷ schedule) = run_dynamic (claim s t) schedule

abbrev pub team : ParForTask → Team
team p = record { task = p; left = λ _. false; calls = [] }

-- `xitao_vec_multiparallel`, from block `i` on, with `n` blocks left of `nblocks`.
unfoldable pub multi_from : ℕ → ℤ → ℤ → ℕ → ℕ → ℕ → ℕ → Result Exit (List ParForTask)
multi_from width end sched block_size nblocks i zero = ok []
multi_from width end sched block_size nblocks i (suc n) =
    let block_start = pos (i * block_size) in
    let block_end = if ltb i (nblocks - 1) then block_start +ℤ pos block_size else end in
    make_task sched block_start block_end width >>= λ p.
    multi_from width end sched block_size nblocks (i + 1) n >>= λ ps. ok (p ∷ ps)

unfoldable pub vec_multiparallel : ℕ → ℤ → ℤ → ℤ → ℕ → Result Exit (List ParForTask)
vec_multiparallel width iter_start end sched block_size =
    let nblocks = pos_part (end -ℤ iter_start +ℤ pos block_size -ℤ pos 1) / block_size in
    if block_size == 0
    then exit div_by_zero
    else multi_from width end sched block_size nblocks 0 nblocks

-- What a list of tasks covers, each its range once.
unfoldable pub ranges : List ParForTask → List ℤ
ranges [] = []
ranges (p ∷ ps) = looper p.start p.end ++ ranges ps
