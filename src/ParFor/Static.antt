-- ===== src/ParFor/Static.antt =====
-- The static branch of `ParForTask::execute`, run by all threads of a place.
use xitao.Prelude.{
  ℕ, zero, suc, ◌+◌, ◌-◌, ◌*◌, ◌/◌, ◌≤◌, ◌<◌, ◌≡◌, refl, ◌∙◌, List, [], ◌∷◌, ◌++◌, arith, ltb, leb,
  if◌then◌else◌, false, append_regroup, append-nil, ◌==◌, ap,
}
use xitao.Prelude.Int.{ℤ, pos, pos_part, ◌+ℤ◌, ◌-ℤ◌, ◌*ℤ◌, int_laws}
use xitao.ParFor.{ParForTask, Call, make_task, iterations, looper, execute_static, run_static}
use xitao.Prelude.Result.{ok}
use xitao.ParFor.Made.{make_task-inv}
use xitao.ParFor.Span.{span}
use xitao.ParFor.Blocks.{offset, block_step}

-- What the scheduler writes into the task before the threads run it.
abbrev pub placed : ParForTask → ℕ → ℕ → ParForTask
placed p leader width = record p { leader = pos leader; width = width }

*ℤ-pos : (a b : ℕ) → pos a *ℤ pos b ≡ pos (a * b)
unfolding ◌*ℤ◌
*ℤ-pos a b = ground arith

abbrev static_call : ParForTask → ℕ → ℕ → ℕ → Call
static_call p l w k = record {
  lo = p.start +ℤ pos (k * (p.size / w));
  hi = if leb (w - 1) k then p.end else p.start +ℤ pos (k * (p.size / w)) +ℤ pos (p.size / w);
  thread = l + k;
}

execute_static_lem :
    (p : ParForTask) (l w k : ℕ)
    → 0 < w
    → 1 ≤ p.size / w
    → execute_static (placed p l w) (l + k)
      ≡ ok (placed (record p { block_size = p.size / w }) l w, static_call p l w k)
unfolding execute_static
execute_static_lem p l w k some_width some_work =
    let id : pos (l + k) -ℤ pos l ≡ pos k = omega int_laws in
    let before : pos w -ℤ pos 1 ≡ pos (w - 1) = omega int_laws in
    let width : (w == 0) ≡ false = ground arith in
    let work : ltb (p.size / w) 1 ≡ false = ground arith in
    let z : w - 1 + 0 ≡ w - 1 = omega arith in
    let z' : k + 0 ≡ k = omega arith in rw (id, before, width, work, *ℤ-pos k (p.size / w), z, z')

-- From call `k` on, with `m` calls left, the threads finish the range.
run_static-covers :
    (p : ParForTask) (l w k m : ℕ)
    → p.end ≡ p.start +ℤ pos p.size
    → 0 < w
    → 1 ≤ p.size / w
    → k + m ≡ w
    → (cs : List Call) × (run_static (placed p l w) (l + k) m ≡ ok cs)
      × (span p.start (offset w (p.size / w) p.size k) ++ iterations cs ≡ span p.start p.size)
unfolding run_static iterations
run_static-covers p l w k zero ends some_width work e =
    let done : offset w (p.size / w) p.size k ≡ p.size = ground arith in
    ([], refl, append-nil _ ∙ ap (span p.start) done)
run_static-covers p l w k (suc m) ends some_width work e =
    let b : ℕ = p.size / w in
    let call : Call = static_call p l w k in
    let below : k < w = omega arith in
    let next : suc k + m ≡ w = omega arith in
    let shift : l + k + 1 ≡ l + suc k = omega arith in
    let fits : (w - 1) * b ≤ p.size = grind arith in
    let hi =
      ap (λ (end : ℤ). if leb (w - 1) k then end else p.start +ℤ pos (k * b) +ℤ pos b) ends in
    let covered = block_step p.start call.hi w b p.size k below fits hi in
    let (cs, runs, rest) =
      run_static-covers (record p { block_size = b }) l w (suc k) m ends some_width work next in
    (
      call ∷ cs,
      rw (execute_static_lem p l w k some_width work, shift, runs),
      append_regroup (span p.start (offset w b p.size k)) (looper call.lo call.hi) (iterations cs)
          covered rest,
    )

-- A static loop task that the constructor accepts, run by the threads of its place, of which
-- there is at least one and at most as many as iterations, stops with no error and visits each
-- iteration of the range once, in order.
pub static-visits_range :
    (start end : ℤ) (made leader width : ℕ) (p : ParForTask)
    → make_task (pos 0) start end made ≡ ok p
    → 0 < width
    → width ≤ pos_part (end -ℤ start)
    → (cs : List Call) × (run_static (placed p leader width) leader width ≡ ok cs)
      × (iterations cs ≡ span start (pos_part (end -ℤ start)))
unfolding span
static-visits_range start end made leader width p e some_width enough =
    let (r, ends, _, some) = make_task-inv (pos 0) start end made p e in
    let full : p.end ≡ p.start +ℤ pos p.size = rw (r.starts, r.ends, r.sized) ends in
    let work : 1 ≤ p.size / width = rw r.sized (grind arith) in
    let none_before : offset width (p.size / width) p.size 0 ≡ 0 = ground arith in
    let at_start : leader + 0 ≡ leader = omega arith in
    let (cs, runs, covers) =
      run_static-covers p leader width 0 width full some_width work (omega arith) in
    let all : iterations cs ≡ span p.start p.size = rw none_before at covers in
    (cs, rw at_start at runs, all ∙ λ i. span (r.starts i) (r.sized i))
