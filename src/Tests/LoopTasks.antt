-- ===== src/Tests/LoopTasks.antt =====
-- Runs of the loop tasks (include/tao.h, include/xitao_api.h).
use xitao.Prelude.{count, ℕ, ◌<◌, ◌≡◌, refl, true, List, [], ◌∷◌, inl, arith}
use xitao.Prelude.Int.{pos, ◌-ℤ◌}
use xitao.Prelude.Result.{ok, exit}
use xitao.ParFor.{
  ParForTask, Call, static_task, dynamic_task, dynamic_block_size, switch_sched, make_task,
  run_static, iterations, team, run_dynamic, vec_multiparallel, ranges, no_work,
}
use xitao.ParFor.Span.{span}
use xitao.ParFor.Static.{placed, static-visits_range}
use xitao.ParFor.Dynamic.{dynamic-terminates}
use xitao.ParFor.Multi.{vec_multiparallel-ranges}

-- Ten iterations from 3 on.
abbrev ten : ParForTask
ten = static_task (pos 3) (pos 13) 1 10

made_ten : make_task (pos 0) (pos 3) (pos 13) 1 ≡ ok ten
unfolding make_task switch_sched ◌-ℤ◌
made_ten = refl

no_iterations : make_task (pos 0) (pos 7) (pos 7) 1 ≡ exit no_work
unfolding make_task ◌-ℤ◌
no_iterations = refl

static-visits_range_example :
    (cs : List Call) × (run_static (placed ten 4 4) 4 4 ≡ ok cs) × (iterations cs ≡ span (pos 3) 10)
unfolding ◌-ℤ◌
static-visits_range_example =
    static-visits_range (pos 3) (pos 13) 1 4 4 ten made_ten (omega arith) (omega arith)

-- Twenty iterations in blocks of two for a place of one thread.
abbrev twenty : ParForTask
twenty = dynamic_task (pos 0) (pos 20) 1 20

made_twenty : make_task (pos 1) (pos 0) (pos 20) 1 ≡ ok twenty
unfolding make_task switch_sched ◌-ℤ◌
made_twenty = refl

-- Threads 4 and 5 take turns until both have left.
abbrev turns : List ℕ
turns = 4 ∷ 5 ∷ 4 ∷ 4 ∷ 5 ∷ 5 ∷ 4 ∷ 4 ∷ 5 ∷ 4 ∷ 5 ∷ 4 ∷ []

abbrev alone : List ℕ
alone = 4 ∷ 4 ∷ 4 ∷ 4 ∷ 4 ∷ 4 ∷ 4 ∷ 4 ∷ 4 ∷ 4 ∷ 4 ∷ []

few_blocks : twenty.blocks < count 4 alone
unfolding dynamic_block_size
few_blocks = omega arith

dynamic-terminates_example : (run_dynamic (team twenty) alone).left 4 ≡ true
dynamic-terminates_example =
    dynamic-terminates (pos 0) (pos 20) 1 twenty alone 4 made_twenty few_blocks

-- Asked for the iterations 5 to 11 in blocks of 4: the two tasks cover 0 to 11.
vec_multiparallel-ranges_example :
    (ps : List ParForTask) × (vec_multiparallel 1 (pos 5) (pos 12) (pos 0) 4 ≡ ok ps)
    × (ranges ps ≡ span (pos 0) 12)
vec_multiparallel-ranges_example =
    vec_multiparallel-ranges 1 5 12 4 (pos 0) (inl refl) (omega arith) (omega arith) (omega arith)
