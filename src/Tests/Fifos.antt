-- ===== src/Tests/Fifos.antt =====
-- Runs of the queues (include/lfq-fifo.h, include/queue_manager.h).
use xitao.Prelude.{ℕ, ◌≡◌, refl, true, false, List, [], ◌∷◌, Option, none, some, arith}
use xitao.Prelude.Int.{pos}
use xitao.Prelude.Result.{ok, exit}
use xitao.LfQueue.{LfqNode, LfQueue, new_queue, destroy}
use xitao.LfQueue.Chain.{Holds}
use xitao.LfQueue.Operations.{new_queue-Holds}
use xitao.LfQueue.Fifo.{
  Op, pushes, drops, takes, looks, asks, nothing, taken, seen, emptiness, run_ops, list_ops,
  list_op, run_ops-refines, destroy-frees,
}
use xitao.Tasks.{Runtime, at_start, insert_task_in_assembly_queues, no_such_queue}
use xitao.Tasks.Queues.{
  with_task, insert_task_in_assembly_queues-fits, insert_task_in_assembly_queues-exits,
}

-- Task numbers from 1 on; 0 is the null pointer.
abbrev fresh_queue : LfQueue ℕ
fresh_queue = new_queue 0

abbrev calls : List (Op ℕ)
calls = takes ∷ pushes 7 ∷ pushes 8 ∷ looks ∷ takes ∷ asks ∷ drops ∷ asks ∷ []

answers :
    (list_ops 0 calls []).1
    ≡ taken none
      ∷ nothing
      ∷ nothing
      ∷ seen 7
      ∷ taken (some 7)
      ∷ emptiness false
      ∷ nothing
      ∷ emptiness true
      ∷ []
unfolding list_ops list_op
answers = refl

run_ops-refines_example :
    (s' : LfQueue ℕ) × (run_ops 0 calls (new_queue 0) ≡ ok (s', (list_ops 0 calls []).1))
    × Holds 0 s' (list_ops 0 calls []).0
run_ops-refines_example = run_ops-refines 0 calls (new_queue 0) [] (new_queue-Holds 0)

destroy-frees_example :
    (left : ℕ → Option (LfqNode ℕ)) × (destroy 0 1 (some fresh_queue.first) fresh_queue.nodes
      ≡ ok left)
    × ((a : ℕ) → left a ≡ none)
destroy-frees_example = destroy-frees 0 (new_queue 0) [] (new_queue-Holds 0)

-- Task 5 at the place of threads 2 and 3.
abbrev placed_five : Runtime
placed_five = record at_start { leader = λ _. pos 2; width = λ _. pos 2 }

insert_task_in_assembly_queues-fits_example :
    (s' : Runtime) × (insert_task_in_assembly_queues (pos 4) 5 placed_five ≡ ok s')
    × ((q : ℕ) → s'.assembly_q q ≡ with_task 5 2 2 (λ _. []) q)
insert_task_in_assembly_queues-fits_example =
    insert_task_in_assembly_queues-fits 4 5 2 2 placed_five refl refl (omega arith)

insert_task_in_assembly_queues-exits_example :
    insert_task_in_assembly_queues (pos 3) 5 placed_five ≡ exit no_such_queue
insert_task_in_assembly_queues-exits_example =
    insert_task_in_assembly_queues-exits 3 5 2 2 placed_five refl refl (omega arith) (omega arith)
