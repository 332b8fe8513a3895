-- ===== src/Tasks/Pops.antt =====
-- Taking tasks from the queues of include/queue_manager.h.
use xitao.Prelude.{
  ℕ, ◌≡◌, refl, sym, ap, ◌∙◌, subst, List, [], ◌∷◌, ◌++◌, Option, none, some, Bool-cases, inl, inr,
  ℕ_discrete,
}
use xitao.Prelude.Int.{ℤ}
use xitao.Prelude.Family.{update, update_same, update_other}
use xitao.Prelude.Member.{push}
use xitao.Tasks.{
  Runtime, Settings, insert_in_ready_queue, unsnoc, molded, pop_back, try_pop_ready_task,
}

unsnoc-append : (xs : List ℕ) (x : ℕ) → unsnoc (xs ++ x ∷ []) ≡ some (xs, x)
unfolding unsnoc
unsnoc-append [] x = refl
unsnoc-append (y ∷ xs) x = rw (unsnoc-append xs x, unsnoc) refl

molded-ready_q :
    (o : Option (ℤ × ℤ)) (task : ℕ) (s : Runtime) → (molded o task s).ready_q ≡ s.ready_q
unfolding molded
molded-ready_q none task s = refl
molded-ready_q (some (leader, width)) task s = refl

popped_lem :
    (c : Settings) (task n r : ℕ) (s : Runtime) (front : List ℕ) (rows : ℕ → List ℕ)
    → ((q : ℕ) → update s.ready_q n front q ≡ rows q)
    → ((pop_back c n r s (some (front, task))).0 ≡ some task)
      × ((q : ℕ) → (pop_back c n r s (some (front, task))).1.ready_q q ≡ rows q)
unfolding pop_back
popped_lem c task n r s front rows back = (
  refl,
  λ q. elim (Bool-cases c.use_performance_modeling) [
    | inl models ↦ rw models (
        ap (λ (f : ℕ → List ℕ). f q)
          (molded-ready_q (c.history_mold_locally r task) task
            (record s { ready_q = update s.ready_q n front }))
        ∙ back q)
    | inr plain ↦ rw plain (back q)
  ],
)

-- Taking from a ready queue into which a task was put last, whichever thread takes it, gives that
-- task and leaves every ready queue as it was before the task was put in, with and without
-- performance modelling.
pub try_pop_ready_task-insert_in_ready_queue :
    (c : Settings) (task nthread requesting_thread : ℕ) (s : Runtime)
    → ((try_pop_ready_task c nthread requesting_thread (insert_in_ready_queue task nthread s)).0
        ≡ some task)
      × ((q : ℕ)
          → (try_pop_ready_task c nthread requesting_thread
                (insert_in_ready_queue task nthread s)).1.ready_q
              q
            ≡ s.ready_q q)
unfolding try_pop_ready_task insert_in_ready_queue
try_pop_ready_task-insert_in_ready_queue c task n r s =
    let rows = push s.ready_q n task in
    let found : unsnoc (rows n) ≡ some (s.ready_q n, task) =
      ap unsnoc (update_same s.ready_q n (s.ready_q n ++ task ∷ []))
      ∙ unsnoc-append (s.ready_q n) task in
    let back : (q : ℕ) → update rows n (s.ready_q n) q ≡ s.ready_q q = λ q. elim (ℕ_discrete n q) [
      | yes here ↦
          subst (λ (k : ℕ). update rows n (s.ready_q n) k ≡ s.ready_q k) here
            (update_same rows n (s.ready_q n))
      | no there ↦
          update_other rows n q (s.ready_q n) there
          ∙ update_other s.ready_q n q (s.ready_q n ++ task ∷ []) there
    ] in
    let s' = insert_in_ready_queue task n s in
    subst
      (λ (o : Option (List ℕ × ℕ)).
        ((pop_back c n r s' o).0 ≡ some task)
        × ((q : ℕ) → (pop_back c n r s' o).1.ready_q q ≡ s.ready_q q))
      (sym found) (popped_lem c task n r s' (s.ready_q n) s.ready_q back)
