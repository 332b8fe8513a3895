-- ===== src/Tasks/Queues.antt =====
-- Which assembly queues `insert_task_in_assembly_queues` fills (include/queue_manager.h).
use xitao.Prelude.{
  ℕ, zero, suc, ◌+◌, ◌≤◌, ◌<◌, ◌≡◌, refl, ap, ◌∙◌, subst, true, false, ◌&&◌, List, [], ◌∷◌, ◌++◌,
  ltb, leb, if◌then◌else◌, arith, ℕ_discrete, dec_lt,
}
use xitao.Prelude.Int.{pos, ◌+ℤ◌, ltb_ℤ, leb_ℤ, +ℤ-pos}
use xitao.Prelude.Family.{update_same, update_other}
use xitao.Prelude.Member.{push}
use xitao.Prelude.Result.{ok, exit}
use xitao.Tasks.{Runtime, distribute, insert_task_in_assembly_queues, no_such_queue}

-- The queues from `l` on, `w` of them, have the task behind what they had.
abbrev pub with_task : ℕ → ℕ → ℕ → (ℕ → List ℕ) → ℕ → List ℕ
with_task task l w rows q = if leb l q && ltb q (l + w) then rows q ++ task ∷ [] else rows q

with_task-step :
    (task j n : ℕ) (rows : ℕ → List ℕ) (q : ℕ)
    → with_task task (suc j) n (push rows j task) q ≡ with_task task j (suc n) rows q
with_task-step task j n rows q = elim (ℕ_discrete j q) [
  | yes here ↦
      let hit : (leb j q && ltb q (j + suc n)) ≡ true = ground arith in
      let past : (leb (suc j) q && ltb q (suc j + n)) ≡ false = ground arith in
      rw (hit, past)
        (subst (λ (k : ℕ). push rows j task k ≡ rows k ++ task ∷ []) here
          (update_same rows j (rows j ++ task ∷ [])))
  | no elsewhere ↦
      let both : (leb (suc j) q && ltb q (suc j + n)) ≡ (leb j q && ltb q (j + suc n)) =
        ground arith in
      rw (both, update_other rows j q (rows j ++ task ∷ []) elsewhere) refl
]

distribute-fits :
    (n task m j : ℕ) (s : Runtime)
    → j + m ≤ n
    → (s' : Runtime) × (distribute (pos n) task m (pos j) s ≡ ok s')
      × ((q : ℕ) → s'.assembly_q q ≡ with_task task j m s.assembly_q q)
unfolding distribute
distribute-fits n task zero j s fits = (
  s,
  refl,
  λ q. let outside : (leb j q && ltb q (j + 0)) ≡ false = ground arith in rw outside refl,
)
distribute-fits n task (suc m) j s fits =
    let next : pos j +ℤ pos 1 ≡ pos (suc j) = +ℤ-pos j 1 ∙ ap pos (omega arith) in
    let inside : (ltb_ℤ (pos j) (pos n) && leb_ℤ (pos 0) (pos j)) ≡ true = ground arith in
    let (s', runs, rows) =
      distribute-fits n task m (suc j) (record s { assembly_q = push s.assembly_q j task })
        (omega arith) in
    (s', rw (inside, next) runs, λ q. rows q ∙ with_task-step task j m s.assembly_q q)

-- A task whose place, led by a thread that is not negative, lies within the threads is put behind
-- what the assembly queues of its place hold, with no failed assertion, and into no other queue.
pub insert_task_in_assembly_queues-fits :
    (n task l w : ℕ) (s : Runtime)
    → s.leader task ≡ pos l
    → s.width task ≡ pos w
    → l + w ≤ n
    → (s' : Runtime) × (insert_task_in_assembly_queues (pos n) task s ≡ ok s')
      × ((q : ℕ) → s'.assembly_q q ≡ with_task task l w s.assembly_q q)
unfolding insert_task_in_assembly_queues
insert_task_in_assembly_queues-fits n task l w s at wide fits =
    rw (at, wide) (distribute-fits n task w l s fits)

distribute-exits :
    (n task m j : ℕ) (s : Runtime)
    → 0 < m
    → n < j + m
    → distribute (pos n) task m (pos j) s ≡ exit no_such_queue
unfolding distribute
distribute-exits n task zero j s some past = absurd (omega arith)
distribute-exits n task (suc m) j s some past = elim (dec_lt j n) [
  | yes row ↦
      let next : pos j +ℤ pos 1 ≡ pos (suc j) = +ℤ-pos j 1 ∙ ap pos (omega arith) in
      let inside : (ltb_ℤ (pos j) (pos n) && leb_ℤ (pos 0) (pos j)) ≡ true = ground arith in
      rw (inside, next) (distribute-exits n task m (suc j) _ (omega arith) (omega arith))
  | no behind ↦
      let outside : (ltb_ℤ (pos j) (pos n) && leb_ℤ (pos 0) (pos j)) ≡ false = ground arith in
      rw outside refl
]

-- A task whose place, led by a thread that is not negative, has a positive width and reaches past
-- the last thread stops the process at the assertion.
pub insert_task_in_assembly_queues-exits :
    (n task l w : ℕ) (s : Runtime)
    → s.leader task ≡ pos l
    → s.width task ≡ pos w
    → 0 < w
    → n < l + w
    → insert_task_in_assembly_queues (pos n) task s ≡ exit no_such_queue
unfolding insert_task_in_assembly_queues
insert_task_in_assembly_queues-exits n task l w s at wide some past =
    rw (at, wide) (distribute-exits n task w l s some past)
