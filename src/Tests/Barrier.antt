-- ===== src/Tests/Barrier.antt =====
-- A run of the spinning barrier (src/barriers.cpp).
use xitao.Prelude.{ℕ, ◌≤◌, ◌<◌, ◌≡◌, refl, List, [], ◌∷◌, All, arith}
use xitao.Barriers.{new_barrier, leave, turn, turn_at, run_turns}
use xitao.Barriers.Meeting.{IsFree, after, leaves-after_arrivals, new_barrier-never_stuck}

-- Thread 0 arrives and spins; thread 1 comes last, resets the counter, releases thread 0 and comes
-- again before thread 0 leaves.
abbrev meeting : List ℕ
meeting = 0 ∷ 0 ∷ 0 ∷ 1 ∷ 1 ∷ 1 ∷ 1 ∷ 1 ∷ 1 ∷ 0 ∷ []

both_known : All (λ k. k < 2) meeting
both_known = (
  omega arith,
  (
    omega arith,
    (
      omega arith,
      (
        omega arith,
        (
          omega arith,
          (omega arith, (omega arith, (omega arith, (omega arith, (omega arith, tt))))),
        ),
      ),
    ),
  ),
)

left_once : (after 2 meeting).left 0 ≡ 1
unfolding run_turns new_barrier leave turn turn_at
left_once = refl

leaves-after_arrivals_example : (after 2 meeting).left 0 ≤ (after 2 meeting).arrived 1
leaves-after_arrivals_example =
    leaves-after_arrivals 2 meeting 0 1 (omega arith) (omega arith) both_known (omega arith)
      (omega arith)

new_barrier-never_stuck_example : (t : ℕ) × (t < 2) × IsFree (after 2 meeting) t
new_barrier-never_stuck_example =
    new_barrier-never_stuck 2 meeting (omega arith) (omega arith) both_known
