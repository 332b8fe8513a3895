-- ===== src/Barriers/Meeting.antt =====
-- `spin_barrier::wait` (src/barriers.cpp) under every order of the accesses of the threads.
use xitao.Prelude.{
  ℕ, zero, suc, ◌+◌, ◌%◌, ◌≤◌, ◌<◌, ◌≡◌, ◌≢◌, refl, sym, ◌∙◌, subst, List, [], ◌∷◌, ◌⊎◌, inl, inr,
  ◌==◌, arith, ℕ_discrete, All, Bool-cases,
}
use xitao.Prelude.Family.{sum, sum-none}
use xitao.Barriers.{
  WaitPoint, outside, loaded, spinning, resetting, releasing, SpinBarrier, new_barrier, leave, turn,
  turn_at, run_turns, int_range,
}
use xitao.Barriers.Sums.{
  in_round, is_resetting, is_releasing, IsAt, filling, full, emptied, IsSound, sum-gap,
}
use xitao.Barriers.Turns.{turn-IsSound}

turn_at-nthreads : (p : WaitPoint) (t : ℕ) (s : SpinBarrier) → (turn_at p t s).nthreads ≡ s.nthreads
unfolding turn_at leave
turn_at-nthreads outside t s = refl
turn_at-nthreads (loaded l) t s = refl
turn_at-nthreads (spinning l) t s = elim (Bool-cases (s.step_atmc == l)) [
  | inl same ↦ rw same refl
  | inr passed ↦ rw passed refl
]
turn_at-nthreads (resetting l) t s = refl
turn_at-nthreads (releasing l) t s = refl

run_turns-IsSound :
    (n : ℕ) (turns : List ℕ) (s : SpinBarrier)
    → s.nthreads ≡ n
    → All (λ t. t < n) turns
    → IsSound s
    → IsSound (run_turns turns s) × ((run_turns turns s).nthreads ≡ n)
unfolding run_turns turn
run_turns-IsSound n [] s same known h = (h, same)
run_turns-IsSound n (t ∷ ts) s same (row, known) h =
    run_turns-IsSound n ts (turn t s) (turn_at-nthreads (s.place t) t s ∙ same) known
      (turn-IsSound t s (rw same row) h)

new_barrier-IsSound : (n : ℕ) → 0 < n → n < int_range → IsSound (new_barrier n)
unfolding new_barrier
new_barrier-IsSound n some fits = record {
  round = 0;
  fits = fits;
  step = refl;
  at = λ t row. (refl, refl);
  mode = filling (sym (nobody n)) (omega (arith, nobody n)) (nobody n) (nobody n);
}
  where
    nobody : (m : ℕ) → sum m (λ _. 0) ≡ 0
    nobody m = sum-none m (λ _. 0) (λ k row. refl)

abbrev pub after : ℕ → List ℕ → SpinBarrier
after n turns = run_turns turns (new_barrier n)

sound :
    (n : ℕ) (turns : List ℕ)
    → 0 < n
    → n < int_range
    → All (λ t. t < n) turns
    → IsSound (after n turns) × ((after n turns).nthreads ≡ n)
unfolding new_barrier
sound n turns some fits known =
    run_turns-IsSound n turns (new_barrier n) refl known (new_barrier-IsSound n some fits)

has_arrived : (g : ℕ) (p : WaitPoint) (a f : ℕ) → IsAt g p a f → g ≤ a
has_arrived g outside a f (x, y) = omega arith
has_arrived g (loaded l) a f (x, y, z) = omega arith
has_arrived g (spinning l) a f (x, y, inl z) = omega arith
has_arrived g (spinning l) a f (x, y, inr z) = omega arith
has_arrived g (resetting l) a f (x, y) = omega arith
has_arrived g (releasing l) a f (x, y) = omega arith

has_left : (g : ℕ) (p : WaitPoint) (a f : ℕ) → IsAt g p a f → f ≤ g
has_left g outside a f (x, y) = omega arith
has_left g (loaded l) a f (x, y, z) = omega arith
has_left g (spinning l) a f (x, y, inl z) = omega arith
has_left g (spinning l) a f (x, y, inr z) = omega arith
has_left g (resetting l) a f (x, y) = omega arith
has_left g (releasing l) a f (x, y) = omega arith

-- Under every order of the atomic accesses of the threads of a spinning barrier, whose number is
-- an `unsigned int` other than 0, a thread that has left the barrier k times finds that every
-- thread has arrived there k times or more, however often the barrier is used and its step wraps
-- around.
pub leaves-after_arrivals :
    (n : ℕ) (turns : List ℕ) (t u : ℕ)
    → 0 < n
    → n < int_range
    → All (λ k. k < n) turns
    → t < n
    → u < n
    → (after n turns).left t ≤ (after n turns).arrived u
leaves-after_arrivals n turns t u some fits known row_t row_u =
    let (h, same) = sound n turns some fits known in
    let s = after n turns in
    omega (
      arith,
      has_left h.round (s.place t) (s.arrived t) (s.left t) (h.at t (rw same row_t)),
      has_arrived h.round (s.place u) (s.arrived u) (s.left u) (h.at u (rw same row_u)),
    )

-- Thread `t` does not spin on the current step.
abbrev pub IsFree : SpinBarrier → ℕ → Type 0
IsFree s t = s.place t ≢ spinning s.step_atmc

moving :
    (step g : ℕ) (p : WaitPoint)
    → step ≡ g % int_range
    → (in_round g p ≡ 0) ⊎ (0 < is_resetting p + is_releasing p)
    → p ≢ spinning step
moving step g p now (inl none) e =
    let waits : in_round g (spinning step) ≡ 0 =
      subst (λ (q : WaitPoint). in_round g q ≡ 0) e none in
    absurd (ground arith)
moving step g p now (inr busy) e =
    let idle = subst (λ (q : WaitPoint). 0 < is_resetting q + is_releasing q) e busy in
    absurd (omega arith)

sum-some : (n : ℕ) (counts : ℕ → ℕ) → 0 < sum n counts → (t : ℕ) × (t < n) × (0 < counts t)
unfolding sum
sum-some zero counts some = absurd (omega arith)
sum-some (suc n) counts some = elim (ℕ_discrete (counts n) 0) [
  | yes none ↦ let (t, row, here) = sum-some n counts (omega arith) in (t, omega arith, here)
  | no here ↦ (n, omega arith, omega arith)
]

IsFree-thread : (s : SpinBarrier) → IsSound s → (t : ℕ) × (t < s.nthreads) × IsFree s t
IsFree-thread s h = elim h.mode [
  | filling x few z u ↦
      let (t, row, none) = sum-gap s.nthreads (λ k. in_round h.round (s.place k)) few in
      (t, row, moving s.step_atmc h.round (s.place t) h.step (inl none))
  | full x y one u ↦
      let (t, row, here) = sum-some s.nthreads (λ k. is_resetting (s.place k)) (omega arith) in
      (t, row, moving s.step_atmc h.round (s.place t) h.step (inr (omega arith)))
  | emptied x y z one ↦
      let (t, row, here) = sum-some s.nthreads (λ k. is_releasing (s.place k)) (omega arith) in
      (t, row, moving s.step_atmc h.round (s.place t) h.step (inr (omega arith)))
]

-- Under every order of the accesses of its threads, whose number is an `unsigned int` other than
-- 0, a spinning barrier is never stuck: some thread of it does not spin on the current step, also
-- when the step has wrapped around.
pub new_barrier-never_stuck :
    (n : ℕ) (turns : List ℕ)
    → 0 < n
    → n < int_range
    → All (λ k. k < n) turns
    → (t : ℕ) × (t < n) × IsFree (after n turns) t
new_barrier-never_stuck n turns some fits known =
    let (h, same) = sound n turns some fits known in
    let (t, row, free) = IsFree-thread (after n turns) h in (t, rw same at row, free)
