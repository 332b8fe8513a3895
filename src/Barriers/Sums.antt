-- ===== src/Barriers/Sums.antt =====
-- Sums over the threads of the barrier, and the invariant that they make.
use xitao.Prelude.{
  ℕ, zero, suc, ◌+◌, ◌≤◌, ◌<◌, ◌≡◌, sym, ap, ◌⊎◌, ◌==◌, ◌%◌, if◌then◌else◌, arith, ℕ_discrete,
}
use xitao.Prelude.Family.{update, update_same, update_other, sum, sum-moved}
use xitao.Barriers.{
  WaitPoint, outside, loaded, spinning, resetting, releasing, SpinBarrier, int_range,
}

-- 1 for a thread that has arrived in the round `g`.
abbrev pub in_round : ℕ → WaitPoint → ℕ
in_round g outside = 0
in_round g (loaded l) = 0
in_round g (spinning l) = if l == g % int_range then 1 else 0
in_round g (resetting l) = 1
in_round g (releasing l) = 1

abbrev pub is_resetting : WaitPoint → ℕ
is_resetting (resetting l) = 1
is_resetting _ = 0

abbrev pub is_releasing : WaitPoint → ℕ
is_releasing (releasing l) = 1
is_releasing _ = 0

-- How the counts of a thread belong to its place, in round `g`.
abbrev pub IsAt : ℕ → WaitPoint → ℕ → ℕ → Type 0
IsAt g outside arrived left = (arrived ≡ g) × (left ≡ g)
IsAt g (loaded l) arrived left = (l ≡ g % int_range) × (arrived ≡ g) × (left ≡ g)
IsAt g (spinning l) arrived left =
    (l ≡ left % int_range) × (arrived ≡ suc left) × ((left ≡ g) ⊎ (suc left ≡ g))
IsAt g (resetting l) arrived left = (arrived ≡ suc g) × (left ≡ g)
IsAt g (releasing l) arrived left = (arrived ≡ suc g) × (left ≡ g)

pub in_round_le : (g : ℕ) (p : WaitPoint) → in_round g p ≤ 1
in_round_le g outside = omega arith
in_round_le g (loaded l) = omega arith
in_round_le g (spinning l) = ground arith
in_round_le g (resetting l) = omega arith
in_round_le g (releasing l) = omega arith

-- What the counter says: the threads that have arrived are counted; or all have, and one of them is
-- about to reset the counter; or it has, and is about to release the others.
pub data Mode (n nwait arrivals resets releases : ℕ) : Type 0 where
  filling :
      nwait ≡ arrivals
      → arrivals < n
      → resets ≡ 0
      → releases ≡ 0
      → Mode n nwait arrivals resets releases
  full :
      nwait ≡ n → arrivals ≡ n → resets ≡ 1 → releases ≡ 0 → Mode n nwait arrivals resets releases
  emptied :
      nwait ≡ 0 → arrivals ≡ n → resets ≡ 0 → releases ≡ 1 → Mode n nwait arrivals resets releases

abbrev pub over : ℕ → (WaitPoint → ℕ) → (ℕ → WaitPoint) → ℕ
over n w places = sum n (λ t. w (places t))

-- The rounds so far are counted without a bound; the step is their number as an `int`.
pub record IsSound (s : SpinBarrier) : Type 0 where
  pub round : ℕ
  pub fits : s.nthreads < int_range
  pub step : s.step_atmc ≡ round % int_range
  pub at : (t : ℕ) → t < s.nthreads → IsAt round (s.place t) (s.arrived t) (s.left t)
  pub mode :
      Mode s.nthreads s.nwait_atmc
        (over s.nthreads (in_round round) s.place)
        (over s.nthreads is_resetting s.place)
        (over s.nthreads is_releasing s.place)

-- A thread moves from one place to another.
pub over-update :
    (n t : ℕ) (w : WaitPoint → ℕ) (places : ℕ → WaitPoint) (p : WaitPoint)
    → t < n
    → over n w places + w p ≡ over n w (update places t p) + w (places t)
over-update n t w places p row =
    let moved =
      sum-moved n t (λ k. w (places k)) (λ k. w (update places t p k)) row
        (λ k ne. ap w (sym (update_other places t k p ne))) in
    let there : w (update places t p t) ≡ w p = ap w (update_same places t p) in
    omega (arith, moved, there)

-- If no entry is above 1 and one is 0, the sum is below the number of entries.
pub sum-lt :
    (n t : ℕ) (counts : ℕ → ℕ) → ((k : ℕ) → counts k ≤ 1) → t < n → counts t ≡ 0 → sum n counts < n
unfolding sum
sum-lt zero t counts small row none = absurd (omega arith)
sum-lt (suc n) t counts small row none = elim (ℕ_discrete t n) [
  | yes here ↦
      let last : counts n ≡ 0 = rw here at none in omega (arith, last, sum-le_bound n counts small)
  | no there ↦ omega (arith, small n, sum-lt n t counts small (omega arith) none)
]
  where
    sum-le_bound : (m : ℕ) (f : ℕ → ℕ) → ((k : ℕ) → f k ≤ 1) → sum m f ≤ m
    sum-le_bound zero f below = omega arith
    sum-le_bound (suc m) f below = omega (arith, below m, sum-le_bound m f below)

-- A sum below the number of entries has an entry that is 0.
pub sum-gap : (n : ℕ) (counts : ℕ → ℕ) → sum n counts < n → (t : ℕ) × (t < n) × (counts t ≡ 0)
unfolding sum
sum-gap zero counts below = absurd (omega arith)
sum-gap (suc n) counts below = elim (ℕ_discrete (counts n) 0) [
  | yes here ↦ (n, omega arith, here)
  | no some ↦ let (t, row, none) = sum-gap n counts (omega arith) in (t, omega arith, none)
]
