-- ===== src/Barriers/Modes.antt =====
-- The counter of the spinning barrier (src/barriers.cpp) as its threads move.
use xitao.Prelude.{ℕ, suc, ◌-◌, ◌%◌, ◌<◌, ◌≡◌, ◌≢◌, refl, subst, inr, arith, ℕ_discrete}
use xitao.Barriers.{WaitPoint, outside, loaded, spinning, resetting, releasing, int_range}
use xitao.Barriers.Sums.{in_round, is_resetting, is_releasing, IsAt, Mode, filling, full, emptied}

-- The threads other than `t` stay where they are.
pub at-moved :
    (g n t : ℕ) (pl pl' : ℕ → WaitPoint) (ar ar' lf lf' : ℕ → ℕ)
    → ((k : ℕ) → t ≢ k → pl' k ≡ pl k)
    → ((k : ℕ) → t ≢ k → ar' k ≡ ar k)
    → ((k : ℕ) → t ≢ k → lf' k ≡ lf k)
    → ((k : ℕ) → k < n → t ≢ k → IsAt g (pl k) (ar k) (lf k))
    → IsAt g (pl' t) (ar' t) (lf' t)
    → (k : ℕ) → k < n
    → IsAt g (pl' k) (ar' k) (lf' k)
at-moved g n t pl pl' ar ar' lf lf' ep ea el old new k row = elim (ℕ_discrete t k) [
  | yes here ↦ subst (λ (j : ℕ). IsAt g (pl' j) (ar' j) (lf' j)) here new
  | no there ↦ rw (ep k there, ea k there, el k there) (old k row there)
]

-- How the counter goes on when a thread moves, arrives, resets it or releases the others.
module _ (n w a r l a' r' l' : ℕ) where
  pub Mode-stays : Mode n w a r l → a' ≡ a → r' ≡ r → l' ≡ l → Mode n w a' r' l'
  Mode-stays (filling x y z u) ea er el =
      filling (omega arith) (omega arith) (omega arith) (omega arith)
  Mode-stays (full x y z u) ea er el = full (omega arith) (omega arith) (omega arith) (omega arith)
  Mode-stays (emptied x y z u) ea er el =
      emptied (omega arith) (omega arith) (omega arith) (omega arith)

  pub Mode-last :
      Mode n w a r l
      → a < n
      → w ≡ n - 1
      → a' ≡ suc a
      → r' ≡ suc r
      → l' ≡ l
      → Mode n (suc w) a' r' l'
  Mode-last (filling x y z u) few last ea er el =
      full (omega arith) (omega arith) (omega arith) (omega arith)
  Mode-last (full x y z u) few last ea er el = absurd (omega arith)
  Mode-last (emptied x y z u) few last ea er el = absurd (omega arith)

  pub Mode-more :
      Mode n w a r l → a < n → w ≢ n - 1 → a' ≡ suc a → r' ≡ r → l' ≡ l → Mode n (suc w) a' r' l'
  Mode-more (filling x y z u) few more ea er el =
      filling (omega arith) (omega arith) (omega arith) (omega arith)
  Mode-more (full x y z u) few more ea er el = absurd (omega arith)
  Mode-more (emptied x y z u) few more ea er el = absurd (omega arith)

  pub Mode-reset : Mode n w a r l → 0 < r → a' ≡ a → suc r' ≡ r → l' ≡ suc l → Mode n 0 a' r' l'
  Mode-reset (filling x y z u) some ea er el = absurd (omega arith)
  Mode-reset (full x y z u) some ea er el = emptied refl (omega arith) (omega arith) (omega arith)
  Mode-reset (emptied x y z u) some ea er el = absurd (omega arith)

  pub Mode-release :
      Mode n w a r l → 0 < l → a' ≡ 0 → r' ≡ r → suc l' ≡ l → 0 < n → Mode n w a' r' l'
  Mode-release (filling x y z u) some ea er el some_thread = absurd (omega arith)
  Mode-release (full x y z u) some ea er el some_thread = absurd (omega arith)
  Mode-release (emptied x y z u) some ea er el some_thread =
      filling (omega arith) (omega arith) (omega arith) (omega arith)

pub Mode-emptied : (n w a r l : ℕ) → Mode n w a r l → 0 < l → (w ≡ 0) × (a ≡ n) × (r ≡ 0) × (l ≡ 1)
Mode-emptied n w a r l (filling x y z u) some = absurd (omega arith)
Mode-emptied n w a r l (full x y z u) some = absurd (omega arith)
Mode-emptied n w a r l (emptied x y z u) some = (x, y, z, u)

-- While a thread is missing, the counter is below their number.
pub Mode-bound : (n w a r l : ℕ) → Mode n w a r l → a < n → w < n
Mode-bound n w a r l (filling x y z u) few = omega arith
Mode-bound n w a r l (full x y z u) few = absurd (omega arith)
Mode-bound n w a r l (emptied x y z u) few = omega arith

-- A thread that waits in round `g` is behind once the round is over.
pub passes :
    (g a f : ℕ) (p : WaitPoint)
    → IsAt g p a f
    → 0 < in_round g p
    → is_resetting p ≡ 0
    → is_releasing p ≡ 0
    → IsAt (suc g) p a f × (in_round (suc g) p ≡ 0)
passes g a f outside at waits no_reset no_release = absurd (omega arith)
passes g a f (loaded l) at waits no_reset no_release = absurd (omega arith)
passes g a f (spinning l) (mine, c, near) waits no_reset no_release =
    let now : l ≡ g % int_range = ground arith in ((mine, c, inr (omega arith)), ground arith)
passes g a f (resetting l) at waits no_reset no_release = absurd (omega arith)
passes g a f (releasing l) at waits no_reset no_release = absurd (omega arith)
