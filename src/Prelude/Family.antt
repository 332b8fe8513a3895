-- ===== src/Prelude/Family.antt =====
-- Arrays indexed by a thread or by a task, as functions: the update of one entry, and the sum of
-- the entries below a bound.
use Prim.Native.Nat.{ℕ, zero, suc, ◌+◌, ◌≤◌, ◌<◌}
use mathlib.Core.Path.{◌≡◌, refl}
use mathlib.Core.Logic.{◌≢◌}
use mathlib.Core.Bool.{true, false}
use native.Mathlib.Omega.{arith}
use native.Mathlib.Decide.{ℕ_discrete}
use xitao.Prelude.Tests.{◌==◌, if◌then◌else◌}

abbrev pub update {ℓ} : {A : Type ℓ} → (ℕ → A) → ℕ → A → ℕ → A
update rows i x k = if i == k then x else rows k

pub update_same {ℓ} : {A : Type ℓ} (rows : ℕ → A) (i : ℕ) (x : A) → update rows i x i ≡ x
update_same rows i x = let hit : (i == i) ≡ true = ground arith in rw hit refl

pub update_other {ℓ} :
    {A : Type ℓ} (rows : ℕ → A) (i k : ℕ) (x : A) → i ≢ k → update rows i x k ≡ rows k
update_other rows i k x ne = let miss : (i == k) ≡ false = ground arith in rw miss refl

unfoldable pub sum : ℕ → (ℕ → ℕ) → ℕ
sum zero counts = 0
sum (suc bound) counts = counts bound + sum bound counts

pub sum-ext :
    (bound : ℕ) (before after : ℕ → ℕ)
    → ((k : ℕ) → k < bound → before k ≡ after k)
    → sum bound before ≡ sum bound after
unfolding sum
sum-ext zero before after same = refl
sum-ext (suc bound) before after same =
    omega
      (arith, same bound (omega arith), sum-ext bound before after (λ k h. same k (omega arith)))

pub sum-none :
    (bound : ℕ) (counts : ℕ → ℕ) → ((k : ℕ) → k < bound → counts k ≡ 0) → sum bound counts ≡ 0
unfolding sum
sum-none zero counts none = refl
sum-none (suc bound) counts none =
    omega (arith, none bound (omega arith), sum-none bound counts (λ k row. none k (omega arith)))

-- Where two arrays differ at one entry only, so do their sums.
pub sum-moved :
    (bound at : ℕ) (before after : ℕ → ℕ)
    → at < bound
    → ((k : ℕ) → at ≢ k → before k ≡ after k)
    → sum bound before + after at ≡ sum bound after + before at
unfolding sum
sum-moved zero at before after row same = absurd (omega arith)
sum-moved (suc bound) at before after row same = elim (ℕ_discrete at bound) [
  | yes here ↦
      let rest = sum-ext bound before after (λ k h. same k (λ e. omega arith)) in
      rw here (omega (arith, rest))
  | no there ↦ omega (arith, same bound there, sum-moved bound at before after (omega arith) same)
]

pub le-sum : (bound k : ℕ) (counts : ℕ → ℕ) → k < bound → counts k ≤ sum bound counts
unfolding sum
le-sum zero k counts row = absurd (omega arith)
le-sum (suc bound) k counts row = elim (ℕ_discrete k bound) [
  | yes here ↦ rw here (omega arith)
  | no there ↦ omega (arith, le-sum bound k counts (omega arith))
]
