-- ===== src/ParFor/Span.antt =====
-- Runs of consecutive integers, and what `xitao_looper` visits.
use xitao.Prelude.{ℕ, zero, suc, ◌+◌, ◌≡◌, refl, List, [], ◌∷◌, ◌++◌, arith, true}
use xitao.Prelude.Int.{ℤ, pos, ◌+ℤ◌, +ℤ_parts, +ℤ-zero, +ℤ_sub_self, int_laws, ltb_ℤ}
use xitao.ParFor.{looper_rounds, looper}

-- `lo`, `lo + 1`, ..., `n` integers.
unfoldable pub span : ℤ → ℕ → List ℤ
span lo zero = []
span lo (suc n) = lo ∷ span (lo +ℤ pos 1) n

pub span-append : (lo : ℤ) (m n : ℕ) → span lo (m + n) ≡ span lo m ++ span (lo +ℤ pos m) n
unfolding span
span-append lo zero n = let e : 0 + n ≡ n = omega arith in rw (e, +ℤ-zero lo)
span-append lo (suc m) n =
    let e : suc m + n ≡ suc (m + n) = omega arith in
    let shift : lo +ℤ pos (suc m) ≡ lo +ℤ pos 1 +ℤ pos m = omega int_laws in
    rw (e, shift, span-append (lo +ℤ pos 1) m n)

looper_rounds-span : (n : ℕ) (lo : ℤ) → looper_rounds n lo (lo +ℤ pos n) ≡ span lo n
unfolding span looper_rounds
looper_rounds-span zero lo = refl
looper_rounds-span (suc n) lo =
    let inside : ltb_ℤ lo (lo +ℤ pos (suc n)) ≡ true = ground (arith, +ℤ_parts lo (pos (suc n))) in
    let shift : lo +ℤ pos (suc n) ≡ lo +ℤ pos 1 +ℤ pos n = omega int_laws in
    rw (inside, shift, looper_rounds-span n (lo +ℤ pos 1))

pub looper-span : (lo : ℤ) (n : ℕ) → looper lo (lo +ℤ pos n) ≡ span lo n
unfolding looper
looper-span lo n = rw (+ℤ_sub_self lo (pos n), looper_rounds-span n lo)
