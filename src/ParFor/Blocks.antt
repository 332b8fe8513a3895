-- ===== src/ParFor/Blocks.antt =====
-- A range of `size` integers in `n` blocks of `b`, the last of which takes what is left: the
-- arithmetic that the static branch, the dynamic branch and the split into tasks share.
use xitao.Prelude.{
  ℕ, suc, ◌+◌, ◌-◌, ◌*◌, ◌≤◌, ◌<◌, ◌≡◌, ◌∙◌, ◌++◌, arith, ltb, leb, if◌then◌else◌, true, false,
  dec_lt, ap,
}
use xitao.Prelude.Int.{ℤ, pos, ◌+ℤ◌, int_laws}
use xitao.ParFor.{looper}
use xitao.ParFor.Span.{span, span-append, looper-span}

-- How many integers the blocks below `k` cover.
abbrev pub offset : ℕ → ℕ → ℕ → ℕ → ℕ
offset n b size k = if ltb k n then k * b else size

-- A looper that begins `m` behind `start` extends a run of length `m`.
pub span-looper :
    (start : ℤ) (m k : ℕ) (hi : ℤ)
    → hi ≡ start +ℤ pos m +ℤ pos k
    → span start m ++ looper (start +ℤ pos m) hi ≡ span start (m + k)
span-looper start m k hi e = rw (e, looper-span, span-append start m k)

pub block_step :
    (start hi : ℤ) (n b size k : ℕ)
    → k < n
    → (n - 1) * b ≤ size
    → hi ≡ (if leb (n - 1) k then start +ℤ pos size else start +ℤ pos (k * b) +ℤ pos b)
    → span start (offset n b size k) ++ looper (start +ℤ pos (k * b)) hi
      ≡ span start (offset n b size (suc k))
block_step start hi n b size k below fits e = elim (dec_lt (suc k) n) [
  | yes more ↦
      let inner : ltb k n ≡ true = ground arith in
      let next : ltb (suc k) n ≡ true = ground arith in
      let middle : leb (n - 1) k ≡ false = ground arith in
      let step : suc k * b ≡ k * b + b = omega arith in
      let e' : hi ≡ start +ℤ pos (k * b) +ℤ pos b = rw middle at e in
      rw (inner, next, step) (span-looper start (k * b) b hi e')
  | no last ↦
      let inner : ltb k n ≡ true = ground arith in
      let next : ltb (suc k) n ≡ false = ground arith in
      let final : leb (n - 1) k ≡ true = ground arith in
      let is_last : n - 1 ≡ k = omega arith in
      let room : k * b ≤ size = rw is_last at fits in
      let rest : start +ℤ pos size ≡ start +ℤ pos (k * b) +ℤ pos (size - k * b) = omega int_laws in
      let whole : k * b + (size - k * b) ≡ size = omega arith in
      let e' : hi ≡ start +ℤ pos size = rw final at e in
      rw (inner, next)
        (span-looper start (k * b) (size - k * b) hi (e' ∙ rest) ∙ ap (span start) whole)
]
