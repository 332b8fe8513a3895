-- ===== src/ParFor/Multi.antt =====
-- `xitao_vec_multiparallel` (include/xitao_api.h): a loop split into tasks of `block_size`
-- iterations.
use xitao.Prelude.{
  ℕ, zero, suc, ◌+◌, ◌-◌, ◌*◌, ◌/◌, ◌<◌, ◌≡◌, refl, ◌∙◌, sym, List, [], ◌∷◌, ◌++◌, arith, ltb, leb,
  if◌then◌else◌, true, false, append_regroup, append-nil, ◌==◌, ap, ◌⊎◌, dec_lt,
}
use xitao.Prelude.Int.{ℤ, pos, negsuc, ◌+ℤ◌, ◌-ℤ◌, int_laws, +ℤ-pos, +ℤ_sub_self}
use xitao.ParFor.{
  ParForTask, make_task, looper, switch_sched, dynamic_task, multi_from, vec_multiparallel, ranges,
}
use xitao.Prelude.Result.{ok}
use xitao.ParFor.Made.{ceiling}
use xitao.ParFor.Span.{span}
use xitao.ParFor.Blocks.{offset, block_step}

-- The two kinds of scheduling that the constructor knows.
abbrev pub IsSched : ℤ → Type 0
IsSched sched = (sched ≡ pos 0) ⊎ (sched ≡ pos 1)

switch_sched-ok :
    (sched start end : ℤ) (width size : ℕ)
    → IsSched sched
    → 0 < width
    → (p : ParForTask) × (switch_sched sched start end width size ≡ ok p)
      × (p.start ≡ start)
      × (p.end ≡ end)
unfolding switch_sched
switch_sched-ok (pos zero) start end width size known some_width = (_, refl, refl, refl)
switch_sched-ok (pos (suc zero)) start end width size known some_width =
    let no_zero : (width == 0) ≡ false = ground arith in
    (dynamic_task start end width size, rw no_zero, refl, refl)
switch_sched-ok (pos (suc (suc n))) start end width size known some_width = absurd (ground arith)
switch_sched-ok (negsuc n) start end width size known some_width = absurd (ground arith)

make_task-ok :
    (sched start end : ℤ) (width size : ℕ)
    → IsSched sched
    → 0 < width
    → 0 < size
    → end ≡ start +ℤ pos size
    → (p : ParForTask) × (make_task sched start end width ≡ ok p)
      × (p.start ≡ start)
      × (p.end ≡ end)
unfolding make_task
make_task-ok sched start end width size known some_width some_size e =
    let range : end -ℤ start ≡ pos size = rw e (+ℤ_sub_self start (pos size)) in
    let full : leb size 0 ≡ false = ground arith in
    let z : size + 0 ≡ size = omega arith in
    let (p, made, s, t) = switch_sched-ok sched start end width size known some_width in
    (p, rw (range, z, full) made, s, t)

-- The end of block `i`, as the source writes it.
abbrev block_end : ℕ → ℕ → ℕ → ℕ → ℤ
block_end e b n i = if ltb i (n - 1) then pos (i * b) +ℤ pos b else pos e

from_zero : (a : ℕ) → pos 0 +ℤ pos a ≡ pos a
from_zero a = omega int_laws

block_end-eq :
    (e b n i : ℕ)
    → block_end e b n i ≡ (if leb (n - 1) i then pos 0 +ℤ pos e else pos 0 +ℤ pos (i * b) +ℤ pos b)
block_end-eq e b n i = elim (dec_lt i (n - 1)) [
  | yes inner ↦
      let t : ltb i (n - 1) ≡ true = ground arith in
      let u : leb (n - 1) i ≡ false = ground arith in rw (t, u, from_zero (i * b))
  | no last ↦
      let t : ltb i (n - 1) ≡ false = ground arith in
      let u : leb (n - 1) i ≡ true = ground arith in rw (t, u, from_zero e)
]

block_size-pos :
    (e b n i : ℕ)
    → i < n
    → 0 < b
    → (n - 1) * b < e
    → (0 < offset n b e (suc i) - i * b)
      × (block_end e b n i ≡ pos (i * b) +ℤ pos (offset n b e (suc i) - i * b))
block_size-pos e b n i below some_block fits = elim (dec_lt i (n - 1)) [
  | yes inner ↦
      let t : ltb i (n - 1) ≡ true = ground arith in
      let u : ltb (suc i) n ≡ true = ground arith in
      let size : suc i * b - i * b ≡ b = omega arith in rw (t, u, size) (some_block, refl)
  | no last ↦
      let t : ltb i (n - 1) ≡ false = ground arith in
      let u : ltb (suc i) n ≡ false = ground arith in
      let is_last : n - 1 ≡ i = omega arith in
      let room : i * b < e = rw is_last at fits in
      let back : i * b + (e - i * b) ≡ e = omega arith in
      rw (t, u) (omega arith, sym (+ℤ-pos (i * b) (e - i * b) ∙ ap pos back))
]

-- From block `i` on, the tasks that are left complete the range.
multi_from-covers :
    (width e b n i m : ℕ) (sched : ℤ)
    → IsSched sched
    → 0 < width
    → 0 < b
    → (n - 1) * b < e
    → i + m ≡ n
    → (ps : List ParForTask) × (multi_from width (pos e) sched b n i m ≡ ok ps)
      × (span (pos 0) (offset n b e i) ++ ranges ps ≡ span (pos 0) e)
unfolding multi_from ranges
multi_from-covers width e b n i zero sched known some_width some_block fits k =
    let done : offset n b e i ≡ e = ground arith in
    ([], refl, append-nil (span (pos 0) (offset n b e i)) ∙ ap (span (pos 0)) done)
multi_from-covers width e b n i (suc m) sched known some_width some_block fits k =
    let below : i < n = omega arith in
    let next : i + 1 + m ≡ n = omega arith in
    let same : suc i ≡ i + 1 = omega arith in
    let lo : ℤ = pos (i * b) in
    let hi : ℤ = block_end e b n i in
    let (some_size, ends_at) = block_size-pos e b n i below some_block fits in
    let (p, made, starts, ends) =
      make_task-ok sched lo hi width (offset n b e (suc i) - i * b) known some_width some_size
        ends_at in
    let more = block_step (pos 0) hi n b e i below (omega arith) (block_end-eq e b n i) in
    let (ps, rest_made, rest) =
      multi_from-covers width e b n (i + 1) m sched known some_width some_block fits next in
    let first : looper p.start p.end ≡ looper (pos 0 +ℤ pos (i * b)) hi =
      (λ j. looper (starts j) (ends j)) ∙ ap (λ (a : ℤ). looper a hi) (sym (from_zero (i * b))) in
    let covered : span (pos 0) (offset n b e i) ++ looper p.start p.end
        ≡ span (pos 0) (offset n b e (i + 1)) =
      ap (λ (l : List ℤ). span (pos 0) (offset n b e i) ++ l) first
      ∙ more
      ∙ ap (λ (j : ℕ). span (pos 0) (offset n b e j)) same in
    (
      p ∷ ps,
      rw (made, rest_made),
      append_regroup (span (pos 0) (offset n b e i)) (looper p.start p.end) (ranges ps) covered
          rest,
    )

-- For a known kind of scheduling, a positive width and block size, and a range from iter_start to
-- a greater end, neither negative, `xitao_vec_multiparallel` makes tasks that together cover the
-- iterations from 0 to end, each once and in order, whatever iter_start is.
pub vec_multiparallel-ranges :
    (width a e b : ℕ) (sched : ℤ)
    → IsSched sched
    → 0 < width
    → 0 < b
    → a < e
    → (ps : List ParForTask) × (vec_multiparallel width (pos a) (pos e) sched b ≡ ok ps)
      × (ranges ps ≡ span (pos 0) e)
unfolding vec_multiparallel span
vec_multiparallel-ranges width a e b sched known some_width some_block below =
    let some : (b == 0) ≡ false = ground arith in
    let sum : pos e -ℤ pos a +ℤ pos b -ℤ pos 1 ≡ pos (e - a + b - 1) = omega int_laws in
    let n : ℕ = (e - a + b - 1) / b in
    let (c1, c2, c3) = ceiling (e - a) b (omega arith) some_block in
    let none_before : offset n b e 0 ≡ 0 = ground arith in
    let (ps, made, covers) =
      multi_from-covers width e b n 0 n sched known some_width some_block (omega arith)
        (omega arith) in
    (ps, rw (some, sum) made, rw none_before at covers)
