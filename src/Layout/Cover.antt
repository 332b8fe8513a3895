-- ===== src/Layout/Cover.antt =====
-- Which entries the loop over the threads of one place adds.
use xitao.Prelude.{
  ℕ, zero, suc, ◌+◌, ◌≤◌, ◌<◌, ◌≡◌, refl, List, ◌⊎◌, inl, inr, arith, leb, Bool-cases, subst,
  dec_lt,
}
use xitao.Prelude.Member.{In, push, In-push_to, In-push_old, In-push_new}
use xitao.Prelude.Result.{Result, ok, exit}
use xitao.Layout.{Place, LayoutExit, cover, cover_checked, max_threads, illegal_partition}

abbrev pub place : ℕ → ℕ → Place
place leader width = record { leader = leader; width = width }

pub cover_to :
    (m j i w : ℕ) (rows : ℕ → List Place) (t : ℕ) (p : Place)
    → In p (cover m j i w rows t)
    → In p (rows t) ⊎ ((place i w ≡ p) × (i + j ≤ t) × (t < i + j + m))
unfolding cover
cover_to zero j i w rows t p h = inl h
cover_to (suc m) j i w rows t p h =
    elim (cover_to m (j + 1) i w (push rows (i + j) (place i w)) t p h) [
      | inl older ↦ elim (In-push_to p (place i w) rows (i + j) t older) [
        | inl old ↦ inl old
        | inr (e, new) ↦ inr (new, omega arith, omega arith)
      ]
      | inr (e, lo, hi) ↦ inr (e, omega arith, omega arith)
    ]

pub cover_old :
    (m j i w : ℕ) (rows : ℕ → List Place) (t : ℕ) (p : Place)
    → In p (rows t)
    → In p (cover m j i w rows t)
unfolding cover
cover_old zero j i w rows t p h = h
cover_old (suc m) j i w rows t p h =
    cover_old m (j + 1) i w (push rows (i + j) (place i w)) t p
      (In-push_old p (place i w) rows (i + j) t h)

pub cover_new :
    (m j i w : ℕ) (rows : ℕ → List Place) (t : ℕ)
    → i + j ≤ t
    → t < i + j + m
    → In (place i w) (cover m j i w rows t)
unfolding cover
cover_new zero j i w rows t lo hi = absurd (omega arith)
cover_new (suc m) j i w rows t lo hi = elim (dec_lt (i + j) t) [
  | yes later ↦
      cover_new m (j + 1) i w (push rows (i + j) (place i w)) t (omega arith) (omega arith)
  | no now ↦
      let here : i + j ≡ t = omega arith in
      cover_old m (j + 1) i w (push rows (i + j) (place i w)) t (place i w) (
        subst (λ (k : ℕ). In (place i w) (push rows (i + j) (place i w) k)) here
          (In-push_new (place i w) rows (i + j)))
]

-- With the test in it, the loop ends at once or does the same within the table.
pub cover_checked-ok :
    (m j i w : ℕ) (rows rows' : ℕ → List Place)
    → cover_checked m j i w rows ≡ ok rows'
    → (rows' ≡ cover m j i w rows) × ((m ≡ 0) ⊎ (i + j + m ≤ max_threads))
unfolding cover cover_checked
cover_checked-ok zero j i w rows rows' e = (ground arith, inl refl)
cover_checked-ok (suc m) j i w rows rows' e = elim (Bool-cases (leb max_threads (i + j))) [
  | inl over ↦
      let no_rows : ◌≡◌ {A = Result LayoutExit (ℕ → List Place)} (exit illegal_partition)
          (ok rows') =
        rw over at e in
      cc
  | inr fits ↦
      let e' : cover_checked m (j + 1) i w (push rows (i + j) (place i w)) ≡ ok rows' =
        rw fits at e in
      let (same, room) = cover_checked-ok m (j + 1) i w (push rows (i + j) (place i w)) rows' e' in
      (same, inr (ground arith))
]
