-- ===== src/Trace/Cuts.antt =====
-- Where the tool of loi/krd_trace.c cuts a trace into partitions.
use xitao.Prelude.{
  ℕ, zero, suc, ◌+◌, ◌-◌, ◌*◌, ◌/◌, ◌≤◌, ◌<◌, ◌≡◌, refl, ◌∙◌, sym, ap, Bool, true, false, List, [],
  ◌∷◌, length, ltb, if◌then◌else◌, arith, Bool-cases, inl, inr, ◌&&◌, dec_lt,
}
use native.Mathlib.Nat.{div-mul-le_self, div-eq_of_lt, lt-div-mul-add}
use xitao.Prelude.Int.{ℤ, pos, negsuc, pos_part, ltb_ℤ, eqb_ℤ, ◌-ℤ◌}
use xitao.Prelude.Result.{ok}
use xitao.Trace.Partition.{Range, first_range, next_access, advance_warmup, cut_loop, cut_trace}

no_bytes : (size : ℤ) → ltb_ℤ size (pos 0) ≡ true → pos_part size ≡ 0
no_bytes (pos n) negative = absurd (ground arith)
no_bytes (negsuc n) negative = refl

product_of_split : (a b size : ℕ) → a ≤ b → a * size + (b - a) * size ≡ b * size
product_of_split a b size le =
    let split : a + (b - a) ≡ b = omega arith in
    let product = ap (λ (t : ℕ). t * size) split in omega arith

below_of_product : (a b size : ℕ) → a * size < b * size → a < b
below_of_product a b size less = elim (dec_lt a b) [
  | yes below ↦ below
  | no above ↦ absurd (let more = product_of_split b a size (omega arith) in omega arith)
]

cut_reached :
    (count p_p : ℕ) (partition : ℤ)
    → (ltb_ℤ (pos 0) partition && ltb count (p_p / pos_part partition)) ≡ true
    → suc count * pos_part partition ≤ p_p
cut_reached count p_p partition cut =
    let size : ℕ = pos_part partition in
    let enough : suc count ≤ p_p / size = ground arith in
    let product = product_of_split (suc count) (p_p / size) size enough in
    let least = div-mul-le_self p_p size in omega arith

-- An access of at most a partition takes the quotient up by one at most.
div_step :
    (bytes access size : ℕ)
    → 0 < size
    → access ≤ size
    → (bytes / size ≤ (bytes + access) / size) × ((bytes + access) / size ≤ suc (bytes / size))
div_step bytes access size some_size small =
    let q : ℕ = bytes / size in
    let q' : ℕ = (bytes + access) / size in
    let low = div-mul-le_self bytes size in
    let high = lt-div-mul-add {a = bytes} some_size in
    let low' = div-mul-le_self (bytes + access) size in
    let high' = lt-div-mul-add {a = bytes + access} some_size in
    let up = below_of_product q (suc q') size (omega arith) in
    let down = below_of_product q' (suc (suc q)) size (omega arith) in (omega arith, omega arith)

small_positive : (partition : ℤ) → ltb_ℤ (pos 0) partition ≡ true → 0 < pos_part partition
small_positive partition positive = ground arith

-- The count after an access that is not larger than a partition.
count_step :
    (count bytes access : ℕ) (partition : ℤ)
    → ltb_ℤ (pos 0) partition ≡ true
    → access ≤ pos_part partition
    → count ≡ bytes / pos_part partition
    → (if ltb_ℤ (pos 0) partition && ltb count ((bytes + access) / pos_part partition)
        then suc count
        else count)
      ≡ (bytes + access) / pos_part partition
count_step count bytes access partition positive small e =
    let some_size : 0 < pos_part partition = ground arith in
    let (low, high) = div_step bytes access (pos_part partition) some_size small in ground arith

module _ (sizes : ℕ → ℤ) (num_elems : ℕ)
    (ended : (k : ℕ) → num_elems ≤ k → ltb_ℤ (sizes k) (pos 0) ≡ false) where
  -- The bytes that the first `n` entries access.
  unfoldable pub bytes_to : ℕ → ℕ
  bytes_to zero = 0
  bytes_to (suc k) = bytes_to k + pos_part (sizes k)

  next_access-finds :
      (rounds k : ℕ)
      → num_elems < k + rounds
      → 0 < rounds
      → (k' : ℕ) × (next_access sizes rounds k ≡ ok k')
        × (k ≤ k')
        × (bytes_to k' ≡ bytes_to k)
        × (k ≤ num_elems → k' ≤ num_elems)
  unfolding next_access bytes_to
  next_access-finds zero k fuel some = absurd (omega arith)
  next_access-finds (suc rounds) k fuel some = elim (Bool-cases (ltb_ℤ (sizes k) (pos 0))) [
    | inr access ↦ (k, rw access refl, omega arith, refl, λ h. h)
    | inl negative ↦ elim (Bool-cases (ltb k num_elems)) [
      | inr behind ↦ absurd (let e = ended k (ground arith) in cc)
      | inl within ↦
          let below : k < num_elems = ground arith in
          let (k', runs, more, bytes, most) =
            next_access-finds rounds (suc k) (omega arith) (omega arith) in
          let none = no_bytes (sizes k) negative in
          (k', rw negative runs, omega arith, omega (arith, bytes, none), λ h. most (omega arith))
    ]
  ]

  advance_warmup_ends :
      (warmup : ℤ) (p_p w w_p : ℕ)
      → (a : ℕ × ℕ) × (advance_warmup sizes (suc num_elems) warmup p_p w w_p ≡ ok a)
  unfolding advance_warmup
  advance_warmup_ends warmup p_p w w_p = elim (Bool-cases (ltb_ℤ warmup (pos p_p -ℤ pos w_p))) [
    | inr near ↦ ((w, w_p), rw near refl)
    | inl far ↦
        let (w', runs, more, bytes, most) =
          next_access-finds (suc num_elems) (suc w) (omega arith) (omega arith) in
        ((w', w_p + pos_part (sizes w)), rw far (rw runs refl))
  ]

  -- The ranges behind number `count`, in their order: each is cut at an entry of the trace by which
  -- its number times the partition has been accessed.
  abbrev pub AreCuts : ℤ → ℕ → List Range → Type 0
  AreCuts partition count [] = Unit
  AreCuts partition count (r ∷ rest) =
      (r.number ≡ suc count)
      × (r.p < num_elems)
      × (suc count * pos_part partition ≤ bytes_to (suc r.p))
      × AreCuts partition (suc count) rest

  -- No access is larger than a partition.
  abbrev pub IsSmall : ℤ → Type 0
  IsSmall partition =
      (ltb_ℤ (pos 0) partition ≡ true) × ((k : ℕ) → pos_part (sizes k) ≤ pos_part partition)

  cut_loop-AreCuts :
      (rounds : ℕ) (warmup partition : ℤ) (w w_p p p_p count : ℕ)
      → num_elems < p + rounds
      → 0 < rounds
      → p_p ≡ bytes_to p
      → (ranges : List Range) × (cut_loop sizes rounds num_elems warmup partition w w_p p p_p count
          ≡ ok (ranges, count + length ranges))
        × AreCuts partition count ranges
        × (IsSmall partition
            → count ≡ p_p / pos_part partition
            → p ≤ num_elems
            → count + length ranges ≡ bytes_to num_elems / pos_part partition)
  unfolding cut_loop bytes_to
  cut_loop-AreCuts zero warmup partition w w_p p p_p count fuel some bytes = absurd (omega arith)
  cut_loop-AreCuts (suc rounds) warmup partition w w_p p p_p count fuel some bytes =
      elim (Bool-cases (ltb p num_elems)) [
        | inr done ↦
            let at_end : IsSmall partition
                → count ≡ p_p / pos_part partition
                → p ≤ num_elems
                → count + 0 ≡ bytes_to num_elems / pos_part partition =
              λ small e within.
                let last : p ≡ num_elems = ground arith in
                let whole : p_p ≡ bytes_to num_elems = bytes ∙ ap bytes_to last in
                let z : count + 0 ≡ count = omega arith in
                z ∙ e ∙ ap (λ (n : ℕ). n / pos_part partition) whole in
            ([], rw done (let z : count ≡ count + 0 = omega arith in λ i. ok ([], z i)), tt, at_end)
        | inl more ↦
            let p_p' : ℕ = p_p + pos_part (sizes p) in
            let (a, warm) = advance_warmup_ends warmup p_p' w w_p in
            let (p', next, later, same, most) =
              next_access-finds (suc num_elems) (suc p) (omega arith) (omega arith) in
            let counted : p_p' ≡ bytes_to (suc p) = ap (λ (n : ℕ). n + pos_part (sizes p)) bytes in
            let bytes' : p_p' ≡ bytes_to p' = counted ∙ sym same in
            let below : p < num_elems = ground arith in
            let cut = ltb_ℤ (pos 0) partition && ltb count (p_p' / pos_part partition) in
            elim (Bool-cases cut) [
              | inr stay ↦
                  let (ranges, runs, cuts, all) =
                    cut_loop-AreCuts rounds warmup partition a.0 a.1 p' p_p' count (omega arith)
                      (omega arith) bytes' in
                  (
                    ranges,
                    rw more (rw (warm, stay) (rw next (rw runs refl))),
                    cuts,
                    λ small e within.
                        all small
                          (rw stay at (
                            count_step count p_p (pos_part (sizes p)) partition small.0 (small.1 p)
                              e))
                          (most (omega arith)),
                  )
              | inl here ↦
                  let (ranges, runs, cuts, all) =
                    cut_loop-AreCuts rounds warmup partition a.0 a.1 p' p_p' (suc count)
                      (omega arith) (omega arith) bytes' in
                  let reached = cut_reached count p_p' partition here in
                  let total : suc count + length ranges ≡ count + suc (length ranges) =
                    omega arith in
                  (
                    record { number = suc count; w = a.0; p = p } ∷ ranges,
                    rw more (rw (warm, here) (rw next (rw runs (rw total refl)))),
                    (refl, below, omega (arith, counted, reached), cuts),
                    λ small e within.
                        sym total
                        ∙ all small
                            (rw here at (
                              count_step count p_p (pos_part (sizes p)) partition small.0
                                (small.1 p) e))
                            (most (omega arith)),
                  )
            ]
      ]

  -- On a trace with no invalidation behind its end, and a partition other than 0, the tool that
  -- cuts a trace ends, with as many rounds as there are entries and one more. It prints the range
  -- number 0, at 0, and behind it ranges numbered from 1 on, each cut at an entry of the trace by
  -- which its number times the partition has been accessed; `count` is the number of the ranges
  -- behind the first. Where the partition is positive and no access is larger than it, `count` is
  -- the quotient of all bytes accessed by the partition, so that one range more is printed.
  pub cut_trace-AreCuts :
      (rounds : ℕ) (warmup partition : ℤ)
      → num_elems < rounds
      → eqb_ℤ partition (pos 0) ≡ false
      → (ranges : List Range) × (cut_trace sizes rounds num_elems warmup partition
          ≡ ok (first_range ∷ ranges, length ranges))
        × AreCuts partition 0 ranges
        × (IsSmall partition → length ranges ≡ bytes_to num_elems / pos_part partition)
  unfolding cut_trace bytes_to
  cut_trace-AreCuts rounds warmup partition fuel some_bytes =
      let (p, runs, later, none_yet, most) =
        next_access-finds (suc num_elems) 0 (omega arith) (omega arith) in
      let (ranges, cuts_run, cuts, all) =
        cut_loop-AreCuts rounds warmup partition p 0 p 0 0 (omega arith) (omega arith)
          (sym none_yet) in
      let go_on : (ltb p num_elems && eqb_ℤ partition (pos 0)) ≡ false =
        no_zero (ltb p num_elems) some_bytes in
      let z : 0 + length ranges ≡ length ranges = omega arith in
      (
        ranges,
        rw runs (rw go_on (rw cuts_run (λ i. ok (first_range ∷ ranges, z i)))),
        cuts,
        λ small.
            sym z ∙ all small (none_of (small_positive partition small.0)) (most (omega arith)),
      )
    where
      none_of : {n : ℕ} → 0 < n → 0 ≡ 0 / n
      none_of some = sym (div-eq_of_lt some)

      no_zero : (b : Bool) {c : Bool} → c ≡ false → (b && c) ≡ false
      no_zero true e = e
      no_zero false e = refl
