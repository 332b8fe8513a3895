-- ===== src/Layout/Widths.antt =====
-- The widths that `prepare_default_layout` (src/xitao_ptt.cpp) collects.
use xitao.Prelude.{
  ℕ, zero, suc, ◌+◌, ◌*◌, ◌/◌, ◌%◌, ◌≤◌, ◌<◌, ◌≡◌, ◌≢◌, refl, sym, [], ◌∷◌, ◌++◌, ◌⊎◌, inl, inr,
  arith, ltb, ◌==◌, if◌then◌else◌, Bool-cases, true, subst, dec_lt, ℕ_discrete,
}
use mathlib.Core.List.{map, map-append, reverse}
use native.Mathlib.Nat.{mul-mod_right, mul-div_cancel_left}
use xitao.Prelude.Member.{
  In, In-append_to, In-append_left, In-append_right, In-reverse, In-map_to, In-map_from,
}
use xitao.Layout.{Divisors, divisors, default_widths}

-- `w` is a divisor below the square root.
record IsSmall (i n w : ℕ) : Type 0 where
  from : i ≤ w
  below : w * w < n
  divides : n % w ≡ 0

abbrev next_divisors : ℕ → ℕ → Divisors → Divisors
next_divisors i n d =
    if n % i == 0 then record { widths = d.widths ++ i ∷ []; temp = d.temp ++ (n / i) ∷ [] } else d

module _ (n w : ℕ) where
  widths_to :
      (r i : ℕ) (d : Divisors) → In w (divisors r i n d).widths → In w d.widths ⊎ IsSmall i n w
  unfolding divisors
  widths_to zero i d h = inl h
  widths_to (suc r) i d h = elim (Bool-cases (ltb (i * i) n)) [
    | inr stop ↦ inl (rw stop at h)
    | inl go ↦ elim (widths_to r (i + 1) (next_divisors i n d) (rw go at h)) [
      | inr later ↦ inr (record {
        from = omega (arith, later.from);
        below = later.below;
        divides = later.divides;
      })
      | inl now ↦ elim (Bool-cases (n % i == 0)) [
        | inr no_divisor ↦ inl (rw no_divisor at now)
        | inl divisor ↦ elim (In-append_to w d.widths (i ∷ []) (rw divisor at now)) [
          | inl old ↦ inl old
          | inr (inl new) ↦ inr (
              subst (IsSmall i n) new
                (record { from = omega arith; below = ground arith; divides = ground arith }))
          | inr (inr none) ↦ absurd none
        ]
      ]
    ]
  ]

  widths_old : (r i : ℕ) (d : Divisors) → In w d.widths → In w (divisors r i n d).widths
  unfolding divisors
  widths_old zero i d h = h
  widths_old (suc r) i d h = elim (Bool-cases (ltb (i * i) n)) [
    | inr stop ↦ rw stop h
    | inl go ↦ rw go (
        widths_old r (i + 1) (next_divisors i n d) (elim (Bool-cases (n % i == 0)) [
          | inr no_divisor ↦ rw no_divisor h
          | inl divisor ↦ rw divisor (In-append_left w d.widths (i ∷ []) h)
        ]))
  ]

  widths_new : (r i : ℕ) (d : Divisors) → w < i + r → IsSmall i n w → In w (divisors r i n d).widths
  unfolding divisors
  widths_new zero i d room s = absurd (omega (arith, s.from))
  widths_new (suc r) i d room s =
      let go : ltb (i * i) n ≡ true = grind (arith, s.from, s.below) in
      rw go (elim (ℕ_discrete i w) [
        | no other ↦
            widths_new r (i + 1) (next_divisors i n d) (omega arith)
              (record { from = omega (arith, s.from); below = s.below; divides = s.divides })
        | yes same ↦
            let divisor : (n % i == 0) ≡ true = rw same (ground (arith, s.divides)) in
            widths_old r (i + 1) (next_divisors i n d)
              (rw divisor (In-append_right w d.widths (i ∷ []) (inl same)))
      ])

-- The large divisors stand in the order of the small ones.
temp_lem :
    (n r i : ℕ) (d : Divisors)
    → d.temp ≡ map (λ w. n / w) d.widths
    → (divisors r i n d).temp ≡ map (λ w. n / w) (divisors r i n d).widths
unfolding divisors
temp_lem n zero i d e = e
temp_lem n (suc r) i d e = elim (Bool-cases (ltb (i * i) n)) [
  | inr stop ↦ rw stop e
  | inl go ↦ rw go (
      temp_lem n r (i + 1) (next_divisors i n d) (elim (Bool-cases (n % i == 0)) [
        | inr no_divisor ↦ rw no_divisor e
        | inl divisor ↦ rw (divisor, map-append, e) refl
      ]))
]

-- A width of the default layout: a divisor that is not the square root.
pub record IsWidth (n w : ℕ) : Type 0 where
  pub some_width : 0 < w
  pub divides : n % w ≡ 0
  pub no_root : w * w ≢ n

abbrev no_divisors : Divisors
no_divisors = record { widths = []; temp = [] }

pub cofactor : (n w : ℕ) → 0 < w → n % w ≡ 0 → n ≡ w * (n / w)
cofactor n w some_width e = grind arith

pub of_cofactor : (n w v : ℕ) → 0 < w → n ≡ w * v → (n % w ≡ 0) × (n / w ≡ v)
of_cofactor n w v some_width e = (rw e (mul-mod_right w v), rw e (mul-div_cancel_left v some_width))

-- The product of a divisor and its cofactor tells on which sides of the root they lie.
below_root : (w v : ℕ) → w * w < w * v → w < v
below_root w v h = elim (dec_lt w v) [ yes lt ↦ lt | no ge ↦ absurd (grind arith) ]

below_root_right : (w v : ℕ) → w * v < w * w → v < w
below_root_right w v h = elim (dec_lt v w) [ yes lt ↦ lt | no ge ↦ absurd (grind arith) ]

IsSmall-cofactor : (n w : ℕ) → IsSmall 1 n w → IsWidth n (n / w)
IsSmall-cofactor n w s =
    let v : ℕ = n / w in
    let product : n ≡ w * v = cofactor n w s.from s.divides in
    let above : w < v = below_root w v (rw product at s.below) in
    let swapped : n ≡ v * w = omega arith in
    record {
      some_width = omega arith;
      divides = (of_cofactor n v w (omega arith) swapped).0;
      no_root = λ e. grind arith;
    }

all_divisors : ℕ → Divisors
all_divisors n = divisors n 1 n no_divisors

temp-widths : (n : ℕ) → (all_divisors n).temp ≡ map (λ w. n / w) (all_divisors n).widths
unfolding all_divisors
temp-widths n = temp_lem n n 1 no_divisors refl

pub default_widths_to : (n w : ℕ) → In w (default_widths n) → IsWidth n w
unfolding default_widths all_divisors
default_widths_to n w h =
    elim (In-append_to w (all_divisors n).widths (reverse (all_divisors n).temp) h) [
      | inl low ↦ elim (widths_to n w n 1 no_divisors low) [
        | inl none ↦ absurd none
        | inr s ↦ record {
          some_width = s.from;
          divides = s.divides;
          no_root = λ e. omega (arith, s.below);
        }
      ]
      | inr high ↦
          let in_temp = (In-reverse w (all_divisors n).temp).0 high in
          let mapped = subst (In w) (temp-widths n) in_temp in
          let (u, low, e) = In-map_to (λ w. n / w) w (all_divisors n).widths mapped in
          elim (widths_to n u n 1 no_divisors low) [
            | inl none ↦ absurd none
            | inr s ↦ subst (IsWidth n) e (IsSmall-cofactor n u s)
          ]
    ]

low_width : (n w : ℕ) → 0 < w → w * w < n → w < 1 + n
low_width n w some_width below = grind arith

pub default_widths_from : (n w : ℕ) → 0 < n → IsWidth n w → In w (default_widths n)
unfolding default_widths all_divisors
default_widths_from n w some_threads s = elim (dec_lt (w * w) n) [
  | yes below ↦ In-append_left w (all_divisors n).widths (reverse (all_divisors n).temp) (
      widths_new n w n 1 no_divisors (low_width n w s.some_width below)
        (record { from = s.some_width; below = below; divides = s.divides }))
  | no above ↦
      let u : ℕ = n / w in
      let product : n ≡ w * u = cofactor n w s.some_width s.divides in
      let big : n < w * w = omega (arith, s.no_root) in
      let less : u < w = below_root_right w u (rw product at big) in
      let some_u : 0 < u = grind arith in
      let small : u * u < n = rw product (grind arith) in
      let swapped : n ≡ u * w = omega arith in
      let (divides, back) = of_cofactor n u w some_u swapped in
      let low =
        widths_new n u n 1 no_divisors (low_width n u some_u small)
          (record { from = some_u; below = small; divides = divides }) in
      let mapped = In-map_from (λ w. n / w) u (all_divisors n).widths low in
      let in_temp = subst (In (n / u)) (sym (temp-widths n)) mapped in
      In-append_right w (all_divisors n).widths (reverse (all_divisors n).temp) (
        (In-reverse w (all_divisors n).temp).1
          (subst (λ v. In v (all_divisors n).temp) back in_temp))
]
