-- ===== src/Layout/Default.antt =====
-- `prepare_default_layout`: which places it sets up.
use xitao.Prelude.{
  ℕ, zero, suc, ◌+◌, ◌*◌, ◌/◌, ◌%◌, ◌≤◌, ◌<◌, ◌≡◌, ◌↔◌, refl, List, [], ◌∷◌, ◌⊎◌, inl, inr, arith,
  ◌==◌, true, ap, subst, dec_lt, ℕ_discrete, All,
}
use native.Mathlib.Nat.{div-mul-le_self, lt-div-mul-add, mul-mod_left}
use xitao.Prelude.Int.{pos, pos_part}
use xitao.Prelude.Family.{update}
use xitao.Prelude.Member.{In}
use xitao.Layout.{
  Place, Layout, max_threads, clear_rows, clear_layout_partitions, default_widths,
  prepare_default_layout,
}
use xitao.Layout.Consistent.{IsWellFormed}
use xitao.Layout.Widths.{IsWidth, default_widths_to, default_widths_from, cofactor}
use xitao.Layout.Leaders.{add_widths_to, add_widths_new, cover_threads_to, cover_threads_new}

-- The vectors have 64 rows: there is nothing in a row behind them.
pub record IsSized (s : Layout) : Type 0 where
  pub no_width : (t : ℕ) → max_threads ≤ t → s.ptt_layout t ≡ []
  pub no_place : (t : ℕ) → max_threads ≤ t → s.inclusive_partitions t ≡ []

clear_rows-empty :
    {A : Type 0} (n k : ℕ) (rows : ℕ → List A) → (k < n) ⊎ (rows k ≡ []) → clear_rows n rows k ≡ []
unfolding clear_rows
clear_rows-empty zero k rows (inl h) = absurd (omega arith)
clear_rows-empty zero k rows (inr h) = h
clear_rows-empty (suc n) k rows h = elim (ℕ_discrete n k) [
  | yes here ↦
      let hit : (n == k) ≡ true = ground arith in
      clear_rows-empty n k (update rows n []) (inr (rw hit refl))
  | no other ↦ clear_rows-empty n k (update rows n []) (ground arith)
]

clear-no_width : (s : Layout) (k : ℕ) → IsSized s → (clear_layout_partitions s).ptt_layout k ≡ []
unfolding clear_layout_partitions
clear-no_width s k sized = elim (dec_lt k max_threads) [
  | yes row ↦ clear_rows-empty max_threads k s.ptt_layout (inl row)
  | no behind ↦ clear_rows-empty max_threads k s.ptt_layout (inr (sized.no_width k (omega arith)))
]

clear-no_place :
    (s : Layout) (k : ℕ) → IsSized s → (clear_layout_partitions s).inclusive_partitions k ≡ []
unfolding clear_layout_partitions
clear-no_place s k sized = elim (dec_lt k max_threads) [
  | yes row ↦ clear_rows-empty max_threads k s.inclusive_partitions (inl row)
  | no behind ↦
      clear_rows-empty max_threads k s.inclusive_partitions (inr (sized.no_place k (omega arith)))
]

-- The tables after `clear_layout_partitions` and `prepare_default_layout`.
unfoldable pub default_layout : ℕ → Layout → Layout
default_layout n s = prepare_default_layout n (clear_layout_partitions s)

widths_positive : (n : ℕ) (ws : List ℕ) → ((w : ℕ) → In w ws → IsWidth n w) → All (λ w. 0 < w) ws
widths_positive n [] h = tt
widths_positive n (w ∷ ws) h =
    ((h w (inl refl)).some_width, widths_positive n ws (λ v there. h v (inr there)))

fits_of : (a b w l : ℕ) {n : ℕ} → l ≡ w * a → n ≡ w * b → l < n → l + w ≤ n
fits_of a b w l steps all below = elim (dec_lt a b) [
  | yes lt ↦ grind arith
  | no ge ↦ absurd (grind arith)
]

module _ (n : ℕ) (s : Layout) (sized : IsSized s) where
  abbrev result : Layout
  result = default_layout n s

  allowed_to : (l w : ℕ) → In (pos w) (result.ptt_layout l) → IsWidth n w × (l < n) × (l % w ≡ 0)
  unfolding default_layout prepare_default_layout
  allowed_to l w h =
      let rows = (clear_layout_partitions s).ptt_layout in
      let positive = widths_positive n (default_widths n) (default_widths_to n) in
      elim (add_widths_to n l (default_widths n) rows (pos w) positive h) [
        | inl old ↦ absurd (subst (In (pos w)) (clear-no_width s l sized) old)
        | inr lead ↦
            let is : lead.width ≡ w = ap pos_part lead.is in
            (
              subst (IsWidth n) is (default_widths_to n lead.width lead.chosen),
              lead.below,
              subst (λ (v : ℕ). l % v ≡ 0) is lead.aligned,
            )
      ]

  allowed_from : (l w : ℕ) → IsWidth n w → l < n → l % w ≡ 0 → In (pos w) (result.ptt_layout l)
  unfolding default_layout prepare_default_layout
  allowed_from l w width below aligned =
      add_widths_new n l (default_widths n) (clear_layout_partitions s).ptt_layout w
        (default_widths_from n w (omega arith) width) width.some_width below aligned

  place_fits : (l w : ℕ) → IsWidth n w → l < n → l % w ≡ 0 → l + w ≤ n
  place_fits l w width below aligned =
      let steps : l ≡ w * (l / w) = cofactor l w width.some_width aligned in
      let all : n ≡ w * (n / w) = cofactor n w width.some_width width.divides in
      fits_of (l / w) (n / w) w l steps all below

-- From tables with no entries behind thread 63, clearing and then preparing the default layout of
-- at most 64 threads gives well-formed tables: each thread lists exactly the allowed places that
-- it is in, and no place reaches past thread 63.
pub default_layout-IsWellFormed :
    (n : ℕ) (s : Layout) → IsSized s → n ≤ max_threads → IsWellFormed (default_layout n s)
unfolding default_layout prepare_default_layout
default_layout-IsWellFormed n s sized few = record {
  consistent = λ t p. (
    λ h. elim (cover_threads_to (default_layout n s).ptt_layout t p n 0 _ h) [
      | inl old ↦ absurd (subst (In p) (clear-no_place s t sized) old)
      | inr holds ↦ holds
    ],
    λ h.
        let (width, below, aligned) = allowed_to n s sized p.leader p.width h.allowed in
        cover_threads_new (default_layout n s).ptt_layout t p n 0 _ h (omega arith) (omega arith),
  );
  bounded = λ l w h some_width.
      let (width, below, aligned) = allowed_to n s sized l w h in
      omega (arith, place_fits n s sized l w width below aligned);
}

same_block : (a b w l t : ℕ) → l ≡ w * a → l ≤ t → t < l + w → b * w ≤ t → t < b * w + w → l ≡ b * w
same_block a b w l t steps lo hi below above = elim (dec_lt a b) [
  | yes less ↦ absurd (grind arith)
  | no ge ↦ elim (dec_lt b a) [
    | yes more ↦ absurd (grind arith)
    | no le ↦ let same : a ≡ b = omega arith in rw (steps, same) (omega arith)
  ]
]

aligned_unique : (l w t : ℕ) → 0 < w → l % w ≡ 0 → l ≤ t → t < l + w → l ≡ t / w * w
aligned_unique l w t some_width aligned lo hi =
    let steps : l ≡ w * (l / w) = cofactor l w some_width aligned in
    let below : t / w * w ≤ t = div-mul-le_self t w in
    let above : t < t / w * w + w = lt-div-mul-add some_width in
    same_block (l / w) (t / w) w l t steps lo hi below above

-- From tables with no entries behind thread 63, clearing and then preparing the default layout of
-- n threads, n at most 64, puts each thread t below n into exactly the places whose width divides
-- n and is not its square root, each led by the multiple of the width at or below t.
pub default_layout-places :
    (n : ℕ) (s : Layout) (t : ℕ) (p : Place)
    → IsSized s
    → n ≤ max_threads
    → t < n
    → In p ((default_layout n s).inclusive_partitions t)
      ↔ (IsWidth n p.width × (p.leader ≡ t / p.width * p.width))
default_layout-places n s t p sized few thread = (to, from)
  where
    to :
        In p ((default_layout n s).inclusive_partitions t)
        → IsWidth n p.width × (p.leader ≡ t / p.width * p.width)
    to h =
        let holds = ((default_layout-IsWellFormed n s sized few).consistent t p).0 h in
        let (width, below, aligned) = allowed_to n s sized p.leader p.width holds.allowed in
        (width, aligned_unique p.leader p.width t width.some_width aligned holds.from holds.below)

    from :
        IsWidth n p.width × (p.leader ≡ t / p.width * p.width)
        → In p ((default_layout n s).inclusive_partitions t)
    from (width, at) =
        let lo : t / p.width * p.width ≤ t = div-mul-le_self t p.width in
        let hi : t < t / p.width * p.width + p.width = lt-div-mul-add width.some_width in
        ((default_layout-IsWellFormed n s sized few).consistent t p).1 (record {
          allowed =
              allowed_from n s sized p.leader p.width width (omega (arith, lo))
                (rw at (mul-mod_left (t / p.width) p.width));
          from = omega (arith, lo);
          below = omega (arith, hi);
        })
