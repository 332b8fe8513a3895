-- ===== src/Layout/Leaders.antt =====
-- The loops of `prepare_default_layout` (src/xitao_ptt.cpp) over the leaders and the threads.
use xitao.Prelude.{
  ℕ, zero, suc, ◌+◌, ◌*◌, ◌/◌, ◌%◌, ◌≤◌, ◌<◌, ◌≡◌, ◌∙◌, refl, sym, List, [], ◌∷◌, ◌⊎◌, inl, inr,
  arith, ltb, true, false, ap, subst, dec_lt, ℕ_discrete, All,
}
use xitao.Prelude.Int.{ℤ, pos, pos_part, eq-pos_part}
use xitao.Prelude.Member.{In, push, In-push_to, In-push_old, In-push_new}
use xitao.Layout.{Place, add_width, add_widths, cover, cover_widths, cover_threads}
use xitao.Layout.Consistent.{Holds}
use xitao.Layout.Cover.{place, cover_to, cover_old, cover_new}
use xitao.Layout.Widths.{of_cofactor, cofactor}

module _ (w n k : ℕ) where
  -- `k` is reached from `j` in steps of `w`.
  abbrev Stepped : ℕ → Type 0
  Stepped j = (q : ℕ) × (k ≡ j + q * w)

  add_width_to :
      (r j : ℕ) (rows : ℕ → List ℤ) (v : ℤ)
      → In v (add_width r j w n rows k)
      → In v (rows k) ⊎ ((pos w ≡ v) × (k < n) × Stepped j)
  unfolding add_width
  add_width_to zero j rows v h = inl h
  add_width_to (suc r) j rows v h = elim (dec_lt j n) [
    | no stop ↦ let t : ltb j n ≡ false = ground arith in inl (rw t at h)
    | yes go ↦
        let t : ltb j n ≡ true = ground arith in
        elim (add_width_to r (j + w) (push rows j (pos w)) v (rw t at h)) [
          | inr (e, below, (q, at)) ↦ inr (e, below, (suc q, omega arith))
          | inl now ↦ elim (In-push_to v (pos w) rows j k now) [
            | inl old ↦ inl old
            | inr (at, e) ↦ inr (e, omega arith, (0, omega arith))
          ]
        ]
  ]

  add_width_old :
      (r j : ℕ) (rows : ℕ → List ℤ) (v : ℤ) → In v (rows k) → In v (add_width r j w n rows k)
  unfolding add_width
  add_width_old zero j rows v h = h
  add_width_old (suc r) j rows v h = elim (dec_lt j n) [
    | no stop ↦ let t : ltb j n ≡ false = ground arith in rw t h
    | yes go ↦
        let t : ltb j n ≡ true = ground arith in
        rw t (add_width_old r (j + w) (push rows j (pos w)) v (In-push_old v (pos w) rows j k h))
  ]

  add_width_new :
      (r j q : ℕ) (rows : ℕ → List ℤ)
      → 0 < w
      → n ≤ j + r
      → k < n
      → k ≡ j + q * w
      → In (pos w) (add_width r j w n rows k)
  unfolding add_width
  add_width_new zero j q rows some_width room below at = absurd (omega arith)
  add_width_new (suc r) j zero rows some_width room below at =
      let t : ltb j n ≡ true = ground arith in
      let here : j ≡ k = omega arith in
      rw t (
        add_width_old r (j + w) (push rows j (pos w)) (pos w)
          (subst (λ (i : ℕ). In (pos w) (push rows j (pos w) i)) here (In-push_new (pos w) rows j)))
  add_width_new (suc r) j (suc q) rows some_width room below at =
      let t : ltb j n ≡ true = ground arith in
      rw t (
        add_width_new r (j + w) q (push rows j (pos w)) some_width (omega arith) below
          (omega arith))

-- Thread `k` leads a place of width `v`.
pub record Leads (ws : List ℕ) (n k : ℕ) (v : ℤ) : Type 0 where
  pub width : ℕ
  pub chosen : In width ws
  pub is : pos width ≡ v
  pub below : k < n
  pub aligned : k % width ≡ 0

module _ (n k : ℕ) where
  add_widths_old :
      (ws : List ℕ) (rows : ℕ → List ℤ) (v : ℤ) → In v (rows k) → In v (add_widths ws n rows k)
  unfolding add_widths
  add_widths_old [] rows v h = h
  add_widths_old (w ∷ ws) rows v h =
      add_widths_old ws (add_width n 0 w n rows) v (add_width_old w n k n 0 rows v h)

  pub add_widths_to :
      (ws : List ℕ) (rows : ℕ → List ℤ) (v : ℤ)
      → All (λ w. 0 < w) ws
      → In v (add_widths ws n rows k)
      → In v (rows k) ⊎ Leads ws n k v
  unfolding add_widths
  add_widths_to [] rows v positive h = inl h
  add_widths_to (w ∷ ws) rows v positive h =
      elim (add_widths_to ws (add_width n 0 w n rows) v positive.1 h) [
        | inr l ↦ inr (record {
          width = l.width;
          chosen = inr l.chosen;
          is = l.is;
          below = l.below;
          aligned = l.aligned;
        })
        | inl now ↦ elim (add_width_to w n k n 0 rows v now) [
          | inl old ↦ inl old
          | inr (e, below, (q, at)) ↦ inr (record {
            width = w;
            chosen = inl refl;
            is = e;
            below = below;
            aligned = (of_cofactor k w q positive.0 (omega arith)).0;
          })
        ]
      ]

  pub add_widths_new :
      (ws : List ℕ) (rows : ℕ → List ℤ) (w : ℕ)
      → In w ws
      → 0 < w
      → k < n
      → k % w ≡ 0
      → In (pos w) (add_widths ws n rows k)
  unfolding add_widths
  add_widths_new [] rows w h some_width below aligned = absurd h
  add_widths_new (u ∷ ws) rows w (inr h) some_width below aligned =
      add_widths_new ws (add_width n 0 u n rows) w h some_width below aligned
  add_widths_new (u ∷ ws) rows w (inl e) some_width below aligned =
      let steps : k ≡ w * (k / w) = cofactor k w some_width aligned in
      add_widths_old ws (add_width n 0 u n rows) (pos w)
        (rw e (add_width_new w n k n 0 (k / w) rows some_width (omega arith) below (omega arith)))

module _ (i t : ℕ) where
  cover_widths_old :
      (ws : List ℤ) (rows : ℕ → List Place) (p : Place)
      → In p (rows t)
      → In p (cover_widths ws i rows t)
  unfolding cover_widths
  cover_widths_old [] rows p h = h
  cover_widths_old (w ∷ ws) rows p h =
      cover_widths_old ws (cover (pos_part w) 0 i (pos_part w) rows) p
        (cover_old (pos_part w) 0 i (pos_part w) rows t p h)

  cover_widths_to :
      (ws : List ℤ) (rows : ℕ → List Place) (p : Place)
      → In p (cover_widths ws i rows t)
      → In p (rows t) ⊎ ((p.leader ≡ i) × In (pos p.width) ws × (i ≤ t) × (t < i + p.width))
  unfolding cover_widths
  cover_widths_to [] rows p h = inl h
  cover_widths_to (w ∷ ws) rows p h =
      let c = pos_part w in
      elim (cover_widths_to ws (cover c 0 i c rows) p h) [
        | inr (at, chosen, lo, hi) ↦ inr (at, inr chosen, lo, hi)
        | inl now ↦ elim (cover_to c 0 i c rows t p now) [
          | inl old ↦ inl old
          | inr (e, lo, hi) ↦
              let width : c ≡ p.width = λ j. (e j).width in
              let is : w ≡ pos p.width = eq-pos_part w (omega arith) ∙ ap pos width in
              inr (λ j. (sym e j).leader, inl is, omega arith, omega arith)
        ]
      ]

  cover_widths_new :
      (ws : List ℤ) (rows : ℕ → List Place) (w : ℕ)
      → In (pos w) ws
      → i ≤ t
      → t < i + w
      → In (place i w) (cover_widths ws i rows t)
  unfolding cover_widths
  cover_widths_new [] rows w h lo hi = absurd h
  cover_widths_new (v ∷ ws) rows w (inr h) lo hi =
      cover_widths_new ws (cover (pos_part v) 0 i (pos_part v) rows) w h lo hi
  cover_widths_new (v ∷ ws) rows w (inl e) lo hi =
      cover_widths_old ws (cover (pos_part v) 0 i (pos_part v) rows) (place i w)
        (rw e (cover_new w 0 i w rows t (omega arith) (omega arith)))

module _ (layout : ℕ → List ℤ) (t : ℕ) (p : Place) where
  cover_threads_old :
      (m i : ℕ) (rows : ℕ → List Place) → In p (rows t) → In p (cover_threads m i layout rows t)
  unfolding cover_threads
  cover_threads_old zero i rows h = h
  cover_threads_old (suc m) i rows h =
      cover_threads_old m (i + 1) (cover_widths (layout i) i rows)
        (cover_widths_old i t (layout i) rows p h)

  pub cover_threads_to :
      (m i : ℕ) (rows : ℕ → List Place)
      → In p (cover_threads m i layout rows t)
      → In p (rows t) ⊎ Holds layout t p
  unfolding cover_threads
  cover_threads_to zero i rows h = inl h
  cover_threads_to (suc m) i rows h =
      elim (cover_threads_to m (i + 1) (cover_widths (layout i) i rows) h) [
        | inr later ↦ inr later
        | inl now ↦ elim (cover_widths_to i t (layout i) rows p now) [
          | inl old ↦ inl old
          | inr (at, chosen, lo, hi) ↦ inr (record {
            allowed = subst (λ (l : ℕ). In (pos p.width) (layout l)) (sym at) chosen;
            from = omega arith;
            below = omega arith;
          })
        ]
      ]

  pub cover_threads_new :
      (m i : ℕ) (rows : ℕ → List Place)
      → Holds layout t p
      → i ≤ p.leader
      → p.leader < i + m
      → In p (cover_threads m i layout rows t)
  unfolding cover_threads
  cover_threads_new zero i rows h lo hi = absurd (omega arith)
  cover_threads_new (suc m) i rows h lo hi = elim (ℕ_discrete i p.leader) [
    | no other ↦
        cover_threads_new m (i + 1) (cover_widths (layout i) i rows) h (omega arith) (omega arith)
    | yes here ↦ cover_threads_old m (i + 1) (cover_widths (layout i) i rows) (
        subst (λ (l : ℕ). In p (cover_widths (layout l) l rows t)) (sym here)
          (cover_widths_new p.leader t (layout p.leader) rows p.width h.allowed h.from h.below))
  ]
