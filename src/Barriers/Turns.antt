-- ===== src/Barriers/Turns.antt =====
-- The turns of a thread in `spin_barrier::wait` (src/barriers.cpp) and the invariant.
use xitao.Prelude.{
  ℕ, suc, ◌+◌, ◌-◌, ◌%◌, ◌<◌, ◌≡◌, ◌≢◌, refl, sym, ap, ◌∙◌, subst, true, false, inl, inr, ◌==◌,
  arith, ℕ_discrete, Bool-cases,
}
use xitao.Prelude.Family.{update, update_same, update_other, sum-none, le-sum}
use xitao.Barriers.{
  WaitPoint, outside, loaded, spinning, resetting, releasing, SpinBarrier, leave, turn_at, turn,
  int_range, fetch_add_1,
}
use xitao.Barriers.Sums.{
  in_round, is_resetting, is_releasing, IsAt, in_round_le, over, IsSound, over-update, sum-lt,
}
use xitao.Barriers.Modes.{
  Mode-stays, Mode-last, Mode-more, Mode-reset, Mode-release, Mode-emptied, Mode-bound, passes,
  at-moved,
}

module _ (t : ℕ) (s : SpinBarrier) (row : t < s.nthreads) (h : IsSound s) where
  abbrev n : ℕ
  n = s.nthreads

  abbrev g : ℕ
  g = h.round

  others : (p : WaitPoint) (k : ℕ) → t ≢ k → update s.place t p k ≡ s.place k
  others p k ne = update_other s.place t k p ne

  -- The sums after thread `t` has moved to `p`.
  sums :
      (p old : WaitPoint)
      → s.place t ≡ old
      → (over n (in_round g) s.place + in_round g p
          ≡ over n (in_round g) (update s.place t p) + in_round g old)
        × (over n is_resetting s.place + is_resetting p
            ≡ over n is_resetting (update s.place t p) + is_resetting old)
        × (over n is_releasing s.place + is_releasing p
            ≡ over n is_releasing (update s.place t p) + is_releasing old)
  sums p old e = (
    subst
        (λ (q : WaitPoint).
          over n (in_round g) s.place + in_round g p
          ≡ over n (in_round g) (update s.place t p) + in_round g q)
        e (over-update n t (in_round g) s.place p row),
    subst
        (λ (q : WaitPoint).
          over n is_resetting s.place + is_resetting p
          ≡ over n is_resetting (update s.place t p) + is_resetting q)
        e (over-update n t is_resetting s.place p row),
    subst
        (λ (q : WaitPoint).
          over n is_releasing s.place + is_releasing p
          ≡ over n is_releasing (update s.place t p) + is_releasing q)
        e (over-update n t is_releasing s.place p row),
  )

  at_old : (old : WaitPoint) → s.place t ≡ old → IsAt g old (s.arrived t) (s.left t)
  at_old old e = subst (λ (q : WaitPoint). IsAt g q (s.arrived t) (s.left t)) e (h.at t row)

  -- A thread that has not arrived in this round is missing.
  missing :
      (old : WaitPoint) → s.place t ≡ old → in_round g old ≡ 0 → over n (in_round g) s.place < n
  missing old e none =
      sum-lt n t (λ k. in_round g (s.place k)) (λ k. in_round_le g (s.place k)) row
        (ap (in_round g) e ∙ none)

  outside-IsSound : s.place t ≡ outside → IsSound (turn_at outside t s)
  unfolding turn_at
  outside-IsSound e =
      let (a, r, l) = sums (loaded s.step_atmc) outside e in
      let (c, f) = at_old outside e in
      record {
        round = g;
        fits = h.fits;
        step = h.step;
        at =
            at-moved g n t s.place _ s.arrived s.arrived s.left s.left (others (loaded s.step_atmc))
              (λ k ne. refl) (λ k ne. refl) (λ k row ne. h.at k row)
              (subst (λ (q : WaitPoint). IsAt g q (s.arrived t) (s.left t))
                (sym (update_same s.place t (loaded s.step_atmc))) (h.step, c, f));
        mode =
            Mode-stays n s.nwait_atmc _ _ _ _ _ _ h.mode (omega (arith, a)) (omega (arith, r))
              (omega (arith, l));
      }

  arrives :
      (p : WaitPoint)
      → IsAt g p (suc (s.arrived t)) (s.left t)
      → (k : ℕ) → k < n
      → IsAt g (update s.place t p k) (update s.arrived t (suc (s.arrived t)) k) (s.left k)
  arrives p new =
      at-moved g n t s.place _ s.arrived _ s.left s.left (others p)
        (λ k ne. update_other s.arrived t k _ ne) (λ k ne. refl) (λ k row ne. h.at k row)
        (rw (update_same s.place t p, update_same s.arrived t (suc (s.arrived t))) new)

  loaded-IsSound : (l : ℕ) → s.place t ≡ loaded l → IsSound (turn_at (loaded l) t s)
  unfolding turn_at
  loaded-IsSound l e =
      let (here, c, f) = at_old (loaded l) e in
      let few = missing (loaded l) e refl in
      let counted : fetch_add_1 s.nwait_atmc ≡ suc s.nwait_atmc =
        let some_left = Mode-bound n s.nwait_atmc _ _ _ h.mode few in
        let small = h.fits in omega arith in
      elim (ℕ_discrete s.nwait_atmc (n - 1)) [
        | yes last ↦
            let hit : (s.nwait_atmc == n - 1) ≡ true = ground arith in
            let (a, r, d) = sums (resetting l) (loaded l) e in
            rw (hit, counted)
              (record {
                round = g;
                fits = h.fits;
                step = h.step;
                at = arrives (resetting l) (ap suc c, f);
                mode =
                    Mode-last n s.nwait_atmc _ _ _ _ _ _ h.mode few last (omega (arith, a))
                      (omega (arith, r)) (omega (arith, d));
              })
        | no more ↦
            let miss : (s.nwait_atmc == n - 1) ≡ false = ground arith in
            let (a, r, d) = sums (spinning l) (loaded l) e in
            let counts : in_round g (spinning l) ≡ 1 = ground (arith, here) in
            rw (miss, counted)
              (record {
                round = g;
                fits = h.fits;
                step = h.step;
                at =
                    arrives (spinning l)
                      (here ∙ ap (λ (k : ℕ). k % int_range) (sym f), ap suc (c ∙ sym f), inl f);
                mode =
                    Mode-more n s.nwait_atmc _ _ _ _ _ _ h.mode few more (omega (arith, a, counts))
                      (omega (arith, r)) (omega (arith, d));
              })
      ]

  resetting-IsSound : (l : ℕ) → s.place t ≡ resetting l → IsSound (turn_at (resetting l) t s)
  unfolding turn_at
  resetting-IsSound l e =
      let (a, r, d) = sums (releasing l) (resetting l) e in
      let (c, f) = at_old (resetting l) e in
      let one : is_resetting (s.place t) ≡ 1 = ap is_resetting e in
      let some = le-sum n t (λ k. is_resetting (s.place k)) row in
      record {
        round = g;
        fits = h.fits;
        step = h.step;
        at =
            at-moved g n t s.place _ s.arrived s.arrived s.left s.left (others (releasing l))
              (λ k ne. refl) (λ k ne. refl) (λ k row ne. h.at k row)
              (subst (λ (q : WaitPoint). IsAt g q (s.arrived t) (s.left t))
                (sym (update_same s.place t (releasing l))) (c, f));
        mode =
            Mode-reset n s.nwait_atmc _ _ _ _ _ _ h.mode (omega (arith, one, some))
              (omega (arith, a)) (omega (arith, r)) (omega (arith, d));
      }

  -- Thread `t` leaves, in a round `u` to which the other threads belong.
  leaves :
      (u : ℕ)
      → ((k : ℕ) → k < n → t ≢ k → IsAt u (s.place k) (s.arrived k) (s.left k))
      → (s.arrived t ≡ u) × (suc (s.left t) ≡ u)
      → (k : ℕ) → k < n
      → IsAt u (update s.place t outside k) (s.arrived k) (update s.left t (suc (s.left t)) k)
  leaves u old new =
      at-moved u n t s.place _ s.arrived s.arrived s.left _ (others outside) (λ k ne. refl)
        (λ k ne. update_other s.left t k _ ne) old
        (rw (update_same s.place t outside, update_same s.left t (suc (s.left t))) new)

  spinning-IsSound : (l : ℕ) → s.place t ≡ spinning l → IsSound (turn_at (spinning l) t s)
  unfolding turn_at leave
  spinning-IsSound l e =
      let (mine, c, near) = at_old (spinning l) e in
      elim (Bool-cases (s.step_atmc == l)) [
        | inl same ↦ rw same h
        | inr passed ↦
            let step = h.step in
            let behind : suc (s.left t) ≡ g = elim near [
              | inl now ↦ absurd (ground arith)
              | inr before ↦ before
            ] in
            let (a, r, d) = sums outside (spinning l) e in
            let old : in_round g (spinning l) ≡ 0 = ground arith in
            rw passed (record {
              round = g;
              fits = h.fits;
              step = h.step;
              at = leaves g (λ k row ne. h.at k row) (c ∙ behind, behind);
              mode =
                  Mode-stays n s.nwait_atmc _ _ _ _ _ _ h.mode (omega (arith, a, old))
                    (omega (arith, r)) (omega (arith, d));
            })
      ]

  -- When thread `t` releases the round, each other thread waits in it.
  released :
      (l : ℕ) (k : ℕ)
      → s.place t ≡ releasing l
      → k < n
      → t ≢ k
      → IsAt (suc g) (s.place k) (s.arrived k) (s.left k) × (in_round (suc g) (s.place k) ≡ 0)
  released l k e row_k ne =
      let (a, r, d) = sums outside (releasing l) e in
      let one : is_releasing (s.place t) ≡ 1 = ap is_releasing e in
      let some = le-sum n t (λ j. is_releasing (s.place j)) row in
      let (_, all, no_resets, once) =
        Mode-emptied n s.nwait_atmc _ _ _ h.mode (omega (arith, one, some)) in
      let release = le-sum n k (λ j. is_releasing (update s.place t outside j)) row_k in
      let same : is_releasing (update s.place t outside k) ≡ is_releasing (s.place k) =
        ap is_releasing (others outside k ne) in
      let reset = le-sum n k (λ j. is_resetting (s.place j)) row_k in
      passes g (s.arrived k) (s.left k) (s.place k) (h.at k row_k)
        (elim (ℕ_discrete (in_round g (s.place k)) 0) [
          | yes none ↦ absurd (
              omega (
                arith,
                all,
                sum-lt n k (λ j. in_round g (s.place j)) (λ j. in_round_le g (s.place j)) row_k
                    none,
              ))
          | no waits ↦ omega arith
        ])
        (omega (arith, reset, no_resets)) (omega (arith, release, d, once, same))

  releasing-IsSound : (l : ℕ) → s.place t ≡ releasing l → IsSound (turn_at (releasing l) t s)
  unfolding turn_at leave
  releasing-IsSound l e =
      let (c, f) = at_old (releasing l) e in
      let (a, r, d) = sums outside (releasing l) e in
      let one : is_releasing (s.place t) ≡ 1 = ap is_releasing e in
      let some = le-sum n t (λ k. is_releasing (s.place k)) row in
      let nobody : over n (in_round (suc g)) (update s.place t outside) ≡ 0 =
        sum-none n (λ k. in_round (suc g) (update s.place t outside k))
          (λ k row_k. elim (ℕ_discrete t k) [
            | yes here ↦
                subst (λ (j : ℕ). in_round (suc g) (update s.place t outside j) ≡ 0) here
                  (ap (in_round (suc g)) (update_same s.place t outside))
            | no there ↦
                ap (in_round (suc g)) (others outside k there) ∙ (released l k e row_k there).1
          ]) in
      record {
        round = suc g;
        fits = h.fits;
        step = let now = h.step in omega arith;
        at = leaves (suc g) (λ k row_k ne. (released l k e row_k ne).0) (c, ap suc f);
        mode =
            Mode-release n s.nwait_atmc _ _ _ _ _ _ h.mode (omega (arith, one, some)) nobody
              (omega (arith, r)) (omega (arith, d)) (omega arith);
      }

pub turn-IsSound : (t : ℕ) (s : SpinBarrier) → t < s.nthreads → IsSound s → IsSound (turn t s)
unfolding turn
turn-IsSound t s row h = by_place (s.place t) refl
  where
    by_place : (p : WaitPoint) → s.place t ≡ p → IsSound (turn_at p t s)
    by_place outside e = outside-IsSound t s row h e
    by_place (loaded l) e = loaded-IsSound t s row h l e
    by_place (spinning l) e = spinning-IsSound t s row h l e
    by_place (resetting l) e = resetting-IsSound t s row h l e
    by_place (releasing l) e = releasing-IsSound t s row h l e
