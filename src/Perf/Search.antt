-- ===== src/Perf/Search.antt =====
-- What `global_search_ptt` finds.
use xitao.Prelude.{
  ℕ, zero, suc, ◌+◌, ◌≤◌, ◌<◌, ◌≡◌, refl, Bool, true, false, List, [], ◌∷◌, ◌⊎◌, inl, inr, arith,
  Bool-cases, ◌&&◌, subst, ap, sym, ℕ_discrete,
}
use xitao.Prelude.Int.{ℤ, pos, pos_part, minus_one, eq-pos_part}
use xitao.Prelude.Member.{In}
use xitao.Layout.{max_threads}
use xitao.Perf.{
  Float, Model, PerfData, Best, no_best, get_timetable, comp_perf, consider, skipped, search_widths,
  search_leaders, global_search_ptt,
}

module _ (fl : Float) (m : Model) (mold_task : Bool) (ptt : PerfData fl) where
  open fl use {F, is_zero, lt, lt_irrefl, lt_trans, max_f}

  abbrev cost : ℕ → ℕ → F
  cost l w = comp_perf fl m w (get_timetable fl ptt l w)

  -- The entry is filled, and the cost is not below `c`.
  abbrev NotBelow : F → ℕ → ℕ → Type 0
  NotBelow c l w = (is_zero (get_timetable fl ptt l w) ≡ false) × (lt (cost l w) c ≡ false)

  -- The best so far is none, or a candidate with its cost.
  abbrev IsSound : (ℕ → ℕ → Type 0) → Best fl → Type 0
  IsSound Candidate b =
      ((b.shortest_exec ≡ max_f) × (b.new_leader ≡ minus_one) × (b.new_width ≡ 1))
      ⊎ ((l : ℕ) × (b.new_leader ≡ pos l)
          × Candidate l b.new_width
          × (b.shortest_exec ≡ cost l b.new_width))

  -- The search stopped at a candidate whose entry is empty.
  abbrev IsUnseen : (ℕ → ℕ → Type 0) → Best fl → Type 0
  IsUnseen Candidate b =
      (l : ℕ) × (b.new_leader ≡ pos l)
      × Candidate l b.new_width
      × (is_zero (get_timetable fl ptt l b.new_width) ≡ true)

  -- From `b` to `b'`, having met the candidates of `Seen`.
  abbrev Outcome : (ℕ → ℕ → Type 0) → (ℕ → ℕ → Type 0) → Best fl → Best fl → Bool → Type 0
  Outcome Candidate Seen b b' true = IsUnseen Candidate b'
  Outcome Candidate Seen b b' false =
      IsSound Candidate b'
      × ((l w : ℕ) → Seen l w → NotBelow b'.shortest_exec l w)
      × ((c : F) → lt c b.shortest_exec ≡ false → lt c b'.shortest_exec ≡ false)

  not_below_trans : (c x y : F) → lt y x ≡ true → lt c x ≡ false → lt c y ≡ false
  not_below_trans c x y less h = elim (Bool-cases (lt c y)) [
    | inr no_less ↦ no_less
    | inl below ↦ let both = lt_trans c y x below less in cc
  ]

  consider-Outcome :
      (Candidate : ℕ → ℕ → Type 0) (l w : ℕ) (b : Best fl)
      → IsSound Candidate b
      → Candidate l w
      → Outcome Candidate
          (λ l' w'. (l ≡ l') × (w ≡ w'))
          b
          (consider fl m ptt l w b).0
          (consider fl m ptt l w b).1
  unfolding consider
  consider-Outcome Candidate l w b sound candidate =
      elim (Bool-cases (is_zero (get_timetable fl ptt l w))) [
        | inl empty ↦ rw empty (l, refl, candidate, empty)
        | inr filled ↦ elim (Bool-cases (lt (cost l w) b.shortest_exec)) [
          | inl better ↦
              rw (filled, better)
                (
                  inr (l, refl, candidate, refl),
                  (λ l' w' (e, e').
                      subst (λ (k : ℕ). NotBelow (cost l w) k w') e
                        (subst (NotBelow (cost l w) l) e' (filled, lt_irrefl (cost l w)))),
                  λ c h. not_below_trans c b.shortest_exec (cost l w) better h,
                )
          | inr worse ↦
              rw (filled, worse)
                (
                  sound,
                  (λ l' w' (e, e').
                      subst (λ (k : ℕ). NotBelow b.shortest_exec k w') e
                        (subst (NotBelow b.shortest_exec l) e' (filled, worse))),
                  λ c h. h,
                )
        ]
      ]

  Outcome-then :
      (Candidate S S1 S2 : ℕ → ℕ → Type 0) (b b1 b2 : Best fl) (stop : Bool)
      → Outcome Candidate S1 b b1 false
      → Outcome Candidate S2 b1 b2 stop
      → ((l w : ℕ) → S l w → S1 l w ⊎ S2 l w)
      → Outcome Candidate S b b2 stop
  Outcome-then Candidate S S1 S2 b b1 b2 true first second covers = second
  Outcome-then Candidate S S1 S2 b b1 b2 false first second covers = (
    second.0,
    (λ l w seen. elim (covers l w seen) [
      | inl one ↦ let (filled, above) = first.1 l w one in (filled, second.2 (cost l w) above)
      | inr two ↦ second.1 l w two
    ]),
    λ c h. second.2 c (first.2 c h),
  )

  abbrev Listed : ℕ → List ℤ → ℕ → ℕ → Type 0
  Listed leader ws l w =
      (leader ≡ l) × In (pos w) ws × (0 < w) × (skipped mold_task (pos w) ≡ false)

  kept-pos : (w : ℤ) → skipped mold_task w ≡ false → (0 < pos_part w) × (w ≡ pos (pos_part w))
  unfolding skipped
  kept-pos w kept =
      let some_width : 0 < pos_part w = ground arith in (some_width, eq-pos_part w some_width)

  Outcome-fewer :
      (Candidate S S1 : ℕ → ℕ → Type 0) (b b1 : Best fl) (stop : Bool)
      → Outcome Candidate S1 b b1 stop
      → ((l w : ℕ) → S l w → S1 l w)
      → Outcome Candidate S b b1 stop
  Outcome-fewer Candidate S S1 b b1 true o covers = o
  Outcome-fewer Candidate S S1 b b1 false o covers =
      (o.0, (λ l w seen. o.1 l w (covers l w seen)), o.2)

  search_widths-Outcome :
      (Candidate : ℕ → ℕ → Type 0) (leader : ℕ) (ws : List ℤ) (b : Best fl)
      → IsSound Candidate b
      → ((w : ℕ) → Listed leader ws leader w → Candidate leader w)
      → Outcome Candidate
          (Listed leader ws)
          b
          (search_widths fl m mold_task ptt leader ws b).0
          (search_widths fl m mold_task ptt leader ws b).1
  unfolding search_widths
  search_widths-Outcome Candidate leader [] b sound candidates =
      (sound, (λ l w seen. absurd seen.1), λ c h. h)
  search_widths-Outcome Candidate leader (v ∷ ws) b sound candidates =
      let later : (w : ℕ) → Listed leader ws leader w → Candidate leader w =
        λ w listed. candidates w (refl, inr listed.1, listed.2, listed.3) in
      elim (Bool-cases (skipped mold_task v)) [
        | inl skip ↦ rw skip (
            Outcome-fewer Candidate (Listed leader (v ∷ ws)) (Listed leader ws) b
              (search_widths fl m mold_task ptt leader ws b).0
              (search_widths fl m mold_task ptt leader ws b).1
              (search_widths-Outcome Candidate leader ws b sound later)
              (λ l w (at, listed, some_width, kept). elim listed [
                | inr tail ↦ (at, tail, some_width, kept)
                | inl e ↦ let skip' : skipped mold_task (pos w) ≡ true = rw e at skip in cc
              ]))
        | inr kept ↦
            let (some_width, is) = kept-pos v kept in
            let kept' : skipped mold_task (pos (pos_part v)) ≡ false = rw is at kept in
            let candidate = candidates (pos_part v) (refl, inl is, some_width, kept') in
            let one = consider-Outcome Candidate leader (pos_part v) b sound candidate in
            let b1 : Best fl = (consider fl m ptt leader (pos_part v) b).0 in
            elim (Bool-cases (consider fl m ptt leader (pos_part v) b).1) [
              | inl stop ↦
                  let halted : IsUnseen Candidate b1 = rw stop at one in rw (kept, stop) halted
              | inr go ↦
                  let first : Outcome Candidate (λ l' w'. (leader ≡ l') × (pos_part v ≡ w')) b b1
                      false =
                    rw go at one in
                  rw (kept, go)
                    (Outcome-then Candidate (Listed leader (v ∷ ws))
                      (λ l' w'. (leader ≡ l') × (pos_part v ≡ w')) (Listed leader ws) b b1
                      (search_widths fl m mold_task ptt leader ws b1).0
                      (search_widths fl m mold_task ptt leader ws b1).1 first
                      (search_widths-Outcome Candidate leader ws b1 first.0 later)
                      (λ l w (at, listed, positive, kept_w). elim listed [
                        | inl e ↦ inl (at, ap pos_part e)
                        | inr tail ↦ inr (at, tail, positive, kept_w)
                      ]))
            ]
      ]

module _ (fl : Float) (m : Model) (mold_task : Bool) (ptt : PerfData fl) (layout : ℕ → List ℤ) where
  -- The candidates among the leaders from `i` on, `n` of them.
  record Among (i n l w : ℕ) : Type 0 where
    lo : i ≤ l
    hi : l < i + n
    listed : In (pos w) (layout l)
    some_width : 0 < w
    kept : skipped mold_task (pos w) ≡ false

  search_leaders-Outcome :
      (Candidate : ℕ → ℕ → Type 0) (n i : ℕ) (b : Best fl)
      → IsSound fl m mold_task ptt Candidate b
      → ((l w : ℕ) → Among i n l w → Candidate l w)
      → IsUnseen fl m mold_task ptt Candidate (search_leaders fl m mold_task ptt layout n i b)
        ⊎ Outcome fl m mold_task ptt Candidate
            (Among i n)
            b
            (search_leaders fl m mold_task ptt layout n i b)
            false
  unfolding search_leaders
  search_leaders-Outcome Candidate zero i b sound candidates =
      inr (sound, (λ l w among. absurd (omega (arith, among.lo, among.hi))), λ c h. h)
  search_leaders-Outcome Candidate (suc n) i b sound candidates =
      let Row = Listed fl m mold_task ptt i (layout i) in
      let one =
        search_widths-Outcome fl m mold_task ptt Candidate i (layout i) b sound
          (λ w (at, listed, positive, kept). candidates i w (record {
            lo = omega arith;
            hi = omega arith;
            listed = listed;
            some_width = positive;
            kept = kept;
          })) in
      let b1 : Best fl = (search_widths fl m mold_task ptt i (layout i) b).0 in
      elim (Bool-cases (search_widths fl m mold_task ptt i (layout i) b).1) [
        | inl stop ↦
            let halted : IsUnseen fl m mold_task ptt Candidate b1 = rw stop at one in
            rw stop (inl halted)
        | inr go ↦
            let first : Outcome fl m mold_task ptt Candidate Row b b1 false = rw go at one in
            rw go
              (elim (search_leaders-Outcome Candidate n (i + 1) b1 first.0 (λ l w a.
                candidates l w (record {
                  lo = omega (arith, a.lo);
                  hi = omega (arith, a.hi);
                  listed = a.listed;
                  some_width = a.some_width;
                  kept = a.kept;
                }))) [
                  | inl unseen ↦ inl unseen
                  | inr rest ↦ inr (
                      Outcome-then fl m mold_task ptt Candidate (Among i (suc n)) Row
                        (Among (i + 1) n) b b1
                        (search_leaders fl m mold_task ptt layout n (i + 1) b1) false first rest
                        (λ l w a. elim (ℕ_discrete i l) [
                          | yes here ↦ inl (
                            here,
                            subst (λ (k : ℕ). In (pos w) (layout k)) (sym here) a.listed,
                            a.some_width,
                            a.kept,
                          )
                          | no other ↦ inr (record {
                            lo = omega (arith, a.lo);
                            hi = omega (arith, a.hi);
                            listed = a.listed;
                            some_width = a.some_width;
                            kept = a.kept;
                          })
                        ]))
                ])
      ]

-- What a task may be placed at: a positive width that the layout lists for the leader, and only
-- width 1 where the task or the runtime does not mold.
pub record IsCandidate (molds : Bool) (layout : ℕ → List ℤ) (leader width : ℕ) : Type 0 where
  pub row : leader < max_threads
  pub listed : In (pos width) (layout leader)
  pub some_width : 0 < width
  pub narrow : (molds ≡ true) ⊎ (width ≤ 1)

kept_lem : (molds : Bool) (w : ℕ) → 0 < w → (molds ≡ true) ⊎ (w ≤ 1) → skipped molds (pos w) ≡ false
unfolding skipped
kept_lem molds w some_width narrow = ground arith

narrow_lem : (molds : Bool) (w : ℕ) → skipped molds (pos w) ≡ false → (molds ≡ true) ⊎ (w ≤ 1)
unfolding skipped
narrow_lem molds w kept = ground arith

module _ (fl : Float) (m : Model) (task_mold : Bool) (ptt : PerfData fl) (layout : ℕ → List ℤ) where
  open fl use {F, is_zero, lt, max_f}

  abbrev molds : Bool
  molds = m.mold && task_mold

  -- The entry is filled, and the cost by the model is not below `c`.
  abbrev pub IsNotBetter : F → ℕ → ℕ → Type 0
  IsNotBetter c l w =
      (is_zero (get_timetable fl ptt l w) ≡ false)
      × (lt (comp_perf fl m w (get_timetable fl ptt l w)) c ≡ false)

  -- A leader and a width that a search may end at. A leader is a candidate whose entry is empty, or
  -- one that no candidate undercuts. No leader (-1, with width 1) means that no candidate has an
  -- empty entry or a cost below the largest float.
  abbrev pub IsChosen : ℤ × ℕ → Type 0
  IsChosen (leader, width) =
      ((l : ℕ) × (leader ≡ pos l)
        × IsCandidate molds layout l width
        × ((is_zero (get_timetable fl ptt l width) ≡ true)
            ⊎ ((l' w' : ℕ)
                → IsCandidate molds layout l' w'
                → IsNotBetter (comp_perf fl m width (get_timetable fl ptt l width)) l' w')))
      ⊎ ((leader ≡ minus_one)
          × (width ≡ 1)
          × ((l' w' : ℕ) → IsCandidate molds layout l' w' → IsNotBetter max_f l' w'))

  -- The search of a critical task ends at an allowed place whose entry is empty, or at one that
  -- no allowed place undercuts while none is empty; or it finds no leader, only if no allowed
  -- place is empty or costs less than the largest float.
  pub global_search_ptt-optimal : IsChosen (global_search_ptt fl m task_mold ptt layout)
  unfolding global_search_ptt
  global_search_ptt-optimal =
      elim (search_leaders-Outcome fl m molds ptt layout (IsCandidate molds layout) max_threads 0
        (no_best fl) (inl (refl, refl, refl))
        (λ l w a. record {
          row = omega (arith, a.hi);
          listed = a.listed;
          some_width = a.some_width;
          narrow = narrow_lem molds w a.kept;
        })) [
          | inl (l, at, candidate, empty) ↦ inl (l, at, candidate, inl empty)
          | inr (inl (shortest, at, width), passed, _) ↦ inr (
            at,
            width,
            λ l' w' c.
                subst (λ (x : F). IsNotBetter x l' w') shortest (passed l' w' (among l' w' c)),
          )
          | inr (inr (l, at, candidate, shortest), passed, _) ↦ inl (
            l,
            at,
            candidate,
            inr (λ l' w' c.
                subst (λ (x : F). IsNotBetter x l' w') shortest (passed l' w' (among l' w' c))),
          )
        ]
    where
      among :
          (l w : ℕ) → IsCandidate molds layout l w → Among fl m molds ptt layout 0 max_threads l w
      among l w c = record {
        lo = omega arith;
        hi = omega (arith, c.row);
        listed = c.listed;
        some_width = c.some_width;
        kept = kept_lem molds w c.some_width c.narrow;
      }
