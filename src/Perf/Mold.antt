-- ===== src/Perf/Mold.antt =====
-- Where `history_mold_locally` places a task that thread `nthread` takes from a ready queue.
use xitao.Prelude.{
  ℕ, zero, suc, ◌+◌, ◌-◌, ◌%◌, ◌≤◌, ◌<◌, ◌≡◌, refl, Bool, false, not, List, [], ◌∷◌, ◌⊎◌, inl, inr,
  arith, Bool-cases, ◌&&◌, Option, none, some, none-ne-some, some-injective, subst, leb, ltb, ◌==◌,
  get_elem?, length,
}
use xitao.Prelude.Int.{ℤ, pos, negsuc, pos_part, minus_one, eqb_ℤ}
use xitao.Prelude.Member.{In}
use xitao.Layout.{Place, Layout}
use xitao.Layout.Consistent.{IsConsistent}
use xitao.Perf.{
  Float, Model, PerfData, Best, no_best, place_of, consider, search_places, remember, rem,
  history_mold_locally, comp_perf, get_timetable,
}

-- Once a width has been chosen again, the last width is positive: `rem` then divides by it.
pub record IsHistory (fl : Float) (ptt : PerfData fl) : Type 0 where
  pub steady : 0 < ptt.cont_choices → 0 < pos_part ptt.last_width

-- The place that is written into the task has a positive width, and the thread is in it.
pub record IsAround (nthread : ℕ) (leader width : ℤ) : Type 0 where
  pub first : ℕ
  pub count : ℕ
  pub leads : leader ≡ pos first
  pub wide : width ≡ pos count
  pub from : first ≤ nthread
  pub below : nthread < first + count

rem_place : (t : ℕ) (w : ℤ) → 0 < pos_part w → IsAround t (pos (t - rem t w)) w
unfolding rem
rem_place t (negsuc n) h = absurd (omega arith)
rem_place t (pos w) h = record {
  first = t - t % w;
  count = w;
  leads = refl;
  wide = refl;
  from = omega arith;
  below = grind arith;
}

-- A pair that is in the result is the pair of the result.
written :
    (t : ℕ) (at : ℤ × ℤ) (leader width : ℤ)
    → IsAround t at.0 at.1
    → some at ≡ some (leader, width)
    → IsAround t leader width
written t at leader width around e =
    subst (λ (p : ℤ × ℤ). IsAround t p.0 p.1) (some-injective _ _ e) around

module _ (fl : Float) (m : Model) (ptt : PerfData fl) (t : ℕ) where
  -- The best so far is none, or a place that the thread is in.
  abbrev IsLocal : Best fl → Type 0
  IsLocal b =
      ((b.new_leader ≡ minus_one) × (b.new_width ≡ 1))
      ⊎ ((l : ℕ) × (b.new_leader ≡ pos l) × (l ≤ t) × (t < l + b.new_width))

  abbrev Around : Place → Type 0
  Around p = (p.leader ≤ t) × (t < p.leader + p.width)

  consider-IsLocal :
      (p : Place) (b : Best fl)
      → IsLocal b
      → Around p
      → IsLocal (consider fl m ptt p.leader p.width b).0
  unfolding consider
  consider-IsLocal p b sound around =
      let here : IsLocal (record b { new_width = p.width; new_leader = pos p.leader }) =
        inr (p.leader, refl, around.0, around.1) in
      elim (Bool-cases (fl.is_zero (get_timetable fl ptt p.leader p.width))) [
        | inl empty ↦ rw empty here
        | inr full ↦
            elim (Bool-cases (
              fl.lt (comp_perf fl m p.width (get_timetable fl ptt p.leader p.width))
                b.shortest_exec)) [
                  | inl less ↦ rw (full, less) (inr (p.leader, refl, around.0, around.1))
                  | inr more ↦ rw (full, more) sound
                ]
      ]

  search_places-IsLocal :
      (mold_task : Bool) (ps : List Place) (b : Best fl)
      → IsLocal b
      → ((p : Place) → In p ps → Around p)
      → IsLocal (search_places fl m mold_task ptt ps b)
  unfolding search_places
  search_places-IsLocal mold_task [] b sound around = sound
  search_places-IsLocal mold_task (p ∷ ps) b sound around =
      let later : (q : Place) → In q ps → Around q = λ q h. around q (inr h) in
      let here = consider-IsLocal p b sound (around p (inl refl)) in
      elim (Bool-cases (not mold_task && ltb 1 p.width)) [
        | inl skip ↦ rw skip (search_places-IsLocal mold_task ps b sound later)
        | inr kept ↦ elim (Bool-cases (consider fl m ptt p.leader p.width b).1) [
          | inl stop ↦ rw (kept, stop) here
          | inr go ↦
              rw (kept, go)
                (search_places-IsLocal mold_task ps (consider fl m ptt p.leader p.width b).0 here
                  later)
        ]
      ]

  IsLocal-width : (b : Best fl) → IsLocal b → 0 < b.new_width
  IsLocal-width b sound = ground arith

  place_of-IsAround :
      (b : Best fl) (leader width : ℤ)
      → IsLocal b
      → place_of fl b ≡ some (leader, width)
      → IsAround t leader width
  place_of-IsAround b leader width (inl (first, w)) e = absurd (none-ne-some _ (rw first at e))
  place_of-IsAround b leader width (inr (l, first, lo, hi)) e =
      let valid : eqb_ℤ (pos l) minus_one ≡ false = ground arith in
      written t (pos l, pos b.new_width) leader width
        (record {
          first = l;
          count = b.new_width;
          leads = refl;
          wide = refl;
          from = lo;
          below = hi;
        })
        (rw (first, valid) at e)

remember-IsHistory :
    (fl : Float) (ptt : PerfData fl) (w : ℕ) → 0 < w → IsHistory fl (remember fl ptt w)
unfolding remember
remember-IsHistory fl ptt w some_width = record { steady = λ _. some_width }

get_elem?-In : (ps : List Place) (n : ℕ) (p : Place) → get_elem? ps n ≡ some p → In p ps
get_elem?-In [] n p e = absurd (none-ne-some _ e)
get_elem?-In (q ∷ ps) zero p e = inl (some-injective _ _ e)
get_elem?-In (q ∷ ps) (suc n) p e = inr (get_elem?-In ps n p e)

-- The random choice takes a place of the list.
random_place :
    (t : ℕ) (choice : Option Place) (leader width : ℤ)
    → ((p : Place) → choice ≡ some p → (p.leader ≤ t) × (t < p.leader + p.width))
    → elim choice as (λ _. Option (ℤ × ℤ)) [
      | none ↦ none
      | some p ↦ some (pos p.leader, pos p.width)
    ]
      ≡ some (leader, width)
    → IsAround t leader width
random_place t none leader width around e = absurd (none-ne-some _ e)
random_place t (some p) leader width around e =
    written t (pos p.leader, pos p.width) leader width
      (record {
        first = p.leader;
        count = p.width;
        leads = refl;
        wide = refl;
        from = (around p refl).0;
        below = (around p refl).1;
      })
      e

places-Around :
    (fl : Float) (m : Model) (ptt : PerfData fl) (s : Layout) (t : ℕ)
    → IsConsistent s
    → (p : Place) → In p (s.inclusive_partitions t)
    → Around fl m ptt t p
places-Around fl m ptt s t sound p h = let holds = (sound t p).0 h in (holds.from, holds.below)

searched :
    (fl : Float) (m : Model) (mold_task : Bool) (ptt : PerfData fl) (s : Layout) (t : ℕ)
    → IsConsistent s
    → IsLocal fl m ptt t (search_places fl m mold_task ptt (s.inclusive_partitions t) (no_best fl))
searched fl m mold_task ptt s t sound =
    search_places-IsLocal fl m ptt t mold_task (s.inclusive_partitions t) (no_best fl)
      (inl (refl, refl)) (places-Around fl m ptt s t sound)

-- If the tables of the layout agree and the trace table has a history, the place that
-- `history_mold_locally` writes into a task of thread t is one that t is in, on every branch and
-- for every pair of random values.
pub history_mold_locally-IsAround :
    (fl : Float) (m : Model) (task_mold : Bool) (ptt : PerfData fl) (s : Layout) (t rand1 rand2 : ℕ)
    (leader width : ℤ)
    → IsConsistent s
    → IsHistory fl ptt
    → (history_mold_locally fl m task_mold ptt (s.inclusive_partitions t) t rand1 rand2).placed
      ≡ some (leader, width)
    → IsAround t leader width
unfolding history_mold_locally
history_mold_locally-IsAround fl m task_mold ptt s t r1 r2 leader width sound history e =
    let ps = s.inclusive_partitions t in
    let around = places-Around fl m ptt s t sound in
    let mold_task = m.mold && task_mold in
    let best = search_places fl m mold_task ptt ps (no_best fl) in
    let local = searched fl m mold_task ptt s t sound in
    elim (Bool-cases (leb 10 ptt.cont_choices)) [
      | inl often ↦
          written t (pos (t - rem t ptt.last_width), ptt.last_width) leader width
            (rem_place t ptt.last_width (history.steady (ground arith))) (rw often at e)
      | inr seldom ↦ elim (Bool-cases (not (r1 % m.refresh_frequency == 0))) [
        | inl usual ↦ place_of-IsAround fl m ptt t best leader width local (rw (seldom, usual) at e)
        | inr refresh ↦ elim (Bool-cases mold_task) [
          | inl molds ↦
              random_place t (get_elem? ps (r2 % length ps)) leader width
                (λ p h. around p (get_elem?-In ps (r2 % length ps) p h))
                (rw (seldom, refresh, molds) at e)
          | inr fixed ↦
              written t (pos t, pos 1) leader width
                (record {
                  first = t;
                  count = 1;
                  leads = refl;
                  wide = refl;
                  from = omega arith;
                  below = omega arith;
                })
                (rw (seldom, refresh, fixed) at e)
        ]
      ]
    ]

-- If the tables of the layout agree, `history_mold_locally` keeps the trace table a history:
-- whenever a width is counted as chosen again it is positive, so that the branch that divides by
-- it never divides by zero.
pub history_mold_locally-IsHistory :
    (fl : Float) (m : Model) (task_mold : Bool) (ptt : PerfData fl) (s : Layout) (t rand1 rand2 : ℕ)
    → IsConsistent s
    → IsHistory fl ptt
    → IsHistory fl
        (history_mold_locally fl m task_mold ptt (s.inclusive_partitions t) t rand1 rand2).ptt
unfolding history_mold_locally
history_mold_locally-IsHistory fl m task_mold ptt s t r1 r2 sound history =
    let mold_task = m.mold && task_mold in
    let best = search_places fl m mold_task ptt (s.inclusive_partitions t) (no_best fl) in
    let local = searched fl m mold_task ptt s t sound in
    elim (Bool-cases (leb 10 ptt.cont_choices)) [
      | inl often ↦ rw often history
      | inr seldom ↦ elim (Bool-cases (not (r1 % m.refresh_frequency == 0))) [
        | inl usual ↦
            rw (seldom, usual)
              (remember-IsHistory fl ptt best.new_width (IsLocal-width fl m ptt t best local))
        | inr refresh ↦ elim (Bool-cases mold_task) [
          | inl molds ↦ rw (seldom, refresh, molds) history
          | inr fixed ↦ rw (seldom, refresh, fixed) history
        ]
      ]
    ]
