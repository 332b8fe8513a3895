-- ===== src/Tasks/Takes.antt =====
-- The threads take tasks out of the queues of include/queue_manager.h: the invariant of the queues.
use xitao.Prelude.{
  ℕ, ◌+◌, ◌<◌, ◌≡◌, refl, sym, ap, ◌∙◌, subst, ◌⊎◌, inl, inr, true, false, List, [], ◌∷◌, ◌++◌,
  Option, none, some, ◌==◌, if◌then◌else◌, arith, Bool-cases, ℕ_discrete, count, count-append,
}
use xitao.Prelude.Int.{ℤ}
use xitao.Prelude.Family.{update, update_same, update_other}
use xitao.Tasks.{
  Runtime, Settings, unsnoc, molded, pop_back, try_pop_ready_task, try_pop_assembly_task,
}
use xitao.Tasks.Rounds.{IsQuiet, rearranged-IsQuiet}
use xitao.Tasks.Offers.{is_ready, is_assembled, is_taken}
use xitao.Tasks.Tracked.{IsTracked, IsHere, handed}

-- Queues out of one of which task `t` was taken.
record IsDrawn (t : ℕ) (rows rows' : ℕ → List ℕ) : Type 0 where
  had : (q : ℕ) × (0 < count t (rows q))
  fewer : (u q : ℕ) → 0 < count u (rows' q) → 0 < count u (rows q)
  left : (u q : ℕ) → 0 < count u (rows q) → (0 < count u (rows' q)) ⊎ (t ≡ u)

module _ (t n : ℕ) (rest : List ℕ) (rows : ℕ → List ℕ)
    (split : (u : ℕ) → count u (rows n) ≡ count u rest + (if t == u then 1 else 0)) where
  update-count :
      (u q : ℕ)
      → count u (rows q)
        ≡ count u (update rows n rest q) + (if n == q then (if t == u then 1 else 0) else 0)
  update-count u q = elim (ℕ_discrete n q) [
    | yes here ↦
        let hit : (n == q) ≡ true = ground arith in
        let old : count u (rows n) ≡ count u (rows q) = ap (λ (k : ℕ). count u (rows k)) here in
        let new : count u (update rows n rest q) ≡ count u rest =
          subst (λ (k : ℕ). count u (update rows n rest k) ≡ count u rest) here
            (ap (count u) (update_same rows n rest)) in
        rw hit (omega (arith, old, new, split u))
    | no elsewhere ↦
        let miss : (n == q) ≡ false = ground arith in
        let kept = ap (count u) (update_other rows n q rest elsewhere) in
        rw miss (omega (arith, kept))
  ]

  update-IsDrawn : IsDrawn t rows (update rows n rest)
  update-IsDrawn = record {
    had = let k = split t in (n, ground arith);
    fewer = λ u q h. omega (arith, update-count u q);
    left = λ u q h. elim (ℕ_discrete t u) [
      | yes here ↦ inr here
      | no other ↦ let k = update-count u q in inl (ground arith)
    ];
  }

-- What a thread that takes task `t` leaves.
pub record IsPopped (t : ℕ) (s s' : Runtime) : Type 0 where
  pub quiet : IsQuiet s s'
  pub here : (taken : List ℕ) → IsHere s taken t
  pub before : (taken : List ℕ) (u : ℕ) → IsHere s' taken u → IsHere s taken u
  pub still : (taken : List ℕ) (u : ℕ) → IsHere s taken u → IsHere s' taken u ⊎ (t ≡ u)

ready-IsPopped :
    (t : ℕ) (s s' : Runtime)
    → IsQuiet s s'
    → s'.assembly_q ≡ s.assembly_q
    → IsDrawn t s.ready_q s'.ready_q
    → IsPopped t s s'
ready-IsPopped t s s' quiet assembly d = record {
  quiet = quiet;
  here = λ taken. is_ready d.had.0 d.had.1;
  before = λ taken u h. elim h [
    | is_ready q x ↦ is_ready q (d.fewer u q x)
    | is_assembled q x ↦ is_assembled q (subst (λ (a : ℕ → List ℕ). 0 < count u (a q)) assembly x)
    | is_taken x ↦ is_taken x
  ];
  still = λ taken u h. elim h [
    | is_ready q x ↦ elim (d.left u q x) [ inl kept ↦ inl (is_ready q kept) | inr out ↦ inr out ]
    | is_assembled q x ↦
        inl (is_assembled q (subst (λ (a : ℕ → List ℕ). 0 < count u (a q)) (sym assembly) x))
    | is_taken x ↦ inl (is_taken x)
  ];
}

assembly-IsPopped :
    (t n : ℕ) (rest : List ℕ) (s : Runtime)
    → IsDrawn t s.assembly_q (update s.assembly_q n rest)
    → IsPopped t s (record s { assembly_q = update s.assembly_q n rest })
assembly-IsPopped t n rest s d = record {
  quiet = rearranged-IsQuiet _ _ _ _ _ (update s.assembly_q n rest) s;
  here = λ taken. is_assembled d.had.0 d.had.1;
  before = λ taken u h. elim h [
    | is_ready q x ↦ is_ready q x
    | is_assembled q x ↦ is_assembled q (d.fewer u q x)
    | is_taken x ↦ is_taken x
  ];
  still = λ taken u h. elim h [
    | is_ready q x ↦ inl (is_ready q x)
    | is_assembled q x ↦ elim (d.left u q x) [
      | inl kept ↦ inl (is_assembled q kept)
      | inr out ↦ inr out
    ]
    | is_taken x ↦ inl (is_taken x)
  ];
}

unsnoc_cases :
    (xs : List ℕ)
    → ((xs ≡ []) × (unsnoc xs ≡ none))
      ⊎ ((front : List ℕ) × (last : ℕ) × (xs ≡ front ++ last ∷ [])
          × (unsnoc xs ≡ some (front, last)))
unfolding unsnoc
unsnoc_cases [] = inl (refl, refl)
unsnoc_cases (x ∷ xs) = elim (unsnoc_cases xs) [
  | inl (e, none_left) ↦ inr ([], x, ap (λ (l : List ℕ). x ∷ l) e, rw none_left refl)
  | inr (front, last, e, found) ↦ inr (x ∷ front, last, ap (λ (l : List ℕ). x ∷ l) e, rw found refl)
]

molded-IsQuiet :
    (o : Option (ℤ × ℤ)) (task : ℕ) (rows : ℕ → List ℕ) (s : Runtime)
    → IsQuiet s (molded o task (record s { ready_q = rows }))
      × ((molded o task (record s { ready_q = rows })).assembly_q ≡ s.assembly_q)
      × ((molded o task (record s { ready_q = rows })).ready_q ≡ rows)
unfolding molded
molded-IsQuiet none task rows s = (rearranged-IsQuiet _ _ _ _ rows _ s, refl, refl)
molded-IsQuiet (some (leader, width)) task rows s = (
  rearranged-IsQuiet _ _ (update s.leader task leader) (update s.width task width) rows _ s,
  refl,
  refl,
)

pub try_pop_ready_task-IsPopped :
    (c : Settings) (nthread requesting_thread t : ℕ) (s s' : Runtime)
    → try_pop_ready_task c nthread requesting_thread s ≡ (some t, s')
    → IsPopped t s s'
unfolding try_pop_ready_task pop_back
try_pop_ready_task-IsPopped c n r t s s' e = elim (unsnoc_cases (s.ready_q n)) [
  | inl (empty, none_left) ↦ absurd (none-ne (ap (λ p. p.0) (rw none_left at e)))
  | inr (front, last, split, found) ↦
      let e' : pop_back c n r s (some (front, last)) ≡ (some t, s') = rw found at e in
      let last_t : last ≡ t = some-injective (ap (λ p. p.0) e') in
      let drawn = record s { ready_q = update s.ready_q n front } in
      let counts : (u : ℕ) → count u (s.ready_q n) ≡ count u front + (if t == u then 1 else 0) =
        λ u.
          ap (count u) split
          ∙ (let k = count-append u front (last ∷ []) in ground (arith, last_t, k)) in
      let d = update-IsDrawn t n front s.ready_q counts in
      elim (Bool-cases c.use_performance_modeling) [
        | inl models ↦
            let (quiet, a, q) =
              molded-IsQuiet (c.history_mold_locally r last) last (update s.ready_q n front) s in
            let at_end : molded (c.history_mold_locally r last) last drawn ≡ s' =
              ap (λ p. p.1) (rw models at e') in
            subst (IsPopped t s) at_end
              (ready-IsPopped t s _ quiet a (subst (IsDrawn t s.ready_q) (sym q) d))
        | inr plain ↦
            let at_end : drawn ≡ s' = ap (λ p. p.1) (rw plain at e') in
            subst (IsPopped t s) at_end (
              ready-IsPopped t s drawn (rearranged-IsQuiet _ _ _ _ (update s.ready_q n front) _ s)
                refl d)
      ]
]
  where
    none-ne : ¬ (◌≡◌ {A = Option ℕ} none (some t))
    none-ne h = cc

    some-injective : {x : ℕ} → ◌≡◌ {A = Option ℕ} (some x) (some t) → x ≡ t
    some-injective {x} h = cc

abbrev front_of : ℕ → Runtime → List ℕ → Option ℕ × Runtime
front_of n s [] = (none, s)
front_of n s (task ∷ rest) = (some task, record s { assembly_q = update s.assembly_q n rest })

pub try_pop_assembly_task-IsPopped :
    (nthread t : ℕ) (s s' : Runtime)
    → try_pop_assembly_task nthread s ≡ (some t, s')
    → IsPopped t s s'
unfolding try_pop_assembly_task
try_pop_assembly_task-IsPopped n t s s' e = by_queue (s.assembly_q n) refl e
  where
    by_queue : (l : List ℕ) → s.assembly_q n ≡ l → front_of n s l ≡ (some t, s') → IsPopped t s s'
    by_queue [] at h = absurd (let k : ◌≡◌ {A = Option ℕ} none (some t) = ap (λ p. p.0) h in cc)
    by_queue (x ∷ rest) at h =
        let k : ◌≡◌ {A = Option ℕ} (some x) (some t) = ap (λ p. p.0) h in
        let same_task : x ≡ t = cc in
        let at_end : record s { assembly_q = update s.assembly_q n rest } ≡ s' = ap (λ p. p.1) h in
        subst (IsPopped t s) at_end (
          assembly-IsPopped t n rest s (
            update-IsDrawn t n rest s.assembly_q
              (λ u. ap (count u) at ∙ ground (arith, same_task))))

-- The tasks that were taken are those that left the queues.
pub popped-IsTracked :
    (c : Settings) (t : ℕ) (pushed taken : List ℕ) (s s' : Runtime)
    → IsPopped t s s'
    → IsTracked c pushed taken s
    → IsTracked c pushed (t ∷ taken) s'
popped-IsTracked c t pushed taken s s' p h =
    let same_log : (u : ℕ) → handed s' pushed u ≡ handed s pushed u =
      λ u. ap (λ (l : List ℕ). count u l + count u pushed) p.quiet.log in
    record {
      safe = λ u offered. elim (without u offered) [
        | inl old ↦ omega (arith, same_log u, h.safe u (p.before taken u old))
        | inr new ↦
            subst (λ (v : ℕ). 0 < handed s' pushed v) new
              (omega (arith, same_log t, h.safe t (p.here taken)))
      ];
      kept = λ places u some. elim (p.still taken u (h.kept places u (omega (arith, same_log u)))) [
        | inl there ↦ with_task u there
        | inr new ↦ is_taken (ground (arith, new))
      ];
    }
  where
    without : (u : ℕ) → IsHere s' (t ∷ taken) u → IsHere s' taken u ⊎ (t ≡ u)
    without u (is_ready q x) = inl (is_ready q x)
    without u (is_assembled q x) = inl (is_assembled q x)
    without u (is_taken x) = elim (ℕ_discrete t u) [
      | yes here ↦ inr here
      | no other ↦ inl (is_taken (ground arith))
    ]

    with_task : (u : ℕ) → IsHere s' taken u → IsHere s' (t ∷ taken) u
    with_task u (is_ready q x) = is_ready q x
    with_task u (is_assembled q x) = is_assembled q x
    with_task u (is_taken x) = is_taken (ground arith)
