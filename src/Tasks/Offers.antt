-- ===== src/Tasks/Offers.antt =====
-- The queues in which a task stands (include/queue_manager.h), as `commit_and_wakeup` of
-- src/poly_task.cpp fills them.
use xitao.Prelude.{
  ℕ, zero, suc, ◌+◌, ◌<◌, ◌≡◌, refl, sym, ap, ◌∙◌, subst, ◌⊎◌, inl, inr, true, ◌&&◌, List, [], ◌∷◌,
  ◌++◌, ◌==◌, if◌then◌else◌, arith, Bool-cases, ℕ_discrete, count, count-append,
}
use xitao.Prelude.Int.{ℤ, pos, pos_part, ltb_ℤ, leb_ℤ, eqb_ℤ, ◌+ℤ◌}
use xitao.Prelude.Family.{update, update_same, update_other}
use xitao.Prelude.Member.{push}
use xitao.Prelude.Result.{Result, ok, exit}
use xitao.Tasks.{
  Runtime, Settings, QueueExit, no_such_queue, distribute, insert_task_in_assembly_queues,
  insert_in_ready_queue, wake,
}
use xitao.Tasks.Rounds.{ok-injective, wake-IsWoken}

-- A task stands in a ready queue or in an assembly queue, or a thread has taken it out of one.
pub data IsOffered (ready_q assembly_q : ℕ → List ℕ) (taken : List ℕ) (t : ℕ) : Type 0 where
  is_ready : (q : ℕ) → 0 < count t (ready_q q) → IsOffered ready_q assembly_q taken t
  is_assembled : (q : ℕ) → 0 < count t (assembly_q q) → IsOffered ready_q assembly_q taken t
  is_taken : 0 < count t taken → IsOffered ready_q assembly_q taken t

-- Queues that got task `x` and no other.
pub record IsFilled (x : ℕ) (rows rows' : ℕ → List ℕ) : Type 0 where
  pub only : (t q : ℕ) → 0 < count t (rows' q) → (0 < count t (rows q)) ⊎ (x ≡ t)
  pub grows : (t q : ℕ) → 0 < count t (rows q) → 0 < count t (rows' q)

pub IsFilled-same : (x : ℕ) (rows : ℕ → List ℕ) → IsFilled x rows rows
IsFilled-same x rows = record { only = λ t q h. inl h; grows = λ t q h. h }

IsFilled-trans : (x : ℕ) (a b c : ℕ → List ℕ) → IsFilled x a b → IsFilled x b c → IsFilled x a c
IsFilled-trans x a b c first later = record {
  only =
      λ t q h. elim (later.only t q h) [ inl between ↦ first.only t q between | inr new ↦ inr new ];
  grows = λ t q h. later.grows t q (first.grows t q h);
}

pub push-count :
    (x j t q : ℕ) (rows : ℕ → List ℕ)
    → count t (push rows j x q) ≡ count t (rows q) + (if (j == q) && (x == t) then 1 else 0)
push-count x j t q rows = elim (ℕ_discrete j q) [
  | yes here ↦
      let hit : (j == q) ≡ true = ground arith in
      subst (λ (k : ℕ). count t (push rows j x k) ≡ count t (rows k) + (if x == t then 1 else 0))
        here
        (ap (count t) (update_same rows j (rows j ++ x ∷ [])) ∙ count-append t (rows j) (x ∷ []))
      ∙ rw hit refl
  | no elsewhere ↦ ap (count t) (update_other rows j q (rows j ++ x ∷ []) elsewhere) ∙ ground arith
]

pub push-IsFilled : (x j : ℕ) (rows : ℕ → List ℕ) → IsFilled x rows (push rows j x)
push-IsFilled x j rows = record {
  only = λ t q h.
      let n = push-count x j t q rows in
      elim (ℕ_discrete x t) [ yes new ↦ inr new | no old ↦ inl (ground arith) ];
  grows = λ t q h. omega (arith, push-count x j t q rows);
}

pub push-some : (x j : ℕ) (rows : ℕ → List ℕ) → 0 < count x (push rows j x j)
push-some x j rows = let n = push-count x j x j rows in ground arith

-- What `insert_task_in_assembly_queues` does to the queues.
pub record IsAssembled (x : ℕ) (s s' : Runtime) : Type 0 where
  pub ready : s'.ready_q ≡ s.ready_q
  pub assembly : IsFilled x s.assembly_q s'.assembly_q

pub distribute-IsAssembled :
    (nthreads : ℤ) (x n : ℕ) (i : ℤ) (s s' : Runtime)
    → distribute nthreads x n i s ≡ ok s'
    → IsAssembled x s s' × (0 < n → (q : ℕ) × (0 < count x (s'.assembly_q q)))
unfolding distribute
distribute-IsAssembled nthreads x zero i s s' e =
    let same = ok-injective e in
    (
      subst (IsAssembled x s) same
          (record { ready = refl; assembly = IsFilled-same x s.assembly_q }),
      λ some. absurd (omega arith),
    )
distribute-IsAssembled nthreads x (suc n) i s s' e =
    elim (Bool-cases (ltb_ℤ i nthreads && leb_ℤ (pos 0) i)) [
      | inr no_queue ↦ absurd (exit-ne-ok (rw no_queue at e))
      | inl queue ↦
          let (later, all) =
            distribute-IsAssembled nthreads x n (i +ℤ pos 1) _ s' (rw queue at e) in
          (
            record {
              ready = later.ready;
              assembly =
                  IsFilled-trans x _ _ _ (push-IsFilled x (pos_part i) s.assembly_q) later.assembly;
            },
            λ some. (
              pos_part i,
              later.assembly.grows x (pos_part i) (push-some x (pos_part i) s.assembly_q),
            ),
          )
    ]
  where
    exit-ne-ok : ¬ (◌≡◌ {A = Result QueueExit Runtime} (exit no_such_queue) (ok s'))
    exit-ne-ok h = cc

-- The places that the performance model finds are not empty.
abbrev pub HasPlaces : Settings → Type 0
HasPlaces c = (it : ℕ) → 0 < pos_part (c.global_search_ptt it).1

-- What `wake` does to the queues.
pub record IsPut (c : Settings) (it : ℕ) (s s' : Runtime) : Type 0 where
  pub ready : IsFilled it s.ready_q s'.ready_q
  pub assembly : IsFilled it s.assembly_q s'.assembly_q
  pub log : s'.woken ≡ s.woken ++ it ∷ []
  pub there : HasPlaces c → (taken : List ℕ) → IsOffered s'.ready_q s'.assembly_q taken it

pub wake-IsPut :
    (c : Settings) (nthread it : ℕ) (s s' : Runtime) → wake c nthread it s ≡ ok s' → IsPut c it s s'
unfolding wake insert_task_in_assembly_queues insert_in_ready_queue
wake-IsPut c nthread it s s' e =
    let woken = wake-IsWoken c nthread it s s' e in
    elim (Bool-cases (eqb_ℤ (s.criticality it) (pos 1) && c.use_performance_modeling)) [
      | inl critical ↦
          let (fills, some) = distribute-IsAssembled c.nthreads it _ _ _ s' (rw critical at e) in
          record {
            ready = subst (IsFilled it s.ready_q) (sym fills.ready) (IsFilled-same it s.ready_q);
            assembly = fills.assembly;
            log = woken.log;
            there = λ places taken.
                let width : pos_part (update s.width it (c.global_search_ptt it).1 it)
                    ≡ pos_part (c.global_search_ptt it).1 =
                  ap pos_part (update_same s.width it (c.global_search_ptt it).1) in
                let (q, here) = some (omega (arith, width, places it)) in is_assembled q here;
          }
      | inr usual ↦ subst (IsPut c it s) (ok-injective (rw usual at e)) (record {
        ready = push-IsFilled it _ s.ready_q;
        assembly = IsFilled-same it s.assembly_q;
        log = refl;
        there = λ places taken. is_ready _ (push-some it _ s.ready_q);
      })
    ]
