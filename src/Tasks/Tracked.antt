-- ===== src/Tasks/Tracked.antt =====
-- The invariant of the queues (src/poly_task.cpp, include/queue_manager.h): they hold the tasks that
-- were woken or pushed, and no others.
use xitao.Prelude.{
  ℕ, ◌+◌, ◌<◌, ◌≡◌, sym, ap, ◌∙◌, subst, ◌⊎◌, inl, inr, List, [], ◌∷◌, ◌==◌, if◌then◌else◌, arith,
  Bool-cases, ℕ_discrete, count, count-append,
}
use xitao.Prelude.Int.{pos, eqb_ℤ, ◌-ℤ◌}
use xitao.Prelude.Family.{update}
use xitao.Prelude.Result.{ok, >>=-eq-ok}
use xitao.Tasks.{
  Runtime, Settings, wake, wake_all, commit_and_wakeup, insert_in_ready_queue,
  insert_task_in_assembly_queues,
}
use xitao.Tasks.Rounds.{ok-injective, distribute-IsQuiet}
use xitao.Tasks.Offers.{
  IsOffered, is_ready, is_assembled, is_taken, IsFilled, IsFilled-same, push-IsFilled, push-some,
  distribute-IsAssembled, HasPlaces, wake-IsPut,
}

-- How often a task was woken by a predecessor or pushed from outside.
abbrev pub handed : Runtime → List ℕ → ℕ → ℕ
handed s pushed t = count t s.woken + count t pushed

abbrev pub IsHere : Runtime → List ℕ → ℕ → Type 0
IsHere s taken t = IsOffered s.ready_q s.assembly_q taken t

pub record IsTracked (c : Settings) (pushed taken : List ℕ) (s : Runtime) : Type 0 where
  pub safe : (t : ℕ) → IsHere s taken t → 0 < handed s pushed t
  pub kept : HasPlaces c → (t : ℕ) → 0 < handed s pushed t → IsHere s taken t

-- The queues get task `x`, which is handed once more.
module _ (x : ℕ) (r r' a a' : ℕ → List ℕ) (fr : IsFilled x r r') (fa : IsFilled x a a')
    (taken : List ℕ) (t : ℕ) where
  IsOffered-before : IsOffered r' a' taken t → IsOffered r a taken t ⊎ (x ≡ t)
  IsOffered-before (is_ready q h) = elim (fr.only t q h) [
    | inl old ↦ inl (is_ready q old)
    | inr new ↦ inr new
  ]
  IsOffered-before (is_assembled q h) = elim (fa.only t q h) [
    | inl old ↦ inl (is_assembled q old)
    | inr new ↦ inr new
  ]
  IsOffered-before (is_taken h) = inl (is_taken h)

  IsOffered-still : IsOffered r a taken t → IsOffered r' a' taken t
  IsOffered-still (is_ready q h) = is_ready q (fr.grows t q h)
  IsOffered-still (is_assembled q h) = is_assembled q (fa.grows t q h)
  IsOffered-still (is_taken h) = is_taken h

filled-IsTracked :
    (c : Settings) (x : ℕ) (pushed pushed' taken : List ℕ) (s s' : Runtime)
    → IsFilled x s.ready_q s'.ready_q
    → IsFilled x s.assembly_q s'.assembly_q
    → ((t : ℕ) → handed s' pushed' t ≡ handed s pushed t + (if x == t then 1 else 0))
    → (HasPlaces c → IsHere s' taken x)
    → IsTracked c pushed taken s
    → IsTracked c pushed' taken s'
filled-IsTracked c x pushed pushed' taken s s' fr fa more there h = record {
  safe = λ t offered.
      elim (IsOffered-before x s.ready_q s'.ready_q s.assembly_q s'.assembly_q fr fa taken t
        offered) [
          | inl old ↦ omega (arith, more t, h.safe t old)
          | inr new ↦ let n = more t in ground arith
        ];
  kept = λ places t some. elim (ℕ_discrete x t) [
    | yes here ↦ subst (IsHere s' taken) here (there places)
    | no other ↦
        let n = more t in
        IsOffered-still x s.ready_q s'.ready_q s.assembly_q s'.assembly_q fr fa taken t
          (h.kept places t (ground arith))
  ];
}

wake-IsTracked :
    (c : Settings) (nthread it : ℕ) (pushed taken : List ℕ) (s s' : Runtime)
    → wake c nthread it s ≡ ok s'
    → IsTracked c pushed taken s
    → IsTracked c pushed taken s'
wake-IsTracked c nthread it pushed taken s s' e h =
    let put = wake-IsPut c nthread it s s' e in
    filled-IsTracked c it pushed pushed taken s s' put.ready put.assembly
      (λ t.
        ap (λ (l : List ℕ). count t l + count t pushed) put.log
        ∙ (let n = count-append t s.woken (it ∷ []) in omega (arith, n)))
      (λ places. put.there places taken) h

wake_all-IsTracked :
    (c : Settings) (nthread : ℕ) (its pushed taken : List ℕ) (s s' : Runtime)
    → wake_all c nthread its s ≡ ok s'
    → IsTracked c pushed taken s
    → IsTracked c pushed taken s'
unfolding wake_all
wake_all-IsTracked c nthread [] pushed taken s s' e h =
    subst (IsTracked c pushed taken) (ok-injective e) h
wake_all-IsTracked c nthread (it ∷ its) pushed taken s s' e h =
    let (between, first, later) = >>=-eq-ok _ (wake_all c nthread its) e in
    let s1 = record s { refcount = update s.refcount it (s.refcount it -ℤ pos 1) } in
    let lowered : IsTracked c pushed taken s1 = record { safe = h.safe; kept = h.kept } in
    wake_all-IsTracked c nthread its pushed taken between s' later
      (elim (Bool-cases (eqb_ℤ (s.refcount it) (pos 1))) [
        | inl last ↦ wake-IsTracked c nthread it pushed taken _ between (rw last at first) lowered
        | inr more ↦ subst (IsTracked c pushed taken) (ok-injective (rw more at first)) lowered
      ])

pub commit_and_wakeup-IsTracked :
    (c : Settings) (nthread a : ℕ) (pushed taken : List ℕ) (s s' : Runtime)
    → commit_and_wakeup c nthread a s ≡ ok s'
    → IsTracked c pushed taken s
    → IsTracked c pushed taken s'
unfolding commit_and_wakeup
commit_and_wakeup-IsTracked c nthread a pushed taken s s' e h =
    let (s1, wakes, done) = >>=-eq-ok (wake_all c nthread (s.out a) s) _ e in
    let woken = wake_all-IsTracked c nthread (s.out a) pushed taken s s1 wakes h in
    subst (IsTracked c pushed taken) (ok-injective done)
      (record { safe = woken.safe; kept = woken.kept })

-- A task that is pushed from outside.
pub insert_in_ready_queue-IsTracked :
    (c : Settings) (x nthread : ℕ) (pushed taken : List ℕ) (s : Runtime)
    → IsTracked c pushed taken s
    → IsTracked c (x ∷ pushed) taken (insert_in_ready_queue x nthread s)
unfolding insert_in_ready_queue
insert_in_ready_queue-IsTracked c x nthread pushed taken s h =
    filled-IsTracked c x pushed (x ∷ pushed) taken s (insert_in_ready_queue x nthread s)
      (push-IsFilled x nthread s.ready_q) (IsFilled-same x s.assembly_q)
      (λ t. let n = count-append t (x ∷ []) pushed in omega (arith, n))
      (λ places. is_ready nthread (push-some x nthread s.ready_q)) h

-- A task that a thread has taken is put into assembly queues.
pub insert_task_in_assembly_queues-IsTracked :
    (c : Settings) (x : ℕ) (pushed taken : List ℕ) (s s' : Runtime)
    → 0 < count x taken
    → insert_task_in_assembly_queues c.nthreads x s ≡ ok s'
    → IsTracked c pushed taken s
    → IsTracked c pushed taken s'
unfolding insert_task_in_assembly_queues
insert_task_in_assembly_queues-IsTracked c x pushed taken s s' held e h =
    let fills = (distribute-IsAssembled c.nthreads x _ _ s s' e).0 in
    let log = (distribute-IsQuiet c.nthreads x _ _ s s' e).log in
    let fr = subst (IsFilled x s.ready_q) (sym fills.ready) (IsFilled-same x s.ready_q) in
    let handed_same : (t : ℕ) → handed s' pushed t ≡ handed s pushed t =
      λ t. ap (λ (l : List ℕ). count t l + count t pushed) log in
    record {
      safe = λ t offered.
          elim (IsOffered-before x s.ready_q s'.ready_q s.assembly_q s'.assembly_q fr fills.assembly
            taken t offered) [
              | inl old ↦ omega (arith, handed_same t, h.safe t old)
              | inr new ↦
                  subst (λ (u : ℕ). 0 < handed s' pushed u) new
                    (omega (arith, handed_same x, h.safe x (is_taken held)))
            ];
      kept = λ places t some.
          IsOffered-still x s.ready_q s'.ready_q s.assembly_q s'.assembly_q fr fills.assembly taken
            t (h.kept places t (omega (arith, handed_same t)));
    }
