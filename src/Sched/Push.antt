-- ===== src/Sched/Push.antt =====
-- The search of `xitao_push` of src/tao_sched.cpp for a queue.
use xitao.Prelude.{
  ℕ, zero, suc, ◌+◌, ◌-◌, ◌%◌, ◌≤◌, ◌<◌, ◌≡◌, ◌≢◌, refl, ap, Bool, true, false, some, none,
  if◌then◌else◌, arith, Bool-cases, inl, inr, leb, ℕ_discrete,
}
use xitao.Prelude.Int.{ℤ, pos}
use xitao.Prelude.Result.{ok, exit}
use xitao.Layout.{Layout}
use xitao.Tasks.{Runtime, insert_in_ready_queue}
use xitao.Sched.{
  Scheduler, no_places, find_queue, push_queue, queue_index, found_queue, wanted_queue, xitao_push,
  endless,
}

-- Rounds from queue `q` until queue `t` is reached.
abbrev distance : ℕ → ℕ → ℕ → ℕ
distance n q t = if leb q t then t - q else n - q + t

distance_next :
    (n q t : ℕ)
    → q < n
    → t < n
    → q ≢ t
    → (suc q % n < n) × (distance n q t ≡ suc (distance n (suc q % n) t))
distance_next n q t below there ne = elim (ℕ_discrete (suc q) n) [
  | yes last ↦ let e : suc q % n ≡ 0 = grind arith in rw e (omega arith, ground arith)
  | no more ↦ let e : suc q % n ≡ suc q = grind arith in rw e (omega arith, ground arith)
]

find_queue-finds :
    (rounds q t : ℕ) (l : Layout)
    → q < l.nthreads
    → t < l.nthreads
    → no_places (l.inclusive_partitions t) ≡ false
    → distance l.nthreads q t < rounds
    → (q' : ℕ) × (find_queue rounds q l ≡ some q')
      × (q' < l.nthreads)
      × (no_places (l.inclusive_partitions q') ≡ false)
unfolding find_queue
find_queue-finds zero q t l below there places fuel = absurd (omega arith)
find_queue-finds (suc rounds) q t l below there places fuel =
    elim (Bool-cases (no_places (l.inclusive_partitions q))) [
      | inr some_here ↦ (q, rw some_here refl, below, some_here)
      | inl none_here ↦ elim (ℕ_discrete q t) [
        | yes same ↦
            absurd (let e = ap (λ (x : ℕ). no_places (l.inclusive_partitions x)) same in cc)
        | no ne ↦
            let (below', less) = distance_next l.nthreads q t below there ne in
            let (q', runs, small, found) =
              find_queue-finds rounds (suc q % l.nthreads) t l below' there places (omega arith) in
            (q', rw none_here runs, small, found)
      ]
    ]

-- Without a mask, where the wanted queue is one of the threads' and some thread is in a place,
-- the search of `xitao_push` ends within as many rounds as there are threads, and the task is put
-- into the ready queue of a thread that is in a place.
pub xitao_push-finds :
    (sta : Bool) (rounds draw : ℕ) (here : ℤ) (s : Scheduler) (pt : ℕ) (queue : ℤ) (r : Runtime)
    (wanted t : ℕ)
    → s.resources_runtime_controlled ≡ false
    → wanted_queue sta (r.affinity_queue pt) queue here ≡ pos wanted
    → wanted < s.layout.nthreads
    → t < s.layout.nthreads
    → no_places (s.layout.inclusive_partitions t) ≡ false
    → s.layout.nthreads ≤ rounds
    → (q : ℕ) × (xitao_push sta rounds draw here s pt queue r ≡ ok (insert_in_ready_queue pt q r))
      × (q < s.layout.nthreads)
      × (no_places (s.layout.inclusive_partitions q) ≡ false)
unfolding xitao_push push_queue queue_index found_queue
xitao_push-finds sta rounds draw here s pt queue r wanted t free asked below there places fuel =
    let near : distance s.layout.nthreads wanted t < rounds = ground arith in
    let (q, finds, small, found) =
      find_queue-finds rounds wanted t s.layout below there places near in
    (q, rw (free, asked) (rw finds refl), small, found)

find_queue_endless :
    (rounds q : ℕ) (l : Layout)
    → q < l.nthreads
    → ((t : ℕ) → t < l.nthreads → no_places (l.inclusive_partitions t) ≡ true)
    → find_queue rounds q l ≡ none
unfolding find_queue
find_queue_endless zero q l below empty = refl
find_queue_endless (suc rounds) q l below empty =
    let next : suc q % l.nthreads < l.nthreads = grind arith in
    rw (empty q below) (find_queue_endless rounds (suc q % l.nthreads) l next empty)

-- Where no thread is in a place, no number of rounds is enough for a push.
pub xitao_push_endless :
    (sta : Bool) (rounds draw : ℕ) (here : ℤ) (s : Scheduler) (pt : ℕ) (queue : ℤ) (r : Runtime)
    (wanted : ℕ)
    → s.resources_runtime_controlled ≡ false
    → wanted_queue sta (r.affinity_queue pt) queue here ≡ pos wanted
    → wanted < s.layout.nthreads
    → ((t : ℕ) → t < s.layout.nthreads → no_places (s.layout.inclusive_partitions t) ≡ true)
    → xitao_push sta rounds draw here s pt queue r ≡ exit endless
unfolding xitao_push push_queue queue_index found_queue
xitao_push_endless sta rounds draw here s pt queue r wanted free asked below empty =
    let none = find_queue_endless rounds wanted s.layout below empty in
    rw (free, asked) (rw none refl)
