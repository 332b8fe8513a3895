-- ===== src/Tasks/Safety.antt =====
-- The properties of every run of the task graph (src/poly_task.cpp, include/queue_manager.h).
use xitao.Prelude.{
  ℕ, ◌<◌, ◌≡◌, refl, sym, ap, ◌∙◌, true, List, arith, Bool-cases, inl, inr, dec_lt, count,
}
use xitao.Prelude.Int.{pos, pos_part}
use xitao.Prelude.Family.{sum-none, le-sum}
use xitao.Tasks.{Runtime, Settings}
use xitao.Tasks.Counts.{edges_to, open_edges_to, indegree, remaining, accounted, is_live}
use xitao.Tasks.Counted.{woken_count}
use xitao.Tasks.Offers.{HasPlaces}
use xitao.Tasks.Tracked.{IsHere}
use xitao.Tasks.Runs.{Reachable}
use xitao.Tasks.Upheld.{Reachable-IsRun}

-- A task that has been woken has been woken once, after its predecessors.
woken-after_predecessors :
    (c : Settings) (pushed taken : List ℕ) (s : Runtime) (t a : ℕ)
    → Reachable c pushed taken s
    → 0 < count t s.woken
    → a < s.size
    → 0 < count t (s.out a)
    → (s.committed a ≡ true) × (count t s.woken ≡ 1)
woken-after_predecessors c pushed taken s t a run awake from edge =
    let h = (Reachable-IsRun c pushed taken s run).counted in
    let once = woken_once (remaining s t) (indegree s t) (count t s.woken) (h.logged t) awake in
    (
      elim (Bool-cases (s.committed a)) [
        | inl ran ↦ ran
        | inr live ↦
            let here : open_edges_to t s.out s.committed a ≡ count t (s.out a) = rw live refl in
            absurd (
              omega (arith, once.0, le-sum s.size a (open_edges_to t s.out s.committed) from, here))
      ],
      once.1,
    )
  where
    woken_once : (left all n : ℕ) → n ≡ woken_count left all → 0 < n → (left ≡ 0) × (n ≡ 1)
    woken_once left all n e awake = ground arith

-- A task all of whose predecessors have committed has been woken once.
predecessors-woken :
    (c : Settings) (pushed taken : List ℕ) (s : Runtime) (t a : ℕ)
    → Reachable c pushed taken s
    → a < s.size
    → 0 < count t (s.out a)
    → ((b : ℕ) → b < s.size → 0 < count t (s.out b) → s.committed b ≡ true)
    → count t s.woken ≡ 1
predecessors-woken c pushed taken s t a run from edge all_ran =
    let h = (Reachable-IsRun c pushed taken s run).counted in
    let none_left : remaining s t ≡ 0 =
      sum-none s.size (open_edges_to t s.out s.committed) closed in
    let some_edge = le-sum s.size a (edges_to t s.out) from in
    woken_now (remaining s t) (indegree s t) (count t s.woken) (h.logged t) none_left
      (omega (arith, some_edge))
  where
    closed : (b : ℕ) → b < s.size → open_edges_to t s.out s.committed b ≡ 0
    closed b row = elim (dec_lt 0 (count t (s.out b))) [
      | yes edge_too ↦ rw (all_ran b row edge_too) refl
      | no no_edge ↦ ground arith
    ]

    woken_now : (left all n : ℕ) → n ≡ woken_count left all → left ≡ 0 → 0 < all → n ≡ 1
    woken_now left all n e none_left some = ground arith

-- In every run (tasks are constructed, get edges from tasks that have not committed to tasks that
-- have been neither woken nor pushed, are pushed if they have no predecessor, have their
-- affinity, criticality and place set, are taken out of the queues and then distributed to
-- assembly queues, and commit once each, and idle threads take their numbers off), a task with an
-- edge to it that stands in a ready queue or in an assembly queue, or that a thread has taken out
-- of one, has been woken once, and each task with an edge to it has committed.
pub offered-after_predecessors :
    (c : Settings) (pushed taken : List ℕ) (s : Runtime) (t a : ℕ)
    → Reachable c pushed taken s
    → IsHere s taken t
    → a < s.size
    → 0 < count t (s.out a)
    → (s.committed a ≡ true) × (count t s.woken ≡ 1)
offered-after_predecessors c pushed taken s t a run offered from edge =
    let h = Reachable-IsRun c pushed taken s run in
    let some_edge = le-sum s.size a (edges_to t s.out) from in
    let not_pushed : count t pushed ≡ 0 = elim (dec_lt 0 (count t pushed)) [
      | yes root ↦ absurd (let none_to = h.roots t root in omega (arith, some_edge))
      | no other ↦ ground arith
    ] in
    woken-after_predecessors c pushed taken s t a run
      (omega (arith, not_pushed, h.tracked.safe t offered)) from edge

-- In every run under a performance model whose global search finds places of positive width, once
-- all tasks with an edge to a task have committed, of which there is one at least, the task has
-- been woken once, and it stands in a ready queue or in an assembly queue, or a thread has taken
-- it out of one.
pub predecessors-offered :
    (c : Settings) (pushed taken : List ℕ) (s : Runtime) (t a : ℕ)
    → HasPlaces c
    → Reachable c pushed taken s
    → a < s.size
    → 0 < count t (s.out a)
    → ((b : ℕ) → b < s.size → 0 < count t (s.out b) → s.committed b ≡ true)
    → IsHere s taken t × (count t s.woken ≡ 1)
predecessors-offered c pushed taken s t a places run from edge all_ran =
    let once = predecessors-woken c pushed taken s t a run from edge all_ran in
    ((Reachable-IsRun c pushed taken s run).tracked.kept places t (omega (arith, once)), once)

-- In every run, `pending_tasks` is the number of tasks that have not committed, plus those left
-- in the pools of the threads, plus the completions that no thread has taken off yet.
pub pending_tasks-accounted :
    (c : Settings) (pushed taken : List ℕ) (s : Runtime)
    → Reachable c pushed taken s
    → s.pending_tasks ≡ pos (accounted s)
pending_tasks-accounted c pushed taken s run =
    (Reachable-IsRun c pushed taken s run).counted.pending

-- In every run, when `pending_tasks` is 0, as where `xitao_drain` returns and the threads leave
-- their loop, every task constructed so far has committed.
pub drained-all_committed :
    (c : Settings) (pushed taken : List ℕ) (s : Runtime) (a : ℕ)
    → Reachable c pushed taken s
    → s.pending_tasks ≡ pos 0
    → a < s.size
    → s.committed a ≡ true
drained-all_committed c pushed taken s a run drained from = elim (Bool-cases (s.committed a)) [
  | inl ran ↦ ran
  | inr live ↦
      let here : is_live s.committed a ≡ 1 = rw live refl in
      let nothing : accounted s ≡ 0 =
        pos_injective (sym (pending_tasks-accounted c pushed taken s run) ∙ drained) in
      absurd (omega (arith, le-sum s.size a (is_live s.committed) from, here, nothing))
]
  where
    pos_injective : {m n : ℕ} → pos m ≡ pos n → m ≡ n
    pos_injective e = ap pos_part e
