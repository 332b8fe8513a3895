-- ===== src/Tasks/Build.antt =====
-- The constructor of a task and `make_edge` (src/poly_task.cpp), and the invariant of the counts.
use xitao.Prelude.{
  ℕ, suc, ◌+◌, ◌-◌, ◌<◌, ◌≡◌, ◌≢◌, refl, sym, ap, ◌∙◌, subst, true, false, List, [], ◌∷◌, ◌++◌,
  ◌==◌, if◌then◌else◌, arith, ℕ_discrete, count, count-append,
}
use xitao.Prelude.Int.{ℤ, pos, ◌+ℤ◌}
use xitao.Prelude.Family.{update, update_same, update_other, sum}
use xitao.Prelude.Member.{push}
use xitao.Layout.{max_threads}
use xitao.Tasks.{Runtime, new_task, make_edge, at_start, task_pool_size}
use xitao.Tasks.Counts.{
  edges_to, open_edges_to, indegree, remaining, uncommitted, is_live, remaining_le, sum-fresh,
  sum-grown, sum-replaced,
}
use xitao.Tasks.Counted.{IsCounted, woken_count, woken_count-ext, pos_add}

-- Nothing is counted yet.
pub at_start-IsCounted : IsCounted at_start
unfolding sum
at_start-IsCounted = record {
  counts = λ t. refl;
  logged = λ t. refl;
  no_edge = λ t h. refl;
  not_run = λ t h. refl;
  pending = refl;
}

module _ (nthread : ℕ) (width : ℤ) (s : Runtime) (h : IsCounted s) where
  abbrev grown : Runtime
  grown = new_task nthread width s

  fresh_out : (k : ℕ) → k < s.size → s.out k ≡ update s.out s.size [] k
  fresh_out k row = sym (update_other s.out s.size k [] (λ e. omega arith))

  pub new_task-indegree : (t : ℕ) → indegree grown t ≡ indegree s t
  unfolding new_task
  new_task-indegree t =
      let sums =
        sum-fresh s.size (edges_to t s.out) (edges_to t (update s.out s.size []))
          (λ k row. ap (count t) (fresh_out k row)) in
      let last : edges_to t (update s.out s.size []) s.size ≡ 0 =
        ap (count t) (update_same s.out s.size []) in
      sums ∙ omega (arith, last)

  new_task-remaining : (t : ℕ) → remaining grown t ≡ remaining s t
  unfolding new_task
  new_task-remaining t =
      let after = open_edges_to t (update s.out s.size []) s.committed in
      let sums =
        sum-fresh s.size (open_edges_to t s.out s.committed) after (λ k row.
          ap (λ (l : List ℕ). if s.committed k then 0 else count t l) (fresh_out k row)) in
      let idle : s.committed s.size ≡ false = h.not_run s.size (omega arith) in
      let last : after s.size ≡ 0 = rw idle (ap (count t) (update_same s.out s.size [])) in
      sums ∙ omega (arith, last)

  new_task-uncommitted : uncommitted grown ≡ suc (uncommitted s)
  unfolding new_task
  new_task-uncommitted =
      let sums = sum-fresh s.size (is_live s.committed) (is_live s.committed) (λ k row. refl) in
      let idle : s.committed s.size ≡ false = h.not_run s.size (omega arith) in
      let last : is_live s.committed s.size ≡ 1 = rw idle refl in sums ∙ omega (arith, last)

pub new_task-IsCounted :
    (nthread : ℕ) (width : ℤ) (s : Runtime)
    → nthread < max_threads
    → IsCounted s
    → IsCounted (new_task nthread width s)
unfolding new_task
new_task-IsCounted nthread width s row h = record {
  counts = λ t. elim (ℕ_discrete s.size t) [
    | yes new ↦
        let none_left : remaining s t ≡ 0 =
          omega (arith, remaining_le s t, h.no_edge t (omega arith)) in
        subst (λ (u : ℕ). update s.refcount s.size (pos 0) u ≡ pos 0) new
          (update_same s.refcount s.size (pos 0))
        ∙ ap pos (sym none_left ∙ sym (new_task-remaining nthread width s h t))
    | no old ↦
        update_other s.refcount s.size t (pos 0) old
        ∙ h.counts t
        ∙ ap pos (sym (new_task-remaining nthread width s h t))
  ];
  logged = λ t.
      h.logged t
      ∙ woken_count-ext (sym (new_task-remaining nthread width s h t))
          (sym (new_task-indegree nthread width s h t));
  no_edge = λ t above. new_task-indegree nthread width s h t ∙ h.no_edge t (omega arith);
  not_run = λ t above. h.not_run t (omega arith);
  pending = elim (ℕ_discrete (s.task_pool nthread) 0) [
    | yes empty ↦
        let hit : (s.task_pool nthread == 0) ≡ true = ground arith in
        let replaced = sum-replaced max_threads nthread (task_pool_size - 1) s.task_pool row in
        rw hit (
          ap (λ (n : ℤ). n +ℤ pos task_pool_size) h.pending
          ∙ pos_add _ _ _ (omega (arith, replaced, new_task-uncommitted nthread width s h, empty)))
    | no some ↦
        let miss : (s.task_pool nthread == 0) ≡ false = ground arith in
        let replaced = sum-replaced max_threads nthread (s.task_pool nthread - 1) s.task_pool row in
        rw miss
          (h.pending ∙ ap pos (omega (arith, replaced, new_task-uncommitted nthread width s h)))
  ];
}

-- The new edge counts for its end `t` alone.
module _ (a t : ℕ) (s : Runtime) (from : a < s.size) (u : ℕ) where
  abbrev is_end : ℕ
  is_end = if t == u then 1 else 0

  push-count : count u (push s.out a t a) ≡ count u (s.out a) + is_end
  push-count =
      ap (count u) (update_same s.out a (s.out a ++ t ∷ [])) ∙ count-append u (s.out a) (t ∷ [])

  other_out : (k : ℕ) → a ≢ k → s.out k ≡ push s.out a t k
  other_out k ne = sym (update_other s.out a k (s.out a ++ t ∷ []) ne)

  pub make_edge-indegree : indegree (make_edge a t s) u ≡ indegree s u + is_end
  unfolding make_edge
  make_edge-indegree =
      sum-grown s.size a is_end (edges_to u s.out) (edges_to u (push s.out a t)) from
        (λ k ne. ap (count u) (other_out k ne)) push-count

  make_edge-remaining :
      s.committed a ≡ false → remaining (make_edge a t s) u ≡ remaining s u + is_end
  unfolding make_edge
  make_edge-remaining live =
      sum-grown s.size a is_end (open_edges_to u s.out s.committed)
        (open_edges_to u (push s.out a t) s.committed) from
        (λ k ne. ap (λ (l : List ℕ). if s.committed k then 0 else count u l) (other_out k ne))
        (rw live push-count)

edge_woken :
    (t u left all : ℕ)
    → (t ≡ u → woken_count left all ≡ 0)
    → woken_count left all
      ≡ woken_count (left + (if t == u then 1 else 0)) (all + (if t == u then 1 else 0))
edge_woken t u left all asleep = elim (ℕ_discrete t u) [
  | yes here ↦ let none = asleep here in ground arith
  | no elsewhere ↦ ground arith
]

pub make_edge-IsCounted :
    (a t : ℕ) (s : Runtime)
    → a < s.size
    → t < s.size
    → s.committed a ≡ false
    → count t s.woken ≡ 0
    → IsCounted s
    → IsCounted (make_edge a t s)
unfolding make_edge
make_edge-IsCounted a t s from to live asleep h = record {
  counts = λ u. elim (ℕ_discrete t u) [
    | yes here ↦
        let hit : (t == u) ≡ true = ground arith in
        let left : remaining (make_edge a t s) u ≡ remaining s u + 1 =
          make_edge-remaining a t s from u live ∙ rw hit refl in
        subst (λ (v : ℕ). update s.refcount t (s.refcount t +ℤ pos 1) v ≡ s.refcount v +ℤ pos 1)
          here (update_same s.refcount t (s.refcount t +ℤ pos 1))
        ∙ ap (λ (n : ℤ). n +ℤ pos 1) (h.counts u)
        ∙ pos_add _ _ _ (sym left)
    | no elsewhere ↦
        let miss : (t == u) ≡ false = ground arith in
        let left : remaining (make_edge a t s) u ≡ remaining s u =
          make_edge-remaining a t s from u live ∙ rw miss (omega arith) in
        update_other s.refcount t u (s.refcount t +ℤ pos 1) elsewhere
        ∙ h.counts u
        ∙ ap pos (sym left)
  ];
  logged = λ u.
      h.logged u
      ∙ edge_woken t u (remaining s u) (indegree s u)
          (λ here. sym (h.logged u) ∙ subst (λ (v : ℕ). count v s.woken ≡ 0) here asleep)
      ∙ woken_count-ext (sym (make_edge-remaining a t s from u live))
          (sym (make_edge-indegree a t s from u));
  no_edge = λ u above.
      let miss : (t == u) ≡ false = ground arith in
      make_edge-indegree a t s from u ∙ rw miss (omega (arith, h.no_edge u above));
  not_run = h.not_run;
  pending = h.pending;
}
