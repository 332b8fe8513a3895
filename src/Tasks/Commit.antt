-- ===== src/Tasks/Commit.antt =====
-- `commit_and_wakeup` (src/poly_task.cpp) and the invariant of the counts.
use xitao.Prelude.{
  ℕ, suc, ◌+◌, ◌-◌, ◌≤◌, ◌<◌, ◌≡◌, ◌≢◌, refl, sym, ap, ◌∙◌, subst, Bool, true, false, if◌then◌else◌,
  arith, count,
}
use xitao.Prelude.Int.{pos}
use xitao.Prelude.Family.{update, update_same, update_other, sum, sum-moved}
use xitao.Prelude.Result.{ok, >>=-eq-ok}
use xitao.Layout.{max_threads}
use xitao.Tasks.{Runtime, Settings, commit_and_wakeup, wake_all}
use xitao.Tasks.Counts.{
  open_edges_to, indegree, remaining, uncommitted, accounted, is_live, remaining_le, sum-replaced,
}
use xitao.Tasks.Rounds.{ok-injective, IsUntouched}
use xitao.Tasks.Effects.{IsNotified, hits, wake_all-IsUntouched, wake_all-IsNotified}
use xitao.Tasks.Counted.{IsCounted, woken_count, woken_count-ext}

-- What a commit changes: the edges of `a` are counted down and the task is no longer live.
module _ (a : ℕ) (s : Runtime) (from : a < s.size) (live : s.committed a ≡ false) where
  abbrev after : ℕ → Bool
  after = update s.committed a true

  other_flag : (k : ℕ) → a ≢ k → s.committed k ≡ after k
  other_flag k ne = sym (update_other s.committed a k true ne)

  flag : after a ≡ true
  flag = update_same s.committed a true

  edges_left :
      (t : ℕ) → remaining s t ≡ sum s.size (open_edges_to t s.out after) + count t (s.out a)
  edges_left t =
      let here : open_edges_to t s.out s.committed a ≡ count t (s.out a) = rw live refl in
      let gone : open_edges_to t s.out after a ≡ 0 = rw flag refl in
      let moved =
        sum-moved s.size a (open_edges_to t s.out s.committed) (open_edges_to t s.out after) from
          (λ k ne. ap (λ (b : Bool). if b then 0 else count t (s.out k)) (other_flag k ne)) in
      omega (arith, moved, here, gone)

  live_left : uncommitted s ≡ suc (sum s.size (is_live after))
  live_left =
      let here : is_live s.committed a ≡ 1 = rw live refl in
      let gone : is_live after a ≡ 0 = rw flag refl in
      let moved =
        sum-moved s.size a (is_live s.committed) (is_live after) from
          (λ k ne. ap (λ (b : Bool). if b then 0 else 1) (other_flag k ne)) in
      omega (arith, moved, here, gone)

commit_woken :
    (left all k n : ℕ)
    → k ≤ left
    → left ≤ all
    → n ≡ woken_count left all + hits left k
    → n ≡ woken_count (left - k) all
commit_woken left all k n few fewer e = ground arith

abbrev finished : ℕ → ℕ → Runtime → Runtime
finished nthread a s = record s {
  task_completions = update s.task_completions nthread (suc (s.task_completions nthread));
  committed = update s.committed a true;
}

finished-IsCounted :
    (nthread a : ℕ) (s s1 : Runtime)
    → nthread < max_threads
    → a < s.size
    → s.committed a ≡ false
    → IsUntouched s s1
    → ((t : ℕ) → IsNotified t (remaining s t) (count t (s.out a)) s s1)
    → IsCounted s
    → IsCounted (finished nthread a s1)
finished-IsCounted nthread a s s1 row from live same notes h = record {
  counts =
      λ t. (notes t).counted ∙ ap pos (omega (arith, edges_left a s from live t) ∙ sym (left t));
  logged = λ t.
      commit_woken (remaining s t) (indegree s t) (count t (s.out a)) (count t s1.woken)
        (omega (arith, edges_left a s from live t)) (remaining_le s t)
        ((notes t).logged
          ∙ ap (λ (n : ℕ). n + hits (remaining s t) (count t (s.out a))) (h.logged t))
      ∙ woken_count-ext (omega (arith, edges_left a s from live t) ∙ sym (left t)) (sym (all t));
  no_edge = λ t above. all t ∙ h.no_edge t (rw same.sizes at above);
  not_run = λ t above.
      let behind : s.size ≤ t = rw same.sizes at above in
      let other : a ≢ t = λ e. omega arith in
      update_other s1.committed a t true other
      ∙ ap (λ (f : ℕ → Bool). f t) same.commits
      ∙ h.not_run t behind;
  pending =
      let more =
        sum-replaced max_threads nthread (suc (s.task_completions nthread)) s.task_completions
          row in
      same.pendings ∙ h.pending ∙ ap pos (omega (arith, more, live_left a s from live) ∙ sym total);
}
  where
    left :
        (t : ℕ)
        → remaining (finished nthread a s1) t
          ≡ sum s.size (open_edges_to t s.out (update s.committed a true))
    left t = rw (same.sizes, same.outs, same.commits) refl

    total :
        accounted (finished nthread a s1)
        ≡ sum s.size (is_live (update s.committed a true))
          + sum max_threads s.task_pool
          + sum max_threads (update s.task_completions nthread (suc (s.task_completions nthread)))
    total = rw (same.sizes, same.commits, same.pools, same.completions) refl

    all : (t : ℕ) → indegree (finished nthread a s1) t ≡ indegree s t
    all t = rw (same.sizes, same.outs) refl

pub commit_and_wakeup-IsCounted :
    (c : Settings) (nthread a : ℕ) (s s' : Runtime)
    → nthread < max_threads
    → a < s.size
    → s.committed a ≡ false
    → commit_and_wakeup c nthread a s ≡ ok s'
    → IsCounted s
    → IsCounted s'
unfolding commit_and_wakeup
commit_and_wakeup-IsCounted c nthread a s s' row from live e h =
    let (s1, wakes, done) = >>=-eq-ok (wake_all c nthread (s.out a) s) _ e in
    subst IsCounted (ok-injective done) (
      finished-IsCounted nthread a s s1 row from live
        (wake_all-IsUntouched c nthread (s.out a) s s1 wakes)
        (λ t.
          wake_all-IsNotified c nthread t (remaining s t) (s.out a) s s1 (h.counts t)
            (omega (arith, edges_left a s from live t)) wakes)
        h)
