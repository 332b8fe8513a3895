-- ===== src/Tasks/Rounds.antt =====
-- One round of the loop of `commit_and_wakeup` (src/poly_task.cpp).
use xitao.Prelude.{
  ℕ, zero, suc, ◌≡◌, refl, subst, ◌∙◌, ◌&&◌, List, [], ◌∷◌, ◌++◌, if◌then◌else◌, Bool-cases, inl,
  inr,
}
use xitao.Prelude.Int.{ℤ, pos, pos_part, minus_one, ltb_ℤ, leb_ℤ, eqb_ℤ, ◌+ℤ◌}
use xitao.Prelude.Family.{update}
use xitao.Prelude.Member.{push}
use xitao.Prelude.Result.{Result, ok, exit}
use xitao.Tasks.{
  Runtime, Settings, QueueExit, no_such_queue, distribute, insert_task_in_assembly_queues,
  insert_in_ready_queue, wake,
}

-- The graph and the accounting are the same.
pub record IsUntouched (s s' : Runtime) : Type 0 where
  pub sizes : s'.size ≡ s.size
  pub outs : s'.out ≡ s.out
  pub commits : s'.committed ≡ s.committed
  pub pendings : s'.pending_tasks ≡ s.pending_tasks
  pub pools : s'.task_pool ≡ s.task_pool
  pub completions : s'.task_completions ≡ s.task_completions

pub IsUntouched-trans : (a b c : Runtime) → IsUntouched a b → IsUntouched b c → IsUntouched a c
IsUntouched-trans a b c x y = record {
  sizes = y.sizes ∙ x.sizes;
  outs = y.outs ∙ x.outs;
  commits = y.commits ∙ x.commits;
  pendings = y.pendings ∙ x.pendings;
  pools = y.pools ∙ x.pools;
  completions = y.completions ∙ x.completions;
}

-- The reference counts and the log are the same too.
pub record IsQuiet (s s' : Runtime) : Type 0 where
  pub rest : IsUntouched s s'
  pub refcounts : s'.refcount ≡ s.refcount
  pub log : s'.woken ≡ s.woken

pub ok-injective : {s s' : Runtime} → ◌≡◌ {A = Result QueueExit Runtime} (ok s) (ok s') → s ≡ s'
ok-injective {s} {s'} e = cc

pub same : (s : Runtime) → IsUntouched s s
same s = record {
  sizes = refl;
  outs = refl;
  commits = refl;
  pendings = refl;
  pools = refl;
  completions = refl;
}

-- Only the queues change, and where the tasks belong.
abbrev pub rearranged :
    (affinity criticality leader width : ℕ → ℤ) (ready assembly : ℕ → List ℕ) → Runtime → Runtime
rearranged affinity criticality leader width ready assembly s = record s {
  affinity_queue = affinity;
  criticality = criticality;
  leader = leader;
  width = width;
  ready_q = ready;
  assembly_q = assembly;
}

pub rearranged-IsQuiet :
    (affinity criticality leader width : ℕ → ℤ) (ready assembly : ℕ → List ℕ) (s : Runtime)
    → IsQuiet s (rearranged affinity criticality leader width ready assembly s)
rearranged-IsQuiet affinity criticality leader width ready assembly s = record {
  rest = record {
    sizes = refl;
    outs = refl;
    commits = refl;
    pendings = refl;
    pools = refl;
    completions = refl;
  };
  refcounts = refl;
  log = refl;
}

pub distribute-IsQuiet :
    (nthreads : ℤ) (task n : ℕ) (i : ℤ) (s s' : Runtime)
    → distribute nthreads task n i s ≡ ok s'
    → IsQuiet s s'
unfolding distribute
distribute-IsQuiet nthreads task zero i s s' e =
    subst (IsQuiet s) (ok-injective e) (record { rest = same s; refcounts = refl; log = refl })
distribute-IsQuiet nthreads task (suc n) i s s' e =
    elim (Bool-cases (ltb_ℤ i nthreads && leb_ℤ (pos 0) i)) [
      | inl queue ↦
          let q = distribute-IsQuiet nthreads task n (i +ℤ pos 1) _ s' (rw queue at e) in
          record {
            rest = IsUntouched-trans s _ s' only_queues q.rest;
            refcounts = q.refcounts;
            log = q.log;
          }
      | inr no_queue ↦ absurd (exit-ne-ok (rw no_queue at e))
    ]
  where
    exit-ne-ok : ¬ (◌≡◌ {A = Result QueueExit Runtime} (exit no_such_queue) (ok s'))
    exit-ne-ok h = cc

    only_queues : IsUntouched s (record s { assembly_q = push s.assembly_q (pos_part i) task })
    only_queues = record {
      sizes = refl;
      outs = refl;
      commits = refl;
      pendings = refl;
      pools = refl;
      completions = refl;
    }

-- A task that is woken is logged; else nothing changes but queues, and its place.
pub record IsWoken (it : ℕ) (s s' : Runtime) : Type 0 where
  pub rest : IsUntouched s s'
  pub refcounts : s'.refcount ≡ s.refcount
  pub log : s'.woken ≡ s.woken ++ it ∷ []

pub wake-IsWoken :
    (c : Settings) (nthread it : ℕ) (s s' : Runtime) → wake c nthread it s ≡ ok s' → IsWoken it s s'
unfolding wake insert_task_in_assembly_queues insert_in_ready_queue
wake-IsWoken c nthread it s s' e =
    elim (Bool-cases (eqb_ℤ (s.criticality it) (pos 1) && c.use_performance_modeling)) [
      | inl critical ↦
          let q = distribute-IsQuiet c.nthreads it _ _ _ s' (rw critical at e) in
          record {
            rest = IsUntouched-trans s _ s' placed q.rest;
            refcounts = q.refcounts;
            log = q.log;
          }
      | inr usual ↦
          subst (IsWoken it s) (ok-injective (rw usual at e))
            (record { rest = queued; refcounts = refl; log = refl })
    ]
  where
    placed : IsUntouched s (record s {
      leader = update s.leader it (c.global_search_ptt it).0;
      width = update s.width it (c.global_search_ptt it).1;
      woken = s.woken ++ it ∷ [];
    })
    placed = record {
      sizes = refl;
      outs = refl;
      commits = refl;
      pendings = refl;
      pools = refl;
      completions = refl;
    }

    queued : IsUntouched s (
        insert_in_ready_queue it
          (if eqb_ℤ (s.affinity_queue it) minus_one
            then nthread
            else pos_part (s.affinity_queue it))
          (record s { woken = s.woken ++ it ∷ [] }))
    queued = record {
      sizes = refl;
      outs = refl;
      commits = refl;
      pendings = refl;
      pools = refl;
      completions = refl;
    }
