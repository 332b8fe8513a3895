-- ===== src/Sched.antt =====
-- src/tao_sched.cpp, lines 55 to 249, with the globals of src/xitao_workspace.cpp: how the runtime
-- is set up and how tasks are pushed. The environment, `rand()` and `sched_getcpu()` are arguments.
-- A number of threads below 0 acts as 0, since it only bounds loops.
pub mod Mask
pub mod Places
pub mod Push
pub mod Stealing
pub mod Assembly
pub mod Worker
pub mod Single
use xitao.Prelude.{
  ℕ, zero, suc, ◌+◌, ◌-◌, ◌*◌, ◌/◌, ◌%◌, Bool, true, false, not, ◌&&◌, List, [], ◌∷◌, Option, none,
  some, ltb, leb, ◌==◌, if◌then◌else◌,
}
use xitao.Prelude.Int.{ℤ, pos, negsuc, pos_part, minus_one, leb_ℤ, ltb_ℤ, eqb_ℤ}
use xitao.Prelude.Family.{update}
use xitao.Prelude.Result.{Result, ok, exit, ◌>>=◌}
use xitao.Layout.{
  Place, Layout, LayoutExit, max_threads, clear_layout_partitions, prepare_default_layout,
  read_layout_table,
}
use xitao.Tasks.{Runtime, insert_in_ready_queue}

pub record Scheduler : Type 0 where
  pub layout : Layout  -- with `xitao_nthreads`
  pub gotao_ncontexts : ℤ
  pub gotao_thread_base : ℤ
  pub gotao_can_exit : Bool
  pub gotao_initialized : Bool
  pub gotao_started : Bool
  pub resources_runtime_controlled : Bool
  pub suppress_init_warnings : Bool
  pub runtime_resource_mapper : ℕ → ℕ
  pub mapper_size : ℕ
  pub tao_total_steals : ℕ

-- The ways in which the process stops; `endless` says that the rounds of a loop ran out, and
-- `outside_queues` stands for an undefined access by a negative number.
pub data SchedExit : Type 0 where
  too_many_threads : SchedExit
  layout_error : LayoutExit → SchedExit
  endless outside_queues : SchedExit

-- The variables of the environment, by the values that `getenv` gives.
pub record Environment : Type 0 where
  pub gotao_nthreads : Option (List ℕ)
  pub xitao_layout_path : Option (Option (List (List ℕ)))  -- the lines of the file, if it opens
  pub gotao_hw_contexts : Option (List ℕ)
  pub gotao_thread_base : Option (List ℕ)

-- The loop of `set_xitao_mask`, at CPU `i`.
unfoldable pub mask_loop : (ℕ → Bool) → ℕ → ℕ → ℕ → (ℕ → ℕ) → ℕ → ℕ
mask_loop cpu_isset zero i j mapper = mapper
mask_loop cpu_isset (suc more) i j mapper =
    let here = cpu_isset i in
    mask_loop cpu_isset more (suc i) (if here then suc j else j)
      (if here then update mapper j i else mapper)

-- `runtime_resource_mapper.resize(n)`
unfoldable pub resize : ℕ → Scheduler → Scheduler
resize n s = record s {
  runtime_resource_mapper = λ k. if ltb k s.mapper_size then s.runtime_resource_mapper k else 0;
  mapper_size = n;
}

unfoldable pub set_xitao_mask : (ℕ → Bool) → ℕ → Scheduler → Scheduler
set_xitao_mask cpu_isset cpu_count s =
    if not s.gotao_initialized
    then (let s' = resize cpu_count s in
        record s' {
          resources_runtime_controlled = true;
          runtime_resource_mapper = mask_loop cpu_isset max_threads 0 0 s'.runtime_resource_mapper;
        })
    else s

unfoldable pub lift_layout : Result LayoutExit Layout → Result SchedExit Layout
lift_layout (ok l) = ok l
lift_layout (exit e) = exit (layout_error e)

module _ (atoi : List ℕ → ℤ) (stoi : List ℕ → Option ℤ) where
  -- A number that is given, or the environment's, or a default.
  unfoldable pub given_or : ℤ → Option (List ℕ) → ℤ → ℤ
  given_or n none default = if leb_ℤ (pos 0) n then n else default
  given_or n (some text) default = if leb_ℤ (pos 0) n then n else atoi text

  -- `static_resource_mapper[i] = i` and the default partitions, or those of the file.
  unfoldable pub init_layout :
      Bool → Option (Option (List (List ℕ))) → Layout → Result SchedExit Layout
  init_layout controlled (some file) l =
      if not controlled then lift_layout (read_layout_table stoi file l) else ok l
  init_layout controlled none l = ok (
      prepare_default_layout l.nthreads (
        if not controlled
        then record l {
          static_resource_mapper =
              λ i. if ltb i max_threads then pos i else l.static_resource_mapper i;
        }
        else l))

  unfoldable pub xitao_init_hw : Environment → ℤ → ℤ → ℤ → Scheduler → Result SchedExit Scheduler
  xitao_init_hw env nthr thrb nhwc s =
      let l = if s.gotao_initialized then clear_layout_partitions s.layout else s.layout in
      let wanted = given_or nthr env.gotao_nthreads (pos max_threads) in
      if ltb_ℤ (pos max_threads) wanted
      then exit too_many_threads
      else init_layout s.resources_runtime_controlled env.xitao_layout_path (record l {
        nthreads = if s.resources_runtime_controlled then s.mapper_size else pos_part wanted;
      })
        >>= λ l'. ok (record s {
          layout = l';
          gotao_ncontexts = given_or nhwc env.gotao_hw_contexts (pos 1);
          gotao_thread_base = given_or thrb env.gotao_thread_base (pos 0);
          suppress_init_warnings = true;
          gotao_initialized = true;
        })

-- Threads that `xitao_start` creates, if it has not been called before.
unfoldable pub xitao_start : Scheduler → ℕ × Scheduler
xitao_start s =
    if s.gotao_started then (0, s) else (s.layout.nthreads, record s { gotao_started = true })

unfoldable pub xitao_fini : Scheduler → Scheduler
xitao_fini s = record s {
  resources_runtime_controlled = false;
  gotao_can_exit = true;
  gotao_started = false;
  tao_total_steals = 0;
}

-- `rand()` gives `draw`. The `int` is compared as a `size_t`.
unfoldable pub check_and_get_available_queue : ℕ → ℤ → Scheduler → ℕ
check_and_get_available_queue draw (pos queue) s =
    if leb s.mapper_size queue then draw % s.mapper_size else queue
check_and_get_available_queue draw (negsuc queue) s = draw % s.mapper_size

-- `inclusive_partitions[queue].size() == 0`
abbrev pub no_places : List Place → Bool
no_places [] = true
no_places (p ∷ places) = false

-- The loop of `xitao_push`, with a bound on its rounds.
unfoldable pub find_queue : ℕ → ℕ → Layout → Option ℕ
find_queue zero queue l = none
find_queue (suc rounds) queue l =
    let rest = find_queue rounds (suc queue % l.nthreads) l in
    if no_places (l.inclusive_partitions queue) then rest else some queue

-- The queue that is asked for: it depends on the argument, the task, and the current CPU.
unfoldable pub wanted_queue : Bool → ℤ → ℤ → ℤ → ℤ
wanted_queue sta affinity_queue queue here =
    if eqb_ℤ queue minus_one && (not (eqb_ℤ affinity_queue minus_one) && sta)
    then affinity_queue
    else if eqb_ℤ queue minus_one
    then here
    else queue

-- What a queue number indexes.
unfoldable pub queue_index : ℤ → Result SchedExit ℕ
queue_index (pos queue) = ok queue
queue_index (negsuc queue) = exit outside_queues

unfoldable pub found_queue : Option ℕ → Result SchedExit ℕ
found_queue none = exit endless
found_queue (some queue) = ok queue

-- The queue that `xitao_push` takes.
unfoldable pub push_queue : ℕ → ℕ → ℤ → Scheduler → Result SchedExit ℕ
push_queue rounds draw queue s =
    if s.resources_runtime_controlled
    then ok (check_and_get_available_queue draw queue s)
    else (queue_index queue >>= λ first. found_queue (find_queue rounds first s.layout))

-- `xitao_push`, without the table of times that it may insert.
unfoldable pub xitao_push :
    Bool → ℕ → ℕ → ℤ → Scheduler → ℕ → ℤ → Runtime → Result SchedExit Runtime
xitao_push sta rounds draw here s pt queue r =
    push_queue rounds draw (wanted_queue sta (r.affinity_queue pt) queue here) s >>= λ chosen.
    ok (insert_in_ready_queue pt chosen r)

unfoldable pub gotao_push_init : ℕ → Scheduler → ℕ → ℤ → Runtime → Result SchedExit (ℤ × Runtime)
gotao_push_init draw s pt queue r =
    let wanted = wanted_queue true (r.affinity_queue pt) queue s.gotao_thread_base in
    (if s.resources_runtime_controlled
      then ok (check_and_get_available_queue draw wanted s)
      else queue_index wanted)
    >>= λ chosen. ok (pos 1, insert_in_ready_queue pt chosen r)
