-- ===== src/Perf.antt =====
-- include/perf_model.h, and the performance trace tables (PTT) of src/xitao_ptt.cpp and
-- src/poly_task.cpp: how the runtime picks the place of a task.
-- A PTT entry is a `float`: the type and its operations are a parameter. `rand()` is an argument.
pub mod Table
pub mod Search
pub mod Mold
use xitao.Prelude.{
  ℕ, zero, suc, ◌+◌, ◌-◌, ◌*◌, ◌%◌, ◌≡◌, Bool, true, false, not, ◌&&◌, ◌||◌, List, [], ◌∷◌, ltb,
  leb, ◌==◌, if◌then◌else◌, Option, none, some, get_elem?, length,
}
use xitao.Prelude.Int.{ℤ, pos, negsuc, pos_part, minus_one, ltb_ℤ, leb_ℤ, eqb_ℤ, ◌+ℤ◌}
use xitao.Prelude.Family.{update}
use xitao.Layout.{Place, max_threads}

-- What the code uses of `float`. The laws hold of every IEEE value, NaN included.
pub record Float : Type 1 where
  pub F : Type 0
  pub zero_f : F
  pub max_f : F
  pub is_zero : F → Bool  -- == 0.0f
  pub lt : F → F → Bool
  pub scale : ℕ → F → F  -- width * value
  pub of_int : ℤ → F
  pub add : F → F → F
  pub mul : F → F → F
  pub div : F → F → F
  pub lt_irrefl : (a : F) → lt a a ≡ false
  pub lt_trans : (a b c : F) → lt a b ≡ true → lt b c ≡ true → lt a c ≡ true

-- The static members of `perf_model`.
pub record Model : Type 0 where
  pub minimize_parallel_cost : Bool
  pub refresh_frequency : ℕ
  pub old_tick_weight : ℤ
  pub mold : Bool

abbrev pub ptt_row_size : ℕ
ptt_row_size = max_threads

abbrev pub ptt_col_size : ℕ
ptt_col_size = max_threads + 1

abbrev pub ptt_table_size : ℕ
ptt_table_size = ptt_col_size * ptt_row_size

-- Where the table holds the time of a leader and a width.
unfoldable pub ptt_index : ℕ → ℕ → ℕ
ptt_index thread index = index * ptt_row_size + thread

-- C's `a % b` for a = `nthread`, which is not negative. (For b = 0 it is undefined.)
unfoldable pub rem : ℕ → ℤ → ℕ
rem a (pos b) = a % b
rem a (negsuc b) = a % suc b

-- `width <= 0 || (!mold_task && width > 1)`
unfoldable pub skipped : Bool → ℤ → Bool
skipped mold_task width = leb_ℤ width (pos 0) || (not mold_task && ltb_ℤ (pos 1) width)

module _ (fl : Float) where
  open fl use {F, zero_f, max_f, is_zero, lt, scale, of_int, add, mul, div}

  -- `perf_data`, without the statistics of the places.
  pub record PerfData : Type 0 where
    pub values : ℕ → F
    pub last_width : ℤ
    pub cont_choices : ℕ

  -- `perf_data::perf_data`
  abbrev pub new_perf_data : PerfData
  new_perf_data = record { values = λ _. zero_f; last_width = minus_one; cont_choices = 0 }

  -- `PolyTask::get_timetable`, `PolyTask::set_timetable`
  unfoldable pub get_timetable : PerfData → ℕ → ℕ → F
  get_timetable ptt thread index = ptt.values (ptt_index thread index)

  unfoldable pub set_timetable : PerfData → ℕ → F → ℕ → PerfData
  set_timetable ptt thread ticks index = record ptt {
    values = update ptt.values (ptt_index thread index) ticks;
  }

  -- The variables that the two searches share.
  pub record Best : Type 0 where
    pub shortest_exec : F
    pub new_width : ℕ
    pub new_leader : ℤ

  abbrev pub no_best : Best
  no_best = record { shortest_exec = max_f; new_width = 1; new_leader = minus_one }

  unfoldable pub comp_perf : Model → ℕ → F → F
  comp_perf m width ptt_val = if m.minimize_parallel_cost then scale width ptt_val else ptt_val

  -- One candidate: the new best, and whether the search stops at it since its entry is empty.
  unfoldable pub consider : Model → PerfData → ℕ → ℕ → Best → Best × Bool
  consider m ptt leader width b =
      let ptt_val = get_timetable ptt leader width in
      let comp = comp_perf m width ptt_val in
      if is_zero ptt_val
      then (record b { new_width = width; new_leader = pos leader }, true)
      else if lt comp b.shortest_exec
      then (record { shortest_exec = comp; new_width = width; new_leader = pos leader }, false)
      else (b, false)

  -- The inner loop of `global_search_ptt`.
  unfoldable pub search_widths : Model → Bool → PerfData → ℕ → List ℤ → Best → Best × Bool
  search_widths m mold_task ptt leader [] b = (b, false)
  search_widths m mold_task ptt leader (w ∷ ws) b =
      let (b', stop) =
        if skipped mold_task w then (b, false) else consider m ptt leader (pos_part w) b in
      let rest = search_widths m mold_task ptt leader ws b' in if stop then (b', true) else rest

  -- The outer loop, from `leader` on with `n` rounds left.
  unfoldable pub search_leaders : Model → Bool → PerfData → (ℕ → List ℤ) → ℕ → ℕ → Best → Best
  search_leaders m mold_task ptt layout zero leader b = b
  search_leaders m mold_task ptt layout (suc n) leader b =
      let (b', stop) = search_widths m mold_task ptt leader (layout leader) b in
      let rest = search_leaders m mold_task ptt layout n (leader + 1) b' in
      if stop then b' else rest

  -- `perf_model::global_search_ptt`: the new leader and width of the task.
  unfoldable pub global_search_ptt : Model → Bool → PerfData → (ℕ → List ℤ) → ℤ × ℕ
  global_search_ptt m task_mold ptt layout =
      let b = search_leaders m (m.mold && task_mold) ptt layout max_threads 0 no_best in
      (b.new_leader, b.new_width)

  -- The loop of `history_mold_locally` over the places of the thread.
  unfoldable pub search_places : Model → Bool → PerfData → List Place → Best → Best
  search_places m mold_task ptt [] b = b
  search_places m mold_task ptt (p ∷ ps) b =
      let (b', stop) =
        if not mold_task && ltb 1 p.width then (b, false) else consider m ptt p.leader p.width b in
      let rest = search_places m mold_task ptt ps b' in if stop then b' else rest

  -- `cont_choices` and `last_width` after a search.
  unfoldable pub remember : PerfData → ℕ → PerfData
  remember ptt new_width = record ptt {
    last_width = pos new_width;
    cont_choices =
        if leb_ℤ (pos 0) ptt.last_width
        then if eqb_ℤ ptt.last_width (pos new_width) then ptt.cont_choices + 1 else 0
        else ptt.cont_choices;
  }

  -- What `history_mold_locally` leaves: the table, and the new place if it changes the task's.
  pub record Molded : Type 0 where
    pub ptt : PerfData
    pub placed : Option (ℤ × ℤ)

  -- A leader and a width to write into the task, unless the leader is -1.
  abbrev pub place_of : Best → Option (ℤ × ℤ)
  place_of b = if eqb_ℤ b.new_leader minus_one then none else some (b.new_leader, pos b.new_width)

  -- `perf_model::history_mold_locally`, with the values of the two calls of `rand()`. The worker
  -- that calls it is in some place, so `partitions` is not empty.
  unfoldable pub history_mold_locally : Model → Bool → PerfData → List Place → ℕ → ℕ → ℕ → Molded
  history_mold_locally m task_mold ptt partitions nthread rand1 rand2 =
      let mold_task = m.mold && task_mold in
      let b = search_places m mold_task ptt partitions no_best in
      if leb 10 ptt.cont_choices
      then record {
        ptt = ptt;
        placed = some (pos (nthread - rem nthread ptt.last_width), ptt.last_width);
      }
      else if not (rand1 % m.refresh_frequency == 0)
      then record { ptt = remember ptt b.new_width; placed = place_of b }
      else if mold_task
      then record {
        ptt = ptt;
        placed = elim (get_elem? partitions (rand2 % length partitions)) [
          | none ↦ none
          | some p ↦ some (pos p.leader, pos p.width)
        ];
      }
      else record { ptt = ptt; placed = some (pos nthread, pos 1) }

  -- `perf_model::update_performance_model`
  unfoldable pub update_performance_model : Model → PerfData → ℕ → F → ℕ → PerfData
  update_performance_model m ptt thread ticks width =
      let oldticks = get_timetable ptt thread width in
      set_timetable ptt thread
        (if is_zero oldticks
          then ticks
          else div (add (mul (of_int m.old_tick_weight) oldticks) ticks)
              (of_int (m.old_tick_weight +ℤ pos 1)))
        width
