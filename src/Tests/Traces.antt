-- ===== src/Tests/Traces.antt =====
-- Runs of the placing by performance (include/perf_model.h).
use xitao.Prelude.{
  ℕ, ◌+◌, ◌*◌, ◌/◌, ◌≡◌, refl, true, List, [], ◌∷◌, some, ltb, ◌==◌, arith, if◌then◌else◌,
}
use xitao.Prelude.Int.{ℤ, pos, pos_part, ◌+ℤ◌}
use xitao.Perf.{
  Float, Model, PerfData, new_perf_data, ptt_index, get_timetable, global_search_ptt,
  history_mold_locally, update_performance_model, search_places, consider,
}
use xitao.Perf.Table.{update_performance_model-get}
use xitao.Perf.Search.{IsChosen, global_search_ptt-optimal}
use xitao.Perf.Mold.{
  IsHistory, IsAround, history_mold_locally-IsAround, history_mold_locally-IsHistory,
}
use xitao.Layout.{
  Layout, clear_layout_partitions, prepare_default_layout, clear_rows, add_widths, add_width,
  default_widths, divisors, cover, cover_widths, cover_threads,
}
use xitao.Layout.Consistent.{IsConsistent}
use xitao.Layout.Default.{default_layout, default_layout-IsWellFormed}
use xitao.Tests.Places.{no_layout, no_layout-IsSized}

-- Whole numbers in place of floats.
abbrev pub whole : Float
whole = record {
  F = ℕ;
  zero_f = 0;
  max_f = 1000000;
  is_zero = λ a. a == 0;
  lt = ltb;
  scale = λ w a. w * a;
  of_int = pos_part;
  add = λ a b. a + b;
  mul = λ a b. a * b;
  div = λ a b. a / b;
  lt_irrefl = λ a. ground arith;
  lt_trans = λ a b c. ground arith;
}

abbrev model : Model
model = record {
  minimize_parallel_cost = true;
  refresh_frequency = 10;
  old_tick_weight = pos 4;
  mold = true;
}

-- Thread 0 took 50 alone, and 20 in a place of two.
abbrev ptt : PerfData whole
ptt = record (new_perf_data whole) {
  values = λ i. if i == 64 then 50 else if i == 128 then 20 else 0;
}

abbrev rows : ℕ → List ℤ
rows leader = if leader == 0 then pos 1 ∷ pos 2 ∷ [] else []

update_performance_model-get_example :
    get_timetable whole (update_performance_model whole model ptt 0 100 2) 0 2 ≡ 36
unfolding get_timetable ptt_index ◌+ℤ◌
update_performance_model-get_example =
    update_performance_model-get whole model ptt 0 2 0 2 100 (omega arith) (omega arith)

global_search_ptt-optimal_example :
    IsChosen whole model true ptt rows (global_search_ptt whole model true ptt rows)
global_search_ptt-optimal_example = global_search_ptt-optimal whole model true ptt rows

ptt-IsHistory : IsHistory whole ptt
ptt-IsHistory = record { steady = λ h. absurd (omega arith) }

abbrev twelve : Layout
twelve = default_layout 12 no_layout

twelve-IsConsistent : IsConsistent twelve
twelve-IsConsistent =
    (default_layout-IsWellFormed 12 no_layout no_layout-IsSized (omega arith)).consistent

-- Thread 6 finds the empty entry of its first place: the whole machine, led by thread 0.
placed_six :
    (history_mold_locally whole model true ptt (twelve.inclusive_partitions 6) 6 1 0).placed
    ≡ some (pos 0, pos 12)
unfolding history_mold_locally default_layout clear_layout_partitions prepare_default_layout
    clear_rows add_widths add_width default_widths divisors cover cover_widths cover_threads
    search_places consider get_timetable ptt_index
placed_six = refl

history_mold_locally-IsAround_example : IsAround 6 (pos 0) (pos 12)
history_mold_locally-IsAround_example =
    history_mold_locally-IsAround whole model true ptt twelve 6 1 0 (pos 0) (pos 12)
      twelve-IsConsistent ptt-IsHistory placed_six

history_mold_locally-IsHistory_example :
    IsHistory whole
      (history_mold_locally whole model true ptt (twelve.inclusive_partitions 6) 6 1 0).ptt
history_mold_locally-IsHistory_example =
    history_mold_locally-IsHistory whole model true ptt twelve 6 1 0 twelve-IsConsistent
      ptt-IsHistory
