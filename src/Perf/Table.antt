-- ===== src/Perf/Table.antt =====
-- The entries of a performance trace table (src/poly_task.cpp): their indices and their updates.
use xitao.Prelude.{
  ℕ, ◌≤◌, ◌<◌, ◌≡◌, ◌≢◌, refl, arith, ◌==◌, if◌then◌else◌, true, false, ℕ_discrete, ◌&&◌,
}
use xitao.Prelude.Int.{pos, ◌+ℤ◌}
use xitao.Layout.{max_threads}
use xitao.Perf.{
  Float, Model, ptt_table_size, ptt_index, PerfData, get_timetable, set_timetable,
  update_performance_model,
}

-- Two entries of threads of the machine have the same index only if they are the same entry.
ptt_index-injective :
    (t w t' w' : ℕ)
    → t < max_threads
    → t' < max_threads
    → ptt_index t w ≡ ptt_index t' w'
    → (t ≡ t') × (w ≡ w')
unfolding ptt_index
ptt_index-injective t w t' w' row row' e = omega arith

differ_lem : (t w t' w' : ℕ) → ptt_index t w ≢ ptt_index t' w' → ((t == t') && (w == w')) ≡ false
unfolding ptt_index
differ_lem t w t' w' other = ground arith

-- The index of an entry that a thread and a width of the machine name lies in the table.
pub ptt_index_bound : (t w : ℕ) → t < max_threads → w ≤ max_threads → ptt_index t w < ptt_table_size
unfolding ptt_index
ptt_index_bound t w row col = omega arith

-- For threads of the machine, `update_performance_model` changes the entry of its thread and
-- width alone: to the new time if the entry was empty, else to the quotient, in the operations of
-- `float`, of the weight times the old time plus the new time by the weight plus 1.
pub update_performance_model-get :
    (fl : Float) (m : Model) (ptt : PerfData fl) (t w t' w' : ℕ) (ticks : fl.F)
    → t < max_threads
    → t' < max_threads
    → get_timetable fl (update_performance_model fl m ptt t ticks w) t' w' ≡ (
        if (t == t') && (w == w')
        then (if fl.is_zero (get_timetable fl ptt t w)
            then ticks
            else fl.div
                (fl.add (fl.mul (fl.of_int m.old_tick_weight) (get_timetable fl ptt t w)) ticks)
                (fl.of_int (m.old_tick_weight +ℤ pos 1)))
        else get_timetable fl ptt t' w')
unfolding get_timetable set_timetable update_performance_model
update_performance_model-get fl m ptt t w t' w' ticks row row' =
    elim (ℕ_discrete (ptt_index t w) (ptt_index t' w')) [
      | yes same ↦
          let (a, b) = ptt_index-injective t w t' w' row row' same in
          let ht : (t == t') ≡ true = ground arith in
          let hw : (w == w') ≡ true = ground arith in
          let hit : (ptt_index t w == ptt_index t' w') ≡ true = ground arith in
          rw (hit, ht, hw) refl
      | no other ↦
          let miss : (ptt_index t w == ptt_index t' w') ≡ false = ground arith in
          let differ : ((t == t') && (w == w')) ≡ false = differ_lem t w t' w' other in
          rw (miss, differ) refl
    ]
