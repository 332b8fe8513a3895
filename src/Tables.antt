-- ===== src/Tables.antt =====
-- src/xitao_ptt.cpp, lines 47 to 95, and src/xitao_ptt_key.cpp: which performance trace table a task
-- has, by its class and its workload.
-- A shared pointer to a table is a number: tables are numbered in the order of their allocation.
-- The hash map is a list of its pairs; the hash only speeds up the search.
pub mod Sharing
pub mod Reset
use xitao.Prelude.{
  ℕ, suc, Bool, true, false, ◌&&◌, List, [], ◌∷◌, ◌==◌, if◌then◌else◌, Option, none, some,
}
use xitao.Prelude.Family.{update}
use xitao.Perf.{Float, PerfData, new_perf_data}

-- `xitao_ptt_key`: `tao_type_index` is the number of the task's class.
pub record XitaoPttKey : Type 0 where
  pub workload_hint : ℕ
  pub tao_type_index : ℕ

-- `xitao_ptt_key::operator ==`
unfoldable pub equal_keys : XitaoPttKey → XitaoPttKey → Bool
equal_keys a b = a.workload_hint == b.workload_hint && a.tao_type_index == b.tao_type_index

-- `runtime_ptt_tables.find`
unfoldable pub find_table : XitaoPttKey → List (XitaoPttKey × ℕ) → Option ℕ
find_table key [] = none
find_table key ((other, table) ∷ rest) =
    let later = find_table key rest in if equal_keys other key then some table else later

module _ (fl : Float) where
  pub record PttTables : Type 0 where
    pub runtime_ptt_tables : List (XitaoPttKey × ℕ)
    pub heap : ℕ → PerfData fl
    pub allocated : ℕ

  abbrev pub no_tables : PttTables
  no_tables = record { runtime_ptt_tables = []; heap = λ _. new_perf_data fl; allocated = 0 }

  -- `xitao_ptt::try_insert_table`: the table, and the tables after.
  unfoldable pub try_insert_table : XitaoPttKey → PttTables → ℕ × PttTables
  try_insert_table key s = elim (find_table key s.runtime_ptt_tables) [
    | none ↦ (
      s.allocated,
      record {
        runtime_ptt_tables = (key, s.allocated) ∷ s.runtime_ptt_tables;
        heap = update s.heap s.allocated (new_perf_data fl);
        allocated = suc s.allocated;
      },
    )
    | some table ↦ (table, s)
  ]

  -- `xitao_ptt::clear_tables`: the tasks keep their pointers.
  unfoldable pub clear_tables : PttTables → PttTables
  clear_tables s = record s { runtime_ptt_tables = [] }

  -- `xitao_ptt::reset_table`: the times alone.
  unfoldable pub reset_table : XitaoPttKey → PttTables → PttTables
  reset_table key s = elim (find_table key s.runtime_ptt_tables) [
    | none ↦ s
    | some table ↦ record s {
      heap = update s.heap table (record (s.heap table) { values = λ _. fl.zero_f });
    }
  ]
