-- ===== src/Tests/Tables.antt =====
-- Runs of the map of trace tables (src/xitao_ptt.cpp).
use xitao.Prelude.{◌≡◌, refl, ◌↔◌, some}
use xitao.Perf.{get_timetable}
use xitao.Tables.{
  XitaoPttKey, PttTables, no_tables, equal_keys, find_table, try_insert_table, reset_table,
}
use xitao.Tables.Sharing.{no_tables-IsShared, try_insert_table-shares, try_insert_table-IsShared}
use xitao.Tables.Reset.{reset_table-get}
use xitao.Tests.Traces.{whole}

abbrev small : XitaoPttKey
small = record { workload_hint = 10; tao_type_index = 3 }

abbrev large : XitaoPttKey
large = record { workload_hint = 20; tao_type_index = 3 }

try_insert_table-shares_example :
    ((try_insert_table whole small (no_tables whole)).0
      ≡ (try_insert_table whole large (try_insert_table whole small (no_tables whole)).1).0)
    ↔ (small ≡ large)
try_insert_table-shares_example =
    try_insert_table-shares whole (no_tables whole) small large (no_tables-IsShared whole)

abbrev one_table : PttTables whole
one_table = (try_insert_table whole small (no_tables whole)).1

one_table-found : find_table small one_table.runtime_ptt_tables ≡ some 0
unfolding find_table try_insert_table equal_keys
one_table-found = refl

reset_table-get_example : get_timetable whole ((reset_table whole small one_table).heap 0) 2 1 ≡ 0
unfolding equal_keys
reset_table-get_example =
    reset_table-get whole one_table small small 0 2 1
      (try_insert_table-IsShared whole (no_tables whole) small (no_tables-IsShared whole))
      one_table-found
