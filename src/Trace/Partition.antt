-- ===== src/Trace/Partition.antt =====
-- loi/krd_trace.c: the tool that cuts a coherent trace into partitions.
-- Bytes are numbers, since only sizes that are not negative are added; `rounds` bounds each loop.
use xitao.Prelude.{ℕ, zero, suc, ◌+◌, ◌*◌, ◌/◌, List, [], ◌∷◌, Option, ltb, if◌then◌else◌, ◌&&◌}
use xitao.Prelude.Int.{ℤ, pos, pos_part, ltb_ℤ, eqb_ℤ, ◌-ℤ◌}
use xitao.Prelude.Result.{Result, ok, exit, ◌>>=◌}
use xitao.Trace.{Krd, KrdExit, trace_length, krd_init_index, usage, endless, partition_of_zero}
use xitao.Trace.Files.{TraceFile, krd_read_coherent_trace}
use xitao.Trace.Tools.{TraceSystem, tid_of}

-- A line `krd_tool … number w p …` of the script; the data model and the sizes are the same in all.
pub record Range : Type 0 where
  pub number : ℕ
  pub w : ℕ
  pub p : ℕ

-- The first range is always at 0.
abbrev pub first_range : Range
first_range = record { number = 0; w = 0; p = 0 }

module _ (sizes : ℕ → ℤ) where
  -- `do { k++; … } while(size < 0)`, with `k` already counted up.
  unfoldable pub next_access : ℕ → ℕ → Result KrdExit ℕ
  next_access zero k = exit endless
  next_access (suc rounds) k =
      let rest = next_access rounds (suc k) in if ltb_ℤ (sizes k) (pos 0) then rest else ok k

  -- The warm-up pointer and its bytes, moved on if they are too far behind.
  unfoldable pub advance_warmup : ℕ → ℤ → ℕ → ℕ → ℕ → Result KrdExit (ℕ × ℕ)
  advance_warmup rounds warmup p_p w w_p =
      if ltb_ℤ warmup (pos p_p -ℤ pos w_p)
      then (next_access rounds (suc w) >>= λ w'. ok (w', w_p + pos_part (sizes w)))
      else ok (w, w_p)

  -- `while(p < num_elems)`: the ranges that are printed, and `count` at the end.
  unfoldable pub cut_loop : ℕ → ℕ → ℤ → ℤ → ℕ → ℕ → ℕ → ℕ → ℕ → Result KrdExit (List Range × ℕ)
  cut_loop zero num_elems warmup partition w w_p p p_p count = exit endless
  cut_loop (suc rounds) num_elems warmup partition w w_p p p_p count =
      let p_p' = p_p + pos_part (sizes p) in
      let round = advance_warmup (suc num_elems) warmup p_p' w w_p >>= λ a.
      let cut = ltb_ℤ (pos 0) partition && ltb count (p_p' / pos_part partition) in
      let count' = if cut then suc count else count in
      next_access (suc num_elems) (suc p) >>= λ p'.
      cut_loop rounds num_elems warmup partition a.0 a.1 p' p_p' count' >>= λ r.
      ok (if cut then record { number = suc count; w = a.0; p = p } ∷ r.0 else r.0, r.1) in
      if ltb p num_elems then round else ok ([], count)

  -- The ranges that the tool prints for a trace, and `count`.
  unfoldable pub cut_trace : ℕ → ℕ → ℤ → ℤ → Result KrdExit (List Range × ℕ)
  cut_trace rounds num_elems warmup partition = next_access (suc num_elems) 0 >>= λ p.
      next_access (suc num_elems) 0 >>= λ w.
      if ltb p num_elems && eqb_ℤ partition (pos 0)
      then exit partition_of_zero
      else cut_loop rounds num_elems warmup partition w 0 p 0 0 >>= λ r. ok (first_range ∷ r.0, r.1)

-- `main` of the tool, on a trace file: the ranges, and `count`.
unfoldable pub cut_tool :
    TraceSystem → (ℤ → Option TraceFile) → List ℤ → Krd → Result KrdExit (List Range × ℕ)
cut_tool sys coherent_files (data_model ∷ index ∷ index_offset ∷ warmup ∷ partition ∷ []) s =
    krd_init_index sys.calloc sys.mmap index (pos (16 * trace_length)) s >>= λ made.
    tid_of index >>= λ tid.
    krd_read_coherent_trace sys.layout (sys.reads index) sys.rounds (coherent_files index) tid
      made.1
    >>= λ r.
        let t = r.1.threadtraces tid in
        cut_trace (λ k. (t.data_ids k).size) (suc t.num_elems) t.num_elems warmup partition
cut_tool sys coherent_files args s = exit usage
