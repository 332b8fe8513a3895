-- ===== src/Trace/Interleave.antt =====
-- loi/krd_trace.c: the interleaving tool, and the tool that prints a trace.
use xitao.Prelude.{
  ℕ, zero, suc, ◌*◌, ◌/◌, ◌%◌, Bool, List, [], ◌∷◌, Option, length, ltb, if◌then◌else◌, ◌&&◌,
}
use xitao.Prelude.Family.{update}
use xitao.Prelude.Int.{ℤ, pos, pos_part, eqb_ℤ}
use xitao.Prelude.Result.{Result, ok, exit, ◌>>=◌}
use xitao.Trace.{
  TraceEntry, ThreadTrace, Krd, KrdExit, trace_length, raw_trace_magic, krd_init_index, usage,
}
use xitao.Trace.Files.{TraceFile, krd_read_coherent_trace, krd_write_one_trace}
use xitao.Trace.Tools.{TraceSystem, set_num_elems, tid_of, read_file}

-- `TTrace_elem2(target, k) = id`
unfoldable pub set_elem : ℕ → ℕ → ℕ → (ℕ → ThreadTrace) → ℕ → ThreadTrace
set_elem target k id traces =
    let t = traces target in
    update traces target
      (record t { data_ids = update t.data_ids k (record (t.data_ids k) { id = id }) })

-- The largest trace, in an `unsigned int`.
unfoldable pub longest : (ℕ → ThreadTrace) → ℕ → List ℕ → ℕ
longest traces so_far [] = so_far
longest traces so_far (tid ∷ rest) =
    let n = (traces tid).num_elems in
    longest traces (if ltb so_far n then n % 4294967296 else so_far) rest

-- The loop over the traces, for one element of each; `threads` is `numThreads`.
unfoldable pub interleave_row : ℕ → ℕ → List ℕ → ℕ → (ℕ → ThreadTrace) → ℕ × (ℕ → ThreadTrace)
interleave_row target threads [] counter traces = (counter, traces)
interleave_row target threads (tid ∷ rest) counter traces =
    let k = counter / threads in
    interleave_row target threads rest (suc counter) (
      if ltb (traces tid).num_elems k
      then traces
      else set_elem target counter ((traces tid).data_ids k).id traces)

-- A round takes at least one element, so that `maxelems` rounds are enough.
unfoldable pub interleave_loop : ℕ → ℕ → List ℕ → ℕ → ℕ → (ℕ → ThreadTrace) → ℕ × (ℕ → ThreadTrace)
interleave_loop zero target ids maxelems counter traces = (counter, traces)
interleave_loop (suc rounds) target ids maxelems counter traces =
    let threads = length ids in
    let r = interleave_row target threads ids counter traces in
    let rest = interleave_loop rounds target ids maxelems r.0 r.1 in
    if ltb counter (maxelems * threads % 4294967296) && ltb counter trace_length
    then rest
    else (counter, traces)

unfoldable pub interleave_traces : ℕ → List ℕ → (ℕ → ThreadTrace) → ℕ → ThreadTrace
interleave_traces target ids traces =
    let maxelems = longest traces 0 ids in
    let r = interleave_loop maxelems target ids maxelems 0 traces in set_num_elems target r.0 r.1

-- The loop that reads the traces: one that is not there stays empty.
unfoldable pub read_each : TraceSystem → List ℤ → Krd → Result KrdExit (List ℕ × Krd)
read_each sys [] s = ok ([], s)
read_each sys (i ∷ rest) s = krd_init_index sys.calloc sys.mmap i (pos trace_length) s >>= λ made.
    read_file sys i (sys.files i) made.1 >>= λ was_read.
    tid_of i >>= λ tid. read_each sys rest was_read.1 >>= λ r. ok (tid ∷ r.0, r.1)

-- `main` of the interleaving tool, up to the file that it writes.
unfoldable pub interleave_tool : TraceSystem → List ℤ → Krd → Result KrdExit TraceFile
interleave_tool sys [] s = exit usage
interleave_tool sys (target_arg ∷ ids) s =
    krd_init_index sys.calloc sys.mmap target_arg (pos (16 * trace_length)) s >>= λ made.
    read_each sys ids made.1 >>= λ r. tid_of target_arg >>= λ target.
    krd_write_one_trace sys.layout sys.writes sys.rounds target
      (record r.1 { threadtraces = interleave_traces target r.0 r.1.threadtraces })

-- The entries that the dump tool prints, from `k` on.
unfoldable pub printed : (ℕ → TraceEntry) → ℕ → ℕ → List TraceEntry
printed entries k zero = []
printed entries k (suc more) = entries k ∷ printed entries (suc k) more

-- `main` of the dump tool: whether the trace is called RAW, and the entries that are printed.
unfoldable pub dump_tool :
    TraceSystem → (ℤ → Option TraceFile) → List ℤ → Krd → Result KrdExit (Bool × List TraceEntry)
dump_tool sys coherent_files (index ∷ nelems ∷ []) s =
    krd_init_index sys.calloc sys.mmap index (pos (16 * trace_length)) s >>= λ made.
    read_file sys index (sys.files index) made.1 >>= λ raw. tid_of index >>= λ tid.
    krd_read_coherent_trace sys.layout (sys.reads index) sys.rounds (coherent_files index) tid raw.1
    >>= λ r. ok (
      eqb_ℤ r.1.krd_trace_magic raw_trace_magic,
      printed (r.1.threadtraces tid).data_ids 0 (pos_part nelems),
    )
dump_tool sys coherent_files args s = exit usage
