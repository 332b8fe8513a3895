-- ===== src/Trace/Tools.antt =====
-- loi/krd_trace.c: the tools that merge traces by time and that make a coherent trace.
-- The arguments are what `atoi` makes of them. `active_indexes` and `first_active` are the list of
-- the traces that are still active: the loops over the arguments skip all others.
use xitao.Prelude.{
  ℕ, zero, suc, ◌+◌, ◌*◌, ◌%◌, Bool, not, List, [], ◌∷◌, Option, none, some, ltb, leb, ◌==◌,
  if◌then◌else◌, ◌&&◌,
}
use xitao.Prelude.Family.{update}
use xitao.Prelude.Int.{ℤ, pos, pos_part, neg_part, ltb_ℤ}
use xitao.Prelude.Result.{Result, ok, exit, ◌>>=◌}
use xitao.Trace.{
  TraceEntry, ThreadTrace, Krd, KrdExit, trace_length, krd_init_index, usage, beyond_array,
  no_argument,
}
use xitao.Trace.Files.{
  TraceFile, EntryBytes, WriteCalls, ReadCalls, krd_read_one_trace, krd_write_one_trace,
  krd_write_coherent_trace,
}

-- What the tools get from the operating system. `rounds` bounds the loops of reads and writes.
pub record TraceSystem : Type 0 where
  pub layout : EntryBytes
  pub calloc : Bool
  pub mmap : ℕ → Option (ℕ → TraceEntry)
  pub files : ℤ → Option TraceFile
  pub reads : ℤ → ReadCalls
  pub writes : WriteCalls
  pub rounds : ℕ

-- The largest `uint64_t`.
abbrev pub max_tsc : ℕ
max_tsc = 18446744073709551615

-- `threadtraces[tid].data_ids[threadtraces[tid].index]`
unfoldable pub next_entry : (ℕ → ThreadTrace) → ℕ → TraceEntry
next_entry traces tid = (traces tid).data_ids (traces tid).index

-- Which trace has the lowest time? `source` and `lowest` are the best so far.
unfoldable pub choose_source : (ℕ → TraceEntry) → List ℕ → ℕ → ℕ → ℕ
choose_source next [] source lowest = source
choose_source next (tid ∷ rest) source lowest =
    let tsc = (next tid).tsc in
    let better = not (tsc == 0) && ltb tsc lowest in
    choose_source next rest (if better then tid else source) (if better then tsc else lowest)

-- Put an entry into the output trace, if there is one to put.
unfoldable pub emit : ℕ → Option TraceEntry → (ℕ → ThreadTrace) → ℕ → ThreadTrace
emit target none traces = traces
emit target (some e) traces =
    let t = traces target in
    update traces target (record t { data_ids = update t.data_ids t.index e; index = suc t.index })

-- `threadtraces[source_tid].index++`
unfoldable pub advance : ℕ → (ℕ → ThreadTrace) → ℕ → ThreadTrace
advance source traces =
    update traces source (record (traces source) { index = suc (traces source).index })

-- One round of the merge tool: the number of the trace becomes the core, an `uint16_t`.
unfoldable pub merge_step : ℕ → List ℕ → ℕ → (ℕ → ThreadTrace) → ℕ → ThreadTrace
merge_step target sources first_active traces =
    let source = choose_source (next_entry traces) sources first_active max_tsc in
    advance source
      (emit target (some (record (next_entry traces source) { core = source % 65536 })) traces)

-- `while(counter < maxelems)`, for the rounds that are left.
unfoldable pub merge_loop : ℕ → ℕ → List ℕ → ℕ → (ℕ → ThreadTrace) → ℕ → ThreadTrace
merge_loop zero target sources first_active traces = traces
merge_loop (suc left) target sources first_active traces =
    merge_loop left target sources first_active (merge_step target sources first_active traces)

unfoldable pub max_elems : (ℕ → ThreadTrace) → List ℕ → ℕ
max_elems traces [] = 0
max_elems traces (tid ∷ rest) = (traces tid).num_elems + max_elems traces rest

unfoldable pub set_num_elems : ℕ → ℕ → (ℕ → ThreadTrace) → ℕ → ThreadTrace
set_num_elems target n traces = update traces target (record (traces target) { num_elems = n })

-- The tool from the count of the elements to the output trace.
unfoldable pub merge_traces : ℕ → List ℕ → (ℕ → ThreadTrace) → ℕ → ThreadTrace
merge_traces target [] traces = set_num_elems target 0 traces
merge_traces target (first_active ∷ rest) traces =
    let sources = first_active ∷ rest in
    let total = max_elems traces sources in
    set_num_elems target total (merge_loop total target sources first_active traces)

-- What the coherence tool records of an entry: an access of the chosen trace with its bytes made
-- positive, or an invalidation for a write of another.
unfoldable pub coherent_entry : ℕ → ℕ → TraceEntry → Option TraceEntry
coherent_entry out_tid source e =
    if source == out_tid
    then some (record e { size = pos (pos_part e.size + neg_part e.size) })
    else if ltb_ℤ e.size (pos 0)
    then some e
    else none

-- `active_indexes[source_tid] = 0`
unfoldable pub deactivate : ℕ → List ℕ → List ℕ
deactivate source [] = []
deactivate source (tid ∷ rest) =
    let rest' = deactivate source rest in if tid == source then rest' else tid ∷ rest'

-- `source` is `source_tid`, which keeps its value between the rounds.
unfoldable pub coherence_loop : ℕ → ℕ → ℕ → List ℕ → ℕ → (ℕ → ThreadTrace) → ℕ → ThreadTrace
coherence_loop zero target out_tid active source traces = traces
coherence_loop (suc left) target out_tid active source traces =
    let source' = choose_source (next_entry traces) active source max_tsc in
    let traces' =
      advance source'
        (emit target (coherent_entry out_tid source' (next_entry traces source')) traces) in
    let finished = leb (traces' source').num_elems (traces' source').index in
    coherence_loop left target out_tid (if finished then deactivate source' active else active)
      source' traces'

unfoldable pub coherence_traces : ℕ → ℕ → List ℕ → (ℕ → ThreadTrace) → ℕ → ThreadTrace
coherence_traces target out_tid active traces =
    let traces' = coherence_loop (max_elems traces active) target out_tid active 0 traces in
    set_num_elems target (traces' target).index traces'

-- An index outside of the array.
unfoldable pub tid_of : ℤ → Result KrdExit ℕ
tid_of i =
    if ltb_ℤ i (pos 0)
    then exit beyond_array
    else if leb 1024 (pos_part i)
    then exit beyond_array
    else ok (pos_part i)

-- One trace that a tool reads, and whether it was there.
unfoldable pub read_file : TraceSystem → ℤ → Option TraceFile → Krd → Result KrdExit (ℕ × Krd)
read_file sys i none s = ok (0, s)
read_file sys i (some file) s =
    tid_of i >>= λ tid. krd_read_one_trace sys.layout (sys.reads i) sys.rounds (some file) tid s

-- The loop that reads all traces; `len` is the length of the memory.
unfoldable pub read_files : TraceSystem → ℤ → List ℤ → Krd → Result KrdExit (List ℕ × Krd)
read_files sys len [] s = ok ([], s)
read_files sys len (i ∷ rest) s = krd_init_index sys.calloc sys.mmap i len s >>= λ made.
    read_file sys i (sys.files i) made.1 >>= λ was_read. read_files sys len rest was_read.1 >>= λ r.
    ok (if was_read.0 == 0 then r.0 else pos_part i ∷ r.0, r.1)

-- `main` of the merge tool, up to the file that it writes.
unfoldable pub merge_tool : TraceSystem → List ℤ → Krd → Result KrdExit TraceFile
merge_tool sys [] s = exit usage
merge_tool sys (target_arg ∷ ids) s =
    krd_init_index sys.calloc sys.mmap target_arg (pos (16 * trace_length)) s >>= λ made.
    read_files sys (pos trace_length) ids made.1 >>= λ r. tid_of target_arg >>= λ target.
    krd_write_one_trace sys.layout sys.writes sys.rounds target
      (record r.1 { threadtraces = merge_traces target r.0 r.1.threadtraces })

-- The number of the chosen trace; a negative one is that of no trace.
abbrev pub chosen_tid : ℤ → ℕ
chosen_tid i = if ltb_ℤ i (pos 0) then 1024 else pos_part i

-- `main` of the coherence tool; without its second argument it reads past its arguments.
unfoldable pub coherence_tool : TraceSystem → List ℤ → Krd → Result KrdExit TraceFile
coherence_tool sys [] s = exit usage
coherence_tool sys (target_arg ∷ []) s = exit no_argument
coherence_tool sys (target_arg ∷ out_arg ∷ ids) s =
    krd_init_index sys.calloc sys.mmap target_arg (pos (16 * trace_length)) s >>= λ made.
    read_files sys (pos (16 * trace_length)) (out_arg ∷ ids) made.1 >>= λ r.
    tid_of target_arg >>= λ target.
    krd_write_coherent_trace sys.layout sys.writes sys.rounds target (record r.1 {
      threadtraces = coherence_traces target (chosen_tid out_arg) r.0 r.1.threadtraces;
    })
