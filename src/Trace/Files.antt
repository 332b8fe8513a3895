-- ===== src/Trace/Files.antt =====
-- loi/krd_trace.c: krd_save_traces, krd_write_one_trace, krd_write_coherent_trace,
-- krd_read_one_trace and krd_read_coherent_trace.
-- The operating system is a record of answers: each call of `read` or `write` is told its round and
-- the bytes asked for, and answers with a number of bytes, or none for -1. A file is the number in
-- its header of four bytes and the bytes behind it, and a call for the header is not cut short.
use xitao.Prelude.{
  ℕ, zero, suc, ◌+◌, ◌-◌, ◌*◌, ◌/◌, ◌%◌, Bool, not, Option, none, some, ltb, leb, ◌==◌,
  if◌then◌else◌, ◌&&◌,
}
use xitao.Prelude.Family.{update}
use xitao.Prelude.Int.{ℤ, pos, pos_part, neg_part, ltb_ℤ, eqb_ℤ}
use xitao.Prelude.Result.{Result, ok, exit, ◌>>=◌}
use xitao.Trace.{
  TraceEntry, Krd, KrdExit, raw_trace_magic, rwi_trace_magic, max_trace_threads, error_opening,
  error_writing, error_reading, unsupported_magic, incompatible_formats, before_buffer, endless,
}

pub record TraceFile : Type 0 where
  pub magic : ℤ
  pub size : ℕ  -- of the bytes behind the header
  pub bytes : ℕ → ℕ

-- How the compiler lays an entry out in its 32 bytes, of which the unused ones are not read back.
pub record EntryBytes : Type 0 where
  pub byte : TraceEntry → ℕ → ℕ
  pub entry : (ℕ → ℕ) → TraceEntry

abbrev pub entry_size : ℕ
entry_size = 32

-- The answers to the calls that write one file.
pub record WriteCalls : Type 0 where
  pub fd : ℤ
  pub header_written : Bool
  pub write : ℕ → ℕ → Option ℕ

-- The answers to the calls that read one file.
pub record ReadCalls : Type 0 where
  pub header_read : Bool
  pub read : ℕ → ℕ → Option ℕ

module _ (layout : EntryBytes) where
  -- `(char *)(threadtraces[i].data_ids)`
  unfoldable pub memory_of : (ℕ → TraceEntry) → ℕ → ℕ
  memory_of entries o = layout.byte (entries (o / entry_size)) (o % entry_size)

  unfoldable pub entries_of : (ℕ → ℕ) → ℕ → TraceEntry
  entries_of memory k = layout.entry (λ b. memory (entry_size * k + b))

  -- What a `write` of `n` bytes from `offset` on adds to a file.
  unfoldable pub append_bytes : (ℕ → ℕ) → ℕ → ℕ → TraceFile → TraceFile
  append_bytes memory offset n file = record file {
    size = file.size + n;
    bytes = λ o.
        if ltb o file.size
        then file.bytes o
        else if ltb o (file.size + n)
        then memory (offset + (o - file.size))
        else file.bytes o;
  }

  -- One `write` of the loop: where the call fails, 1 is added to what is pending and taken from the
  -- offset.
  unfoldable pub write_chunk :
      Option ℕ → (ℕ → ℕ) → ℕ → ℕ → TraceFile → Result KrdExit (ℕ × ℕ × TraceFile)
  write_chunk none memory total_pending offset file =
      if offset == 0 then exit before_buffer else ok (total_pending + 1, offset - 1, file)
  write_chunk (some n) memory total_pending offset file =
      ok (total_pending - n, offset + n, append_bytes memory offset n file)

  unfoldable pub write_loop :
      (ℕ → ℕ → Option ℕ) → ℕ → ℕ → (ℕ → ℕ) → ℕ → ℕ → TraceFile → Result KrdExit TraceFile
  write_loop write zero round memory total_pending offset file = exit endless
  write_loop write (suc rounds) round memory total_pending offset file =
      write_chunk (write round total_pending) memory total_pending offset file >>= λ r.
      let rest = write_loop write rounds (suc round) memory r.0 r.1 r.2 in
      if ltb 0 r.0 then rest else ok r.2

  -- `open` with O_TRUNC; the test is `!fd`, as written.
  unfoldable pub write_trace : ℤ → WriteCalls → ℕ → ℕ → Krd → Result KrdExit TraceFile
  write_trace format calls rounds i s =
      if eqb_ℤ calls.fd (pos 0)
      then exit error_opening
      else if not calls.header_written
      then exit error_writing
      else write_loop calls.write rounds 0 (memory_of (s.threadtraces i).data_ids)
          ((s.threadtraces i).num_elems * entry_size) 0
          (record { magic = format; size = 0; bytes = λ _. 0 })

  unfoldable pub krd_write_one_trace : WriteCalls → ℕ → ℕ → Krd → Result KrdExit TraceFile
  krd_write_one_trace calls rounds i s = write_trace raw_trace_magic calls rounds i s

  unfoldable pub krd_write_coherent_trace : WriteCalls → ℕ → ℕ → Krd → Result KrdExit TraceFile
  krd_write_coherent_trace calls rounds i s = write_trace rwi_trace_magic calls rounds i s

  -- The file of one trace that `krd_save_traces` writes with one `write` for all entries.
  unfoldable pub save_trace : WriteCalls → ℕ → Krd → Result KrdExit TraceFile
  save_trace calls i s =
      let total = (s.threadtraces i).num_elems * entry_size in
      if eqb_ℤ calls.fd (pos 0)
      then exit error_opening
      else if not calls.header_written
      then exit error_writing
      else elim (calls.write 0 total) [
        | none ↦ exit error_writing
        | some n ↦
            if n == total
            then ok (
                append_bytes (memory_of (s.threadtraces i).data_ids) 0 n
                  (record { magic = raw_trace_magic; size = 0; bytes = λ _. 0 }))
            else exit error_writing
      ]

  -- The loop of `krd_save_traces`, from thread `i` on: a trace with no memory, or whose first
  -- element is 0, is left out.
  unfoldable pub save_traces :
      (ℕ → WriteCalls)
      → ℕ
      → ℕ
      → Krd
      → (ℕ → Option TraceFile)
      → Result KrdExit (ℕ → Option TraceFile)
  save_traces calls zero i s files = ok files
  save_traces calls (suc more) i s files =
      let t = s.threadtraces i in
      (if t.mapped && not ((t.data_ids 0).id == 0)
        then (save_trace (calls i) i s >>= λ f. ok (update files i (some f)))
        else ok files)
      >>= λ files'. save_traces calls more (suc i) s files'

  unfoldable pub krd_save_traces :
      (ℕ → WriteCalls) → Krd → (ℕ → Option TraceFile) → Result KrdExit (ℕ → Option TraceFile)
  krd_save_traces calls s files = save_traces calls max_trace_threads 0 s files

  -- The bytes of the file that a `read` puts into the memory of the trace.
  unfoldable pub read_bytes : TraceFile → ℕ → ℕ → (ℕ → ℕ) → ℕ → ℕ
  read_bytes file offset n memory o =
      if leb offset o && ltb o (offset + n) then file.bytes o else memory o

  unfoldable pub read_chunk :
      Option ℕ → TraceFile → ℕ → ℕ → (ℕ → ℕ) → Result KrdExit (ℕ × ℕ × (ℕ → ℕ))
  read_chunk none file pending_bytes offset memory = exit error_reading
  read_chunk (some n) file pending_bytes offset memory =
      ok (pending_bytes - n, offset + n, read_bytes file offset n memory)

  unfoldable pub read_loop :
      (ℕ → ℕ → Option ℕ) → ℕ → ℕ → TraceFile → ℕ → ℕ → (ℕ → ℕ) → Result KrdExit (ℕ → ℕ)
  read_loop read zero round file pending_bytes offset memory = exit endless
  read_loop read (suc rounds) round file pending_bytes offset memory =
      read_chunk (read round pending_bytes) file pending_bytes offset memory >>= λ r.
      let rest = read_loop read rounds (suc round) file r.0 r.1 r.2 in
      if ltb 0 r.0 then rest else ok r.2

  -- What the reading of a file whose header has been accepted does to the trace.
  unfoldable pub read_elements : ReadCalls → ℕ → TraceFile → ℕ → Krd → Result KrdExit Krd
  read_elements calls rounds file i s =
      let t = s.threadtraces i in
      read_loop calls.read rounds 0 file file.size 0 (memory_of t.data_ids) >>= λ memory.
      ok (record s {
        krd_trace_magic = file.magic;
        threadtraces =
            update s.threadtraces i
              (record t { num_elems = file.size / entry_size; data_ids = entries_of memory });
      })

  unfoldable pub krd_read_one_trace :
      ReadCalls → ℕ → Option TraceFile → ℕ → Krd → Result KrdExit (ℕ × Krd)
  krd_read_one_trace calls rounds none i s = ok (0, s)
  krd_read_one_trace calls rounds (some file) i s =
      if not calls.header_read
      then exit error_reading
      else if not (eqb_ℤ file.magic raw_trace_magic) && not (eqb_ℤ file.magic rwi_trace_magic)
      then exit unsupported_magic
      else if ltb_ℤ (pos 0) s.krd_trace_magic && not (eqb_ℤ s.krd_trace_magic file.magic)
      then exit incompatible_formats
      else read_elements calls rounds file i s >>= λ s'. ok (1, s')

  unfoldable pub krd_read_coherent_trace :
      ReadCalls → ℕ → Option TraceFile → ℕ → Krd → Result KrdExit (ℕ × Krd)
  krd_read_coherent_trace calls rounds none i s = ok (0, s)
  krd_read_coherent_trace calls rounds (some file) i s =
      if not calls.header_read
      then exit error_reading
      else if not (eqb_ℤ file.magic rwi_trace_magic)
      then exit unsupported_magic
      else read_elements calls rounds file i s >>= λ s'. ok (1, s')

-- The words that `krd_read_one_trace` counts, of the first `n` entries.
unfoldable pub total_refs : (ℕ → TraceEntry) → ℕ → ℕ
total_refs entries zero = 0
total_refs entries (suc k) =
    total_refs entries k + (pos_part (entries k).size + neg_part (entries k).size) / 4

-- The words read or written, and the words invalidated, that `krd_read_coherent_trace` counts.
unfoldable pub total_coherent : (ℕ → TraceEntry) → ℕ → ℕ × ℕ
total_coherent entries zero = (0, 0)
total_coherent entries (suc k) =
    let (refs, invalid) = total_coherent entries k in
    if ltb_ℤ (pos 0) (entries k).size
    then (refs + pos_part (entries k).size / 4, invalid)
    else (refs, invalid + neg_part (entries k).size / 4)
