-- ===== src/Trace/Saved.antt =====
-- What a trace that loi/krd_trace.c has written gives when it is read again.
use xitao.Prelude.{
  ℕ, ◌+◌, ◌*◌, ◌/◌, ◌%◌, ◌<◌, ◌≡◌, ◌≢◌, ◌⊎◌, refl, ◌∙◌, ap, inl, inr, true, false, some, arith,
}
use xitao.Prelude.Family.{update, update_same, update_other}
use xitao.Prelude.Int.{ℤ, pos, ltb_ℤ, eqb_ℤ}
use xitao.Prelude.Result.{ok, ◌>>=◌}
use xitao.Trace.{TraceEntry, ThreadTrace, Krd, raw_trace_magic}
use xitao.Trace.Files.{
  TraceFile, EntryBytes, WriteCalls, ReadCalls, entry_size, memory_of, entries_of, write_trace,
  krd_write_one_trace, read_elements, krd_read_one_trace,
}
use xitao.Trace.Transfer.{Transfers, write_loop-writes, read_loop-reads}

-- The bytes of an entry, wherever they are read from, give the entry.
abbrev pub Restores : EntryBytes → TraceEntry → Type 0
Restores layout e =
    (bytes : ℕ → ℕ)
    → ((b : ℕ) → b < entry_size → bytes b ≡ layout.byte e b)
    → layout.entry bytes ≡ e

abbrev pub IsWritable : WriteCalls → Type 0
IsWritable calls =
    (eqb_ℤ calls.fd (pos 0) ≡ false) × (calls.header_written ≡ true) × Transfers calls.write

abbrev pub IsReadable : ReadCalls → Type 0
IsReadable calls = (calls.header_read ≡ true) × Transfers calls.read

module _ (layout : EntryBytes) where
  write_trace-writes :
      (format : ℤ) (calls : WriteCalls) (rounds i : ℕ) (s : Krd)
      → IsWritable calls
      → (s.threadtraces i).num_elems * entry_size < rounds
      → (file : TraceFile) × (write_trace layout format calls rounds i s ≡ ok file)
        × (file.magic ≡ format)
        × (file.size ≡ (s.threadtraces i).num_elems * entry_size)
        × ((o : ℕ) → o < file.size → file.bytes o ≡ memory_of layout (s.threadtraces i).data_ids o)
  unfolding write_trace
  write_trace-writes format calls rounds i s (opened, header, moves) fuel =
      let (file, runs, magic, size, bytes) =
        write_loop-writes layout calls.write moves rounds 0
          (memory_of layout (s.threadtraces i).data_ids) ((s.threadtraces i).num_elems * entry_size)
          0 (record { magic = format; size = 0; bytes = λ _. 0 }) fuel refl
          (λ o none. absurd (omega arith)) in
      (file, rw (opened, header) runs, magic, omega arith, λ o below. bytes o (omega arith))

  entries_of-Restores :
      (entries : ℕ → TraceEntry) (memory : ℕ → ℕ) (k : ℕ)
      → Restores layout (entries k)
      → ((b : ℕ)
          → b < entry_size
          → memory (entry_size * k + b) ≡ memory_of layout entries (entry_size * k + b))
      → entries_of layout memory k ≡ entries k
  unfolding entries_of memory_of
  entries_of-Restores entries memory k restores same =
      restores (λ b. memory (entry_size * k + b))
        λ b below.
          let row : (entry_size * k + b) / entry_size ≡ k = omega arith in
          let column : (entry_size * k + b) % entry_size ≡ b = omega arith in
          same b below ∙ rw (memory_of, row, column) refl

  read_one_trace-accepts :
      (reads : ReadCalls) (rounds j : ℕ) (s : Krd) (file : TraceFile)
      → reads.header_read ≡ true
      → file.magic ≡ raw_trace_magic
      → (ltb_ℤ (pos 0) s.krd_trace_magic ≡ false) ⊎ (s.krd_trace_magic ≡ raw_trace_magic)
      → krd_read_one_trace layout reads rounds (some file) j s
        ≡ (read_elements layout reads rounds file j s >>= λ s'. ok (1, s'))
  unfolding krd_read_one_trace
  read_one_trace-accepts reads rounds j s file header magic (inl fresh) =
      rw (header, magic, fresh) refl
  read_one_trace-accepts reads rounds j s file header magic (inr raw) = rw (header, magic, raw) refl

  -- A trace that `krd_write_one_trace` writes, and `krd_read_one_trace` then reads into any
  -- trace, has the same number of elements and the same elements, and the other traces stay as
  -- they are: where the file is opened, the calls for the header succeed, each other call moves
  -- at least one byte while bytes are left, the rounds are more than the bytes, no trace of the
  -- other kind has been read before, and the layout of the entries can be read back.
  pub krd_read_one_trace-krd_write_one_trace :
      (writes : WriteCalls) (reads : ReadCalls) (rounds i j : ℕ) (s s' : Krd)
      → IsWritable writes
      → IsReadable reads
      → (s.threadtraces i).num_elems * entry_size < rounds
      → (ltb_ℤ (pos 0) s'.krd_trace_magic ≡ false) ⊎ (s'.krd_trace_magic ≡ raw_trace_magic)
      → ((k : ℕ)
          → k < (s.threadtraces i).num_elems
          → Restores layout ((s.threadtraces i).data_ids k))
      → (file : TraceFile) × (krd_write_one_trace layout writes rounds i s ≡ ok file)
        × (after : Krd) × (krd_read_one_trace layout reads rounds (some file) j s' ≡ ok (1, after))
        × ((after.threadtraces j).num_elems ≡ (s.threadtraces i).num_elems)
        × ((k : ℕ)
            → k < (s.threadtraces i).num_elems
            → (after.threadtraces j).data_ids k ≡ (s.threadtraces i).data_ids k)
        × ((k : ℕ) → j ≢ k → after.threadtraces k ≡ s'.threadtraces k)
  unfolding krd_write_one_trace krd_read_one_trace read_elements
  krd_read_one_trace-krd_write_one_trace writes reads rounds i j s s' w r fuel fresh restores =
      let (file, written, magic, size, bytes) =
        write_trace-writes raw_trace_magic writes rounds i s w fuel in
      let (memory, runs, inside, outside) =
        read_loop-reads layout reads.read r.1 rounds 0 file file.size 0
          (memory_of layout (s'.threadtraces j).data_ids) (omega arith) in
      let t = s'.threadtraces j in
      let read_back : ThreadTrace = record t {
        num_elems = file.size / entry_size;
        data_ids = entries_of layout memory;
      } in
      let after : Krd = record s' {
        krd_trace_magic = file.magic;
        threadtraces = update s'.threadtraces j read_back;
      } in
      let reads_all : read_elements layout reads rounds file j s' ≡ ok after = rw runs refl in
      let here = update_same s'.threadtraces j read_back in
      let entries : (k : ℕ)
          → k < (s.threadtraces i).num_elems
          → entries_of layout memory k ≡ (s.threadtraces i).data_ids k =
        λ k below.
          entries_of-Restores (s.threadtraces i).data_ids memory k (restores k below)
            (λ b low. inside _ (omega arith) (omega arith) ∙ bytes _ (omega arith)) in
      (
        file,
        written,
        after,
        read_one_trace-accepts reads rounds j s' file r.0 magic fresh ∙ rw reads_all refl,
        ap ThreadTrace.num_elems here ∙ omega arith,
        λ k below. ap (λ (t' : ThreadTrace). t'.data_ids k) here ∙ entries k below,
        λ k ne. update_other s'.threadtraces j k read_back ne,
      )
