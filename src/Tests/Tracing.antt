-- ===== src/Tests/Tracing.antt =====
-- Runs of the trace tools (loi/krd_trace.c, loi/krd.h).
use xitao.Prelude.{
  ℕ, zero, suc, ◌+◌, ◌*◌, ◌≤◌, ◌<◌, ◌≡◌, ◌≢◌, ◌↔◌, refl, List, [], ◌∷◌, map, length, get_elem?,
  some, Option, true, false, ◌/◌, inl, inr, arith, ltb, if◌then◌else◌, Bool-cases, ◌∙◌,
}
use xitao.Prelude.Int.{ℤ, pos, negsuc, minus_one, pos_part, neg_part, ltb_ℤ}
use xitao.Prelude.Member.{In}
use xitao.Prelude.Result.{ok}
use xitao.Trace.{TraceEntry, ThreadTrace, Krd, zero_entry}
use xitao.Trace.Adding.{Access, add_all, own, Stored, add_all-Stored}
use xitao.Trace.Files.{
  TraceFile, EntryBytes, WriteCalls, ReadCalls, krd_write_one_trace, krd_read_one_trace,
}
use xitao.Trace.Transfer.{Transfers}
use xitao.Trace.Saved.{Restores, krd_read_one_trace-krd_write_one_trace}
use xitao.Trace.Schedule.{IsTrack}
use xitao.Trace.Order.{Ordered}
use xitao.Trace.Output.{elements}
use xitao.Trace.Tools.{merge_traces, coherence_traces, max_elems}
use xitao.Trace.Merge.{IsMergeable, of_core, from_core, merge_traces-of_core}
use xitao.Trace.Invalidations.{is_access, is_write, keep_if, as_access}
use xitao.Reuse.{StackEntry, overlap, superset, array_partial}
use xitao.Reuse.Overlap.{Holds, HoldsSome, overlap-superset}
use xitao.Trace.Partition.{Range, first_range, cut_trace}
use xitao.Trace.Cuts.{AreCuts, IsSmall, bytes_to, cut_trace-AreCuts}
use xitao.Trace.Interleave.{longest, interleave_traces}
use xitao.Trace.Positions.{id_at}
use xitao.Trace.Rows.{interleave_traces-id_at}
use xitao.Trace.Conflicts.{coherence_traces-accesses, coherence_traces-invalidations}

abbrev entry_at : ℕ → ℤ → TraceEntry
entry_at time size = record { id = 64; tsc = time; size = size; core = 0; kernel_id = pos 1 }

-- Two entries at times 5 and 9; one at time 7, a write.
abbrev early : ℕ → TraceEntry
early zero = entry_at 5 (pos 8)
early (suc zero) = entry_at 9 (negsuc 7)
early (suc (suc k)) = zero_entry

abbrev middle : ℕ → TraceEntry
middle zero = entry_at 7 (negsuc 3)
middle (suc k) = zero_entry

abbrev read_trace : ℕ → (ℕ → TraceEntry) → ThreadTrace
read_trace n entries = record { num_elems = n; index = 0; data_ids = entries; mapped = true }

abbrev two_traces : ℕ → ThreadTrace
two_traces zero = read_trace 0 (λ _. zero_entry)
two_traces (suc zero) = read_trace 2 early
two_traces (suc (suc k)) = read_trace 1 middle

abbrev both_ids : List ℕ
both_ids = 1 ∷ 2 ∷ []

early-IsTrack : IsTrack early 2
early-IsTrack = record { ordered = steps; timed = times; ended = refl }
  where
    steps : (k : ℕ) → suc k < 2 → (early k).tsc ≤ (early (suc k)).tsc
    steps zero below = omega arith
    steps (suc k) below = absurd (omega arith)

    times : (k : ℕ) → k < 2 → (0 < (early k).tsc) × ((early k).tsc < 18446744073709551615)
    times zero below = (omega arith, omega arith)
    times (suc zero) below = (omega arith, omega arith)
    times (suc (suc k)) below = absurd (omega arith)

middle-IsTrack : IsTrack middle 1
middle-IsTrack = record { ordered = λ k below. absurd (omega arith); timed = times; ended = refl }
  where
    times : (k : ℕ) → k < 1 → (0 < (middle k).tsc) × ((middle k).tsc < 18446744073709551615)
    times zero below = (omega arith, omega arith)
    times (suc k) below = absurd (omega arith)

two_traces-IsMergeable : IsMergeable two_traces 0 both_ids
two_traces-IsMergeable = record {
  distinct = (λ there. omega arith, (λ there. there, tt));
  other = λ there. omega arith;
  empty = refl;
  fresh = starts;
  tracks = both;
  numbered = small;
}
  where
    starts : (t : ℕ) → In t both_ids → (two_traces t).index ≡ 0
    starts zero there = refl
    starts (suc zero) there = refl
    starts (suc (suc k)) there = refl

    both : (t : ℕ) → In t both_ids → IsTrack (two_traces t).data_ids (two_traces t).num_elems
    both zero there = absurd (omega arith)
    both (suc zero) there = early-IsTrack
    both (suc (suc k)) there = middle-IsTrack

    small : (t : ℕ) → In t both_ids → t < 65536
    small t there = omega arith

merge_traces-of_core_example :
    Ordered 0 (elements (merge_traces 0 both_ids two_traces 0))
    × (length (elements (merge_traces 0 both_ids two_traces 0)) ≡ max_elems two_traces both_ids)
    × ((t : ℕ)
        → In t both_ids
        → of_core t (elements (merge_traces 0 both_ids two_traces 0))
          ≡ map (from_core t) (elements (two_traces t)))
merge_traces-of_core_example = merge_traces-of_core two_traces 0 both_ids two_traces-IsMergeable

coherence_traces-accesses_example :
    Ordered 0 (elements (coherence_traces 0 1 both_ids two_traces 0))
    × (keep_if is_access (elements (coherence_traces 0 1 both_ids two_traces 0))
        ≡ map as_access (elements (two_traces 1)))
coherence_traces-accesses_example =
    coherence_traces-accesses two_traces 0 1 both_ids two_traces-IsMergeable (inl refl)

coherence_traces-invalidations_example :
    In
      (entry_at 7 (negsuc 3))
      (keep_if is_write (elements (coherence_traces 0 1 both_ids two_traces 0)))
    ↔ ((t : ℕ) × In t both_ids
        × (t ≢ 1)
        × In (entry_at 7 (negsuc 3)) (elements (two_traces t))
        × (is_write (entry_at 7 (negsuc 3)) ≡ true))
coherence_traces-invalidations_example =
    coherence_traces-invalidations two_traces 0 1 both_ids two_traces-IsMergeable
      (entry_at 7 (negsuc 3))

abbrev int_of : ℕ → ℕ → ℤ
int_of p zero = pos p
int_of p (suc n) = negsuc n

int_of-parts : (z : ℤ) → int_of (pos_part z) (neg_part z) ≡ z
int_of-parts (pos p) = refl
int_of-parts (negsuc n) = refl

-- A layout of one number for each part of a field.
abbrev field_bytes : EntryBytes
field_bytes = record { byte = part; entry = whole }
  where
    part : TraceEntry → ℕ → ℕ
    part e zero = e.id
    part e (suc zero) = e.tsc
    part e (suc (suc zero)) = e.core
    part e (suc (suc (suc zero))) = pos_part e.size
    part e (suc (suc (suc (suc zero)))) = neg_part e.size
    part e (suc (suc (suc (suc (suc zero))))) = pos_part e.kernel_id
    part e (suc (suc (suc (suc (suc (suc b)))))) = neg_part e.kernel_id

    whole : (ℕ → ℕ) → TraceEntry
    whole bytes = record {
      id = bytes 0;
      tsc = bytes 1;
      core = bytes 2;
      size = int_of (bytes 3) (bytes 4);
      kernel_id = int_of (bytes 5) (bytes 6);
    }

field_bytes-Restores : (e : TraceEntry) → Restores field_bytes e
field_bytes-Restores e bytes same =
    let size : int_of (bytes 3) (bytes 4) ≡ e.size =
      (λ i. int_of (same 3 (omega arith) i) (same 4 (omega arith) i)) ∙ int_of-parts e.size in
    let kernel : int_of (bytes 5) (bytes 6) ≡ e.kernel_id =
      (λ i. int_of (same 5 (omega arith) i) (same 6 (omega arith) i)) ∙ int_of-parts e.kernel_id in
    λ i. record {
      id = same 0 (omega arith) i;
      tsc = same 1 (omega arith) i;
      core = same 2 (omega arith) i;
      size = size i;
      kernel_id = kernel i;
    }

-- Each call moves twenty bytes at most.
abbrev twenty : ℕ → ℕ → Option ℕ
twenty round asked = if ltb 20 asked then some 20 else some asked

twenty-Transfers : Transfers twenty
twenty-Transfers round asked = elim (Bool-cases (ltb 20 asked)) [
  | inl more ↦ (20, rw more refl, ground arith, λ h. omega arith)
  | inr all ↦ (asked, rw all refl, ground arith, λ h. h)
]

abbrev write_calls : WriteCalls
write_calls = record { fd = pos 3; header_written = true; write = twenty }

abbrev read_calls : ReadCalls
read_calls = record { header_read = true; read = twenty }

abbrev loaded : Krd
loaded = record { allocated = true; threadtraces = two_traces; krd_trace_magic = minus_one }

krd_read_one_trace-krd_write_one_trace_example :
    (file : TraceFile) × (krd_write_one_trace field_bytes write_calls 100 1 loaded ≡ ok file)
    × (after : Krd) × (krd_read_one_trace field_bytes read_calls 100 (some file) 2 loaded
        ≡ ok (1, after))
    × ((after.threadtraces 2).num_elems ≡ 2)
    × ((k : ℕ) → k < 2 → (after.threadtraces 2).data_ids k ≡ early k)
    × ((k : ℕ) → 2 ≢ k → after.threadtraces k ≡ two_traces k)
krd_read_one_trace-krd_write_one_trace_example =
    krd_read_one_trace-krd_write_one_trace field_bytes write_calls read_calls 100 1 2 loaded loaded
      (refl, refl, twenty-Transfers) (refl, twenty-Transfers) (omega arith) (inl refl)
      (λ k below. field_bytes-Restores (early k))

-- Two threads record an access each.
abbrev two_accesses : List Access
two_accesses =
    record { tid = 1; elem = 64; timestamp = 5; size = pos 8; kid = pos 1 }
    ∷ record { tid = 2; elem = 72; timestamp = 6; size = pos 8; kid = pos 1 }
    ∷ []

add_all-Stored_example :
    Stored (two_traces 2) (own 2 two_accesses) ((add_all two_accesses loaded).threadtraces 2)
add_all-Stored_example = add_all-Stored two_accesses loaded 2 (omega arith)

interleave_traces-id_at_example :
    ((interleave_traces 0 both_ids two_traces 0).num_elems ≡ 2 * 2)
    × ((j r tid : ℕ)
        → get_elem? both_ids j ≡ some tid
        → r < (two_traces tid).num_elems
        → id_at (interleave_traces 0 both_ids two_traces) 0 (r * 2 + j) ≡ id_at two_traces tid r)
unfolding longest
interleave_traces-id_at_example =
    interleave_traces-id_at 0 both_ids two_traces (λ there. omega arith) (omega arith) small
      (omega arith)
  where
    small : (t : ℕ) → In t both_ids → (two_traces t).num_elems < 4294967296
    small zero there = omega arith
    small (suc zero) there = omega arith
    small (suc (suc k)) there = omega arith

-- Accesses of 8, 8 and 16 bytes, and an invalidation.
abbrev four_sizes : ℕ → ℤ
four_sizes zero = pos 8
four_sizes (suc zero) = negsuc 3
four_sizes (suc (suc zero)) = pos 8
four_sizes (suc (suc (suc zero))) = pos 16
four_sizes (suc (suc (suc (suc k)))) = pos 0

four_sizes_end : (k : ℕ) → 4 ≤ k → ltb_ℤ (four_sizes k) (pos 0) ≡ false
four_sizes_end zero behind = absurd (omega arith)
four_sizes_end (suc zero) behind = absurd (omega arith)
four_sizes_end (suc (suc zero)) behind = absurd (omega arith)
four_sizes_end (suc (suc (suc zero))) behind = absurd (omega arith)
four_sizes_end (suc (suc (suc (suc k)))) behind = refl

cut_trace-AreCuts_example :
    (ranges : List Range) × (cut_trace four_sizes 5 4 (pos 8) (pos 16)
      ≡ ok (first_range ∷ ranges, length ranges))
    × AreCuts four_sizes 4 four_sizes_end (pos 16) 0 ranges
    × (IsSmall four_sizes 4 four_sizes_end (pos 16)
        → length ranges ≡ bytes_to four_sizes 4 four_sizes_end 4 / 16)
cut_trace-AreCuts_example =
    cut_trace-AreCuts four_sizes 4 four_sizes_end 5 (pos 8) (pos 16) (omega arith) refl

-- 16 bytes from 100 on.
abbrev block : StackEntry
block = record { elem = 100; size = 16; inv = false; core = 0 }

overlap-superset_example :
    ((x : ℕ)
      → HoldsSome (overlap array_partial 100 16 108 16) x ↔ (Holds 100 16 x × Holds 108 16 x))
    × (superset block 108 16 ≡ true → 0 < 16 → overlap array_partial 100 16 108 16 ≡ some (100, 16))
overlap-superset_example =
    overlap-superset block 108 16 (omega arith) (omega arith) (omega arith) (omega arith)
