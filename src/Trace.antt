-- ===== src/Trace.antt =====
-- loi/krd.h, loi/krd_common.c: the traces of memory accesses, one for each thread.
-- The memory of a trace is a function of the entry's number. `mmap` gives a mapped memory, or none
-- for NULL, and `calloc` says whether the array of traces could be allocated.
pub mod Files
pub mod Partition
pub mod Cuts
pub mod Rows
pub mod Positions
pub mod Interleave
pub mod Conflicts
pub mod Invalidations
pub mod Coherence
pub mod Merge
pub mod Output
pub mod Taken
pub mod Order
pub mod Schedule
pub mod Tools
pub mod Adding
pub mod Saved
pub mod Transfer
use xitao.Prelude.{
  ℕ, zero, suc, ◌+◌, Bool, true, false, not, Option, none, some, ltb, leb, if◌then◌else◌, ◌||◌,
}
use xitao.Prelude.Family.{update}
use xitao.Prelude.Int.{ℤ, pos, minus_one, pos_part, ltb_ℤ, leb_ℤ}
use xitao.Prelude.Result.{Result, ok, exit, ◌>>=◌}

abbrev pub trace_length : ℕ
trace_length = 67108864

abbrev pub max_trace_threads : ℕ
max_trace_threads = 1024

pub record TraceEntry : Type 0 where
  pub id : ℕ
  pub tsc : ℕ
  pub size : ℤ
  pub core : ℕ
  pub kernel_id : ℤ

abbrev pub zero_entry : TraceEntry
zero_entry = record { id = 0; tsc = 0; size = pos 0; core = 0; kernel_id = pos 0 }

pub record ThreadTrace : Type 0 where
  pub num_elems : ℕ
  pub index : ℕ
  pub data_ids : ℕ → TraceEntry
  pub mapped : Bool  -- `data_ids` is not NULL

abbrev pub raw_trace_magic : ℤ
raw_trace_magic = pos 4095

abbrev pub rwi_trace_magic : ℤ
rwi_trace_magic = pos 4094

pub record Krd : Type 0 where
  pub allocated : Bool  -- `threadtraces` is not NULL
  pub threadtraces : ℕ → ThreadTrace
  pub krd_trace_magic : ℤ

-- The ways in which the tools stop. `before_buffer` is an access to bytes in front of a trace,
-- `beyond_array` one behind the array of traces, `null_array` one to an array that is NULL,
-- `no_argument` the use of an argument that is not there, `partition_of_zero` a division by 0, and
-- `endless` says that the rounds of a loop ran out.
pub data KrdExit : Type 0 where
  error_allocating : KrdExit
  error_opening : KrdExit
  error_writing : KrdExit
  error_reading : KrdExit
  unsupported_magic : KrdExit
  incompatible_formats : KrdExit
  usage : KrdExit
  before_buffer : KrdExit
  beyond_array : KrdExit
  null_array : KrdExit
  no_argument : KrdExit
  partition_of_zero : KrdExit
  endless : KrdExit

unfoldable pub new_krd : Krd
new_krd = record {
  allocated = false;
  threadtraces =
      λ _. record { num_elems = 0; index = 0; data_ids = λ _. zero_entry; mapped = false };
  krd_trace_magic = minus_one;
}

-- What `calloc` makes of the array of traces.
unfoldable pub allocate : Bool → Krd → Result KrdExit Krd
unfolding new_krd
allocate true s = ok (record s { allocated = true; threadtraces = new_krd.threadtraces })
allocate false s = exit error_allocating

unfoldable pub allocate_once : Bool → Krd → Result KrdExit Krd
allocate_once calloc s = if s.allocated then ok s else allocate calloc s

-- The memory of one trace.
unfoldable pub map_trace : Option (ℕ → TraceEntry) → ℕ → Krd → Result KrdExit Krd
map_trace none i s = if leb max_trace_threads i then exit beyond_array else exit error_allocating
map_trace (some memory) i s =
    if leb max_trace_threads i
    then exit beyond_array
    else ok (record s {
      threadtraces =
          update s.threadtraces i
            (record { num_elems = 0; index = 0; data_ids = memory; mapped = true });
    })

-- The loops of `krd_init` and `krd_init_block`, from thread `i` on.
unfoldable pub map_traces : (ℕ → Option (ℕ → TraceEntry)) → ℕ → ℕ → Krd → Result KrdExit Krd
map_traces mmap zero i s = ok s
map_traces mmap (suc more) i s = map_trace (mmap i) i s >>= λ s'. map_traces mmap more (suc i) s'

unfoldable pub krd_init : Bool → (ℕ → Option (ℕ → TraceEntry)) → Krd → Result KrdExit Krd
krd_init calloc mmap s = allocate calloc s >>= λ s'. map_traces mmap max_trace_threads 0 s'

unfoldable pub krd_init_block : Bool → (ℕ → Option (ℕ → TraceEntry)) → ℤ → Krd → Result KrdExit Krd
krd_init_block calloc mmap numthreads s =
    allocate_once calloc s >>= λ s'. map_traces mmap (pos_part numthreads) 0 s'

-- The number is what the function returns. `calloc` is not checked here.
unfoldable pub krd_init_index :
    Bool → (ℕ → Option (ℕ → TraceEntry)) → ℤ → ℤ → Krd → Result KrdExit (ℤ × Krd)
unfolding new_krd
krd_init_index calloc mmap threadindex tracelength s =
    let fresh = record s { allocated = calloc; threadtraces = new_krd.threadtraces } in
    let s' = if s.allocated then s else fresh in
    if ltb_ℤ threadindex (pos 0)
      || (leb_ℤ (pos max_trace_threads) threadindex || ltb_ℤ tracelength (pos 0))
    then ok (minus_one, s')
    else if not s'.allocated
    then exit null_array
    else map_trace (mmap (pos_part threadindex)) (pos_part threadindex) s' >>= λ s''.
        ok (pos 0, s'')

-- `TTrace_add_and_incr`; the core of the entry is left as it was.
unfoldable pub add_and_incr : ℕ → ℕ → ℕ → ℤ → ℤ → Krd → Krd
add_and_incr tid elem timestamp size kid s =
    let t = s.threadtraces tid in
    if ltb t.num_elems trace_length
    then record s {
      threadtraces = update s.threadtraces tid (record t {
        data_ids = update t.data_ids t.num_elems (record (t.data_ids t.num_elems) {
          tsc = timestamp;
          id = elem;
          size = size;
          kernel_id = kid;
        });
        num_elems = suc t.num_elems;
      });
    }
    else s

-- `TTrace_add_and_incr_entry`
unfoldable pub add_and_incr_entry : ℕ → ℕ → ℕ → ℤ → ℕ → ℤ → Krd → Krd
add_and_incr_entry tid elem timestamp size entry kid s =
    let t = s.threadtraces tid in
    if ltb t.num_elems trace_length
    then record s {
      threadtraces = update s.threadtraces tid (record t {
        data_ids = update t.data_ids entry (record (t.data_ids entry) {
          tsc = timestamp;
          id = elem;
          size = size;
          kernel_id = kid;
        });
      });
    }
    else s
