-- ===== src/Reuse.antt =====
-- loi/krd.c: the stack of the blocks that a trace accesses, and the helpers of the histograms.
-- Addresses are `uint64_t` and sizes `uint32_t`, with their wrap-around written out. A stack is the
-- list of its entries from `stack_head` on.
pub mod Overlap
use xitao.Prelude.{
  ℕ, zero, suc, ◌+◌, ◌-◌, ◌*◌, ◌/◌, ◌%◌, Bool, true, false, List, [], ◌∷◌, Option, none, some, ltb,
  leb, ◌==◌, if◌then◌else◌, ◌&&◌,
}
use xitao.Prelude.Int.{ℤ, pos, ltb_ℤ, eqb_ℤ}
use xitao.Prelude.Result.{Result, ok, exit}
use xitao.Trace.{KrdExit, raw_trace_magic, rwi_trace_magic, unsupported_magic}

pub data DataModels : Type 0 where
  array_partial array_disjoint sparse : DataModels

pub record StackEntry : Type 0 where
  pub elem : ℕ
  pub size : ℕ
  pub inv : Bool
  pub core : ℕ

abbrev pub two_64 : ℕ
two_64 = 18446744073709551616

abbrev pub two_32 : ℕ
two_32 = 4294967296

-- Sums and differences of addresses.
abbrev pub add_64 : ℕ → ℕ → ℕ
add_64 a b = (a + b) % two_64

abbrev pub sub_64 : ℕ → ℕ → ℕ
sub_64 a b = (a + two_64 - b) % two_64

-- `overlap`: the start and the size of the common bytes, or none for 0.
unfoldable pub overlap : DataModels → ℕ → ℕ → ℕ → ℕ → Option (ℕ × ℕ)
overlap array_partial stackaddr stacksize inaddr insize =
    let in_end = add_64 inaddr insize in
    let stack_end = add_64 stackaddr stacksize in
    let start = if ltb inaddr stackaddr then stackaddr else inaddr in
    if ltb stackaddr in_end && ltb inaddr stack_end
    then some (
      start,
      (if ltb stack_end in_end then sub_64 stack_end start else sub_64 in_end start) % two_32,
    )
    else none
overlap array_disjoint stackaddr stacksize inaddr insize =
    if inaddr == stackaddr then some (inaddr, insize) else none
overlap sparse stackaddr stacksize inaddr insize =
    if inaddr == stackaddr then some (inaddr, insize) else none

unfoldable pub superset : StackEntry → ℕ → ℕ → Bool
superset sentry element size =
    leb element sentry.elem && leb (add_64 sentry.elem sentry.size) (add_64 element size)

-- Whether an element is an invalidation, by the kind of the trace.
unfoldable pub is_invalidation_probe : ℤ → ℤ → Result KrdExit Bool
is_invalidation_probe krd_trace_magic rsize =
    if eqb_ℤ krd_trace_magic raw_trace_magic
    then ok false
    else if eqb_ℤ krd_trace_magic rwi_trace_magic
    then ok (ltb_ℤ rsize (pos 0))
    else exit unsupported_magic

-- The entry of the filter for an address; `HASH_SIZE` is 2^28 + 1.
unfoldable pub hash_addr : ℕ → ℕ
hash_addr a = a / 8 % 268435457

-- `print_trace_data`: the bytes on the stack.
unfoldable pub stack_data : List StackEntry → ℕ
stack_data [] = 0
stack_data (entry ∷ rest) = (entry.size + stack_data rest) % two_64
