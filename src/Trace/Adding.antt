-- ===== src/Trace/Adding.antt =====
-- The accesses that the threads of a program add to their traces (loi/krd.h).
use xitao.Prelude.{
  ℕ, zero, suc, ◌+◌, ◌≤◌, ◌<◌, ◌≡◌, ◌≢◌, refl, sym, ◌∙◌, ap, subst, inl, inr, false, List, [], ◌∷◌,
  some, length, get_elem?, ltb, ◌==◌, if◌then◌else◌, arith, Bool-cases, some-injective,
}
use xitao.Prelude.Family.{update, update_same, update_other}
use xitao.Prelude.Int.{ℤ}
use xitao.Trace.{TraceEntry, ThreadTrace, Krd, trace_length, add_and_incr}

-- One call of `TTrace_add_and_incr`.
pub record Access : Type 0 where
  pub tid : ℕ
  pub elem : ℕ
  pub timestamp : ℕ
  pub size : ℤ
  pub kid : ℤ

unfoldable pub add_all : List Access → Krd → Krd
add_all [] s = s
add_all (a ∷ rest) s = add_all rest (add_and_incr a.tid a.elem a.timestamp a.size a.kid s)

-- The calls by one thread.
unfoldable pub own : ℕ → List Access → List Access
own t [] = []
own t (a ∷ rest) = let more = own t rest in if a.tid == t then a ∷ more else more

-- An entry holds what a call was given.
abbrev pub Records : TraceEntry → Access → Type 0
Records e a = (e.id ≡ a.elem) × (e.tsc ≡ a.timestamp) × (e.size ≡ a.size) × (e.kernel_id ≡ a.kid)

stored : Access → ThreadTrace → ThreadTrace
stored a t = record t {
  data_ids = update t.data_ids t.num_elems (record (t.data_ids t.num_elems) {
    tsc = a.timestamp;
    id = a.elem;
    size = a.size;
    kernel_id = a.kid;
  });
  num_elems = suc t.num_elems;
}

store : Access → ThreadTrace → ThreadTrace
store a t = if ltb t.num_elems trace_length then stored a t else t

store_all : List Access → ThreadTrace → ThreadTrace
store_all [] t = t
store_all (a ∷ rest) t = store_all rest (store a t)

add_and_incr-same :
    (a : Access) (s : Krd)
    → (add_and_incr a.tid a.elem a.timestamp a.size a.kid s).threadtraces a.tid
      ≡ store a (s.threadtraces a.tid)
unfolding add_and_incr store stored
add_and_incr-same a s = elim (Bool-cases (ltb (s.threadtraces a.tid).num_elems trace_length)) [
  | inl room ↦ rw room (update_same s.threadtraces a.tid _)
  | inr full ↦ rw full refl
]

add_and_incr-other :
    (a : Access) (s : Krd) (t : ℕ)
    → a.tid ≢ t
    → (add_and_incr a.tid a.elem a.timestamp a.size a.kid s).threadtraces t ≡ s.threadtraces t
unfolding add_and_incr
add_and_incr-other a s t ne =
    elim (Bool-cases (ltb (s.threadtraces a.tid).num_elems trace_length)) [
      | inl room ↦ rw room (update_other s.threadtraces a.tid t _ ne)
      | inr full ↦ rw full refl
    ]

add_all-store_all :
    (accesses : List Access) (s : Krd) (t : ℕ)
    → (add_all accesses s).threadtraces t ≡ store_all (own t accesses) (s.threadtraces t)
unfolding add_all store_all own
add_all-store_all [] s t = refl
add_all-store_all (a ∷ rest) s t =
    let s' = add_and_incr a.tid a.elem a.timestamp a.size a.kid s in
    elim (Bool-cases (a.tid == t)) [
      | inl hit ↦
          let here : a.tid ≡ t = ground arith in
          let same : s'.threadtraces t ≡ store a (s.threadtraces t) =
            subst (λ (k : ℕ). s'.threadtraces k ≡ store a (s.threadtraces k)) here
              (add_and_incr-same a s) in
          rw hit (add_all-store_all rest s' t ∙ ap (store_all (own t rest)) same)
      | inr miss ↦
          let ne : a.tid ≢ t = ground arith in
          rw miss (
            add_all-store_all rest s' t ∙ ap (store_all (own t rest)) (add_and_incr-other a s t ne))
    ]

-- What the calls leave in the trace of one thread.
abbrev pub Stored : ThreadTrace → List Access → ThreadTrace → Type 0
Stored before accesses after =
    (after.num_elems ≡ (
      if ltb trace_length (before.num_elems + length accesses)
      then trace_length
      else before.num_elems + length accesses))
    × ((k : ℕ) → k < before.num_elems → after.data_ids k ≡ before.data_ids k)
    × ((k : ℕ) (a : Access)
        → get_elem? accesses k ≡ some a
        → before.num_elems + k < trace_length
        → Records (after.data_ids (before.num_elems + k)) a)

store_all-full :
    (accesses : List Access) (t : ThreadTrace)
    → t.num_elems ≡ trace_length
    → store_all accesses t ≡ t
unfolding store_all store
store_all-full [] t full = refl
store_all-full (a ∷ rest) t full =
    let no_room : ltb t.num_elems trace_length ≡ false = ground arith in
    rw no_room (store_all-full rest t full)

stored_fits :
    (a : Access) (t : ThreadTrace)
    → t.num_elems < trace_length
    → (stored a t).num_elems ≤ trace_length
unfolding stored
stored_fits a t room = room

stored-Records : (a : Access) (t : ThreadTrace) → Records ((stored a t).data_ids t.num_elems) a
unfolding stored
stored-Records a t =
    let here = update_same t.data_ids t.num_elems (record (t.data_ids t.num_elems) {
      tsc = a.timestamp;
      id = a.elem;
      size = a.size;
      kernel_id = a.kid;
    }) in
    (
      ap TraceEntry.id here,
      ap TraceEntry.tsc here,
      ap TraceEntry.size here,
      ap TraceEntry.kernel_id here,
    )

stored-Stored :
    (a : Access) (rest : List Access) (t after : ThreadTrace)
    → t.num_elems < trace_length
    → Stored (stored a t) rest after
    → Stored t (a ∷ rest) after
unfolding stored
stored-Stored a rest t after room (num, old, new) = (
  ground arith,
  λ k before. old k (omega arith) ∙ update_other t.data_ids t.num_elems k _ (λ e. omega arith),
  entry,
)
  where
    entry :
        (k : ℕ) (a' : Access)
        → get_elem? (a ∷ rest) k ≡ some a'
        → t.num_elems + k < trace_length
        → Records (after.data_ids (t.num_elems + k)) a'
    entry zero a' e fits =
        let at : t.num_elems + 0 ≡ t.num_elems = omega arith in
        let same : after.data_ids (t.num_elems + 0) ≡ (stored a t).data_ids t.num_elems =
          ap after.data_ids at ∙ old t.num_elems (omega arith) in
        subst (λ (x : TraceEntry). Records x a') (sym same)
          (subst (Records ((stored a t).data_ids t.num_elems)) (some-injective _ _ e)
            (stored-Records a t))
    entry (suc k) a' e fits =
        let at : suc t.num_elems + k ≡ t.num_elems + suc k = omega arith in
        subst (λ (n : ℕ). Records (after.data_ids n) a') at (new k a' e (omega arith))

store_all-stores :
    (accesses : List Access) (t : ThreadTrace)
    → t.num_elems ≤ trace_length
    → Stored t accesses (store_all accesses t)
unfolding store_all store
store_all-stores [] t fits = (ground arith, λ k old. refl, λ k a e. cc)
store_all-stores (a ∷ rest) t fits = elim (Bool-cases (ltb t.num_elems trace_length)) [
  | inl room ↦
      let step : store a t ≡ stored a t = rw room refl in
      subst (λ (u : ThreadTrace). Stored t (a ∷ rest) (store_all rest u)) (sym step)
        (stored-Stored a rest t (store_all rest (stored a t)) (ground arith)
          (store_all-stores rest (stored a t) (stored_fits a t (ground arith))))
  | inr none_left ↦
      let full : t.num_elems ≡ trace_length = ground arith in
      let step : store a t ≡ t = rw none_left refl in
      let same : store_all rest (store a t) ≡ t =
        ap (store_all rest) step ∙ store_all-full rest t full in
      subst (Stored t (a ∷ rest)) (sym same)
        (ground arith, λ k old. refl, λ k a' e below. absurd (omega arith))
]

-- Whatever the order of the calls of `TTrace_add_and_incr` by all threads, a trace with at most
-- TRACE_LENGTH entries keeps its entries and gets those of its own thread's calls, in their
-- order, up to TRACE_LENGTH entries in all; further calls change nothing.
pub add_all-Stored :
    (accesses : List Access) (s : Krd) (t : ℕ)
    → (s.threadtraces t).num_elems ≤ trace_length
    → Stored (s.threadtraces t) (own t accesses) ((add_all accesses s).threadtraces t)
add_all-Stored accesses s t fits =
    subst (Stored (s.threadtraces t) (own t accesses)) (sym (add_all-store_all accesses s t))
      (store_all-stores (own t accesses) (s.threadtraces t) fits)
