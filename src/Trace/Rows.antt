-- ===== src/Trace/Rows.antt =====
-- The rounds of the interleaving tool of loi/krd_trace.c.
use xitao.Prelude.{
  ℕ, zero, suc, ◌+◌, ◌*◌, ◌/◌, ◌%◌, ◌≤◌, ◌<◌, ◌≡◌, refl, ◌∙◌, sym, ap, subst, true, List, [], ◌∷◌,
  some, length, get_elem?, ltb, if◌then◌else◌, arith, inl, inr, none-ne-some, ℕ_discrete,
}
use native.Mathlib.Nat.{div-eq_of_lt-le}
use xitao.Prelude.Family.{update_same}
use xitao.Prelude.Member.{In}
use xitao.Trace.{ThreadTrace, trace_length}
use xitao.Trace.Tools.{set_num_elems}
use xitao.Trace.Interleave.{longest, interleave_loop, interleave_traces}
use xitao.Trace.Positions.{id_at, Leaves, Puts, interleave_row-Puts, get_elem?-In}

get_elem?-below : (l : List ℕ) (j x : ℕ) → get_elem? l j ≡ some x → j < length l
get_elem?-below [] j x e = absurd (none-ne-some _ e)
get_elem?-below (y ∷ rest) zero x e = omega arith
get_elem?-below (y ∷ rest) (suc j) x e = let b = get_elem?-below rest j x e in omega arith

row_of : (r m j : ℕ) → j < m → (r * m + j) / m ≡ r
row_of r m j below = div-eq_of_lt-le m (omega arith) (omega arith)

-- The elements from row `r` on, of `n` rows.
abbrev Rows : ℕ → List ℕ → ℕ → ℕ → (ℕ → ThreadTrace) → (ℕ → ThreadTrace) → Type 0
Rows target ids r n before after =
    (r' j tid : ℕ)
    → r ≤ r'
    → r' < n
    → get_elem? ids j ≡ some tid
    → r' ≤ (before tid).num_elems
    → id_at after target (r' * length ids + j) ≡ id_at before tid r'

-- One row, and those behind it.
Rows-cons :
    (target : ℕ) (ids : List ℕ) (r n : ℕ) (before between after : ℕ → ThreadTrace)
    → (In target ids → ⊥)
    → Leaves target (r * length ids) before between
    → Puts target (length ids) ids (r * length ids) before between
    → Leaves target (suc r * length ids) between after
    → Rows target ids (suc r) n between after
    → Rows target ids r n before after
Rows-cons target ids r n before between after out (others, old) puts (others', old') rows r' j tid
      lo hi e within =
    let below = get_elem?-below ids j tid e in
    elim (ℕ_discrete r r') [
      | yes same ↦
          let row : (r * length ids + j) / length ids ≡ r = row_of r (length ids) j below in
          let put : id_at between target (r * length ids + j) ≡ id_at before tid r =
            puts j tid e (subst (λ (x : ℕ). x ≤ (before tid).num_elems) (sym same ∙ sym row) within)
            ∙ ap (id_at before tid) row in
          subst (λ (x : ℕ). id_at after target (x * length ids + j) ≡ id_at before tid x) same
            (old' (r * length ids + j) (omega arith) ∙ put)
      | no ne ↦
          let other =
            others tid
              (λ h. out (subst (λ (x : ℕ). In x ids) (sym h) (get_elem?-In ids j tid e))) in
          rows r' j tid (omega arith) hi e
            (subst (λ (t : ThreadTrace). r' ≤ t.num_elems) (sym other) within)
          ∙ ap (λ (t : ThreadTrace). (t.data_ids r').id) other
    ]

interleave_loop-Rows :
    (rounds target : ℕ) (ids : List ℕ) (n r : ℕ) (traces : ℕ → ThreadTrace)
    → (In target ids → ⊥)
    → 0 < length ids
    → r + rounds ≡ n
    → n * length ids ≤ trace_length
    → (after : ℕ → ThreadTrace) × (interleave_loop rounds target ids n (r * length ids) traces
        ≡ (n * length ids, after))
      × Leaves target (r * length ids) traces after
      × Rows target ids r n traces after
unfolding interleave_loop
interleave_loop-Rows zero target ids n r traces out some_ids e fits =
    let last : r ≡ n = omega arith in
    (
      traces,
      (λ i. (last i * length ids, traces)),
      (λ t ne. refl, λ k below. refl),
      λ r' j tid lo hi. absurd (omega arith),
    )
interleave_loop-Rows (suc rounds) target ids n r traces out some_ids e fits =
    let m : ℕ = length ids in
    let (between, row_runs, leaves, puts) = interleave_row-Puts target m ids (r * m) traces out in
    let (after, runs, leaves', rows) =
      interleave_loop-Rows rounds target ids n (suc r) between out some_ids (omega arith) fits in
    let product : (r + suc rounds) * m ≡ n * m = ap (λ (t : ℕ). t * m) e in
    let below : r * m < n * m = omega arith in
    let whole : n * m % 4294967296 ≡ n * m = omega arith in
    let more : ltb (r * m) (n * m) ≡ true = ground arith in
    let room : ltb (r * m) trace_length ≡ true = ground arith in
    let next : r * m + m ≡ suc r * m = omega arith in
    (
      after,
      rw (whole, more, room)
          (ap (λ (p : ℕ × (ℕ → ThreadTrace)). interleave_loop rounds target ids n p.0 p.1)
              (row_runs ∙ λ i. (next i, between))
            ∙ runs),
      (
        λ t ne. leaves'.0 t ne ∙ leaves.0 t ne,
        λ k below. leaves'.1 k (omega arith) ∙ leaves.1 k below,
      ),
      Rows-cons target ids r n traces between after out leaves puts leaves' rows,
    )

longest-le :
    (traces : ℕ → ThreadTrace) (so_far : ℕ) (ids : List ℕ)
    → ((t : ℕ) → In t ids → (traces t).num_elems < 4294967296)
    → so_far ≤ longest traces so_far ids
      × ((t : ℕ) → In t ids → (traces t).num_elems ≤ longest traces so_far ids)
unfolding longest
longest-le traces so_far [] small = (omega arith, λ t there. absurd there)
longest-le traces so_far (tid ∷ rest) small =
    let n : ℕ = (traces tid).num_elems in
    let small_n = small tid (inl refl) in
    let whole : n % 4294967296 ≡ n = omega arith in
    let so_far' : ℕ = if ltb so_far n then n else so_far in
    let least : so_far ≤ so_far' = ground arith in
    let least' : n ≤ so_far' = ground arith in
    let (more, all) = longest-le traces so_far' rest (λ t there. small t (inr there)) in
    rw whole (
      omega arith,
      λ t there. elim there [
        | inl same ↦
            subst (λ (x : ℕ). (traces x).num_elems ≤ longest traces so_far' rest) same (omega arith)
        | inr later ↦ all t later
      ],
    )

-- From m traces, at least one, of fewer than 2^32 elements each, none of which is the output
-- trace, where m times the longest is at most TRACE_LENGTH, the interleaving tool makes an output
-- of m times the longest elements, in which the identifier of element r of trace number j stands
-- at place r * m + j.
pub interleave_traces-id_at :
    (target : ℕ) (ids : List ℕ) (traces : ℕ → ThreadTrace)
    → (In target ids → ⊥)
    → 0 < length ids
    → ((t : ℕ) → In t ids → (traces t).num_elems < 4294967296)
    → longest traces 0 ids * length ids ≤ trace_length
    → ((interleave_traces target ids traces target).num_elems ≡ longest traces 0 ids * length ids)
      × ((j r tid : ℕ)
          → get_elem? ids j ≡ some tid
          → r < (traces tid).num_elems
          → id_at (interleave_traces target ids traces) target (r * length ids + j)
            ≡ id_at traces tid r)
unfolding interleave_traces set_num_elems
interleave_traces-id_at target ids traces out some_ids small fits =
    let n = longest traces 0 ids in
    let (after, runs, leaves, rows) =
      interleave_loop-Rows n target ids n 0 traces out some_ids (omega arith) fits in
    let z : 0 * length ids ≡ 0 = omega arith in
    let runs' =
      subst (λ (k : ℕ). interleave_loop n target ids n k traces ≡ (n * length ids, after)) z runs in
    let result = ap (λ (p : ℕ × (ℕ → ThreadTrace)). set_num_elems target p.0 p.1) runs' in
    let here = update_same after target (record (after target) { num_elems = n * length ids }) in
    (
      ap (λ (f : ℕ → ThreadTrace). (f target).num_elems) result ∙ ap ThreadTrace.num_elems here,
      λ j r tid e below.
          let longest_all = (longest-le traces 0 ids small).1 tid (get_elem?-In ids j tid e) in
          ap (λ (f : ℕ → ThreadTrace). ((f target).data_ids (r * length ids + j)).id) result
          ∙ ap (λ (t : ThreadTrace). (t.data_ids (r * length ids + j)).id) here
          ∙ rows r j tid (omega arith) (omega arith) e (omega arith),
    )
