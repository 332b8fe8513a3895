-- ===== src/Trace/Output.antt =====
-- The output trace of the tools of loi/krd_trace.c, and what a round does to the traces.
use xitao.Prelude.{
  ℕ, suc, ◌+◌, ◌<◌, ◌≡◌, ◌≢◌, refl, ◌∙◌, sym, ap, subst, inl, inr, List, [], ◌∷◌, ◌++◌, Option,
  none, some, length, arith, ℕ_discrete,
}
use xitao.Prelude.Family.{update, update_same, update_other}
use xitao.Prelude.Member.{In}
use xitao.Trace.{TraceEntry, ThreadTrace}
use xitao.Trace.Tools.{choose_source, max_tsc, emit, advance, next_entry, set_num_elems}
use xitao.Trace.Schedule.{choose_source-start, Found}
use xitao.Trace.Order.{slice, chosen, next_of}

-- `l` has been put behind what the trace held.
pub record IsWritten (before : ThreadTrace) (l : List TraceEntry) (after : ThreadTrace)
    : Type 0 where
  pub moved : after.index ≡ before.index + length l
  pub kept : (k : ℕ) → k < before.index → after.data_ids k ≡ before.data_ids k
  pub put : slice after.data_ids before.index (length l) ≡ l

abbrev pub listed : Option TraceEntry → List TraceEntry
listed none = []
listed (some e) = e ∷ []

pub IsWritten-none : (t : ThreadTrace) → IsWritten t [] t
unfolding slice
IsWritten-none t = record { moved = omega arith; kept = λ k old. refl; put = refl }

-- What `emit` leaves of the output trace.
abbrev pub emitted : Option TraceEntry → ThreadTrace → ThreadTrace
emitted none t = t
emitted (some e) t = record t { data_ids = update t.data_ids t.index e; index = suc t.index }

pub IsWritten-emitted :
    (o : Option TraceEntry) (l : List TraceEntry) (before after : ThreadTrace)
    → IsWritten (emitted o before) l after
    → IsWritten before (listed o ++ l) after
unfolding slice
IsWritten-emitted none l before after w = w
IsWritten-emitted (some e) l before after w = record {
  moved = let m = IsWritten.moved w in omega arith;
  kept = λ k old.
      IsWritten.kept w k (omega arith)
      ∙ update_other before.data_ids before.index k e (λ h. omega arith);
  put =
      let first =
        IsWritten.kept w before.index (omega arith) ∙ update_same before.data_ids before.index e in
      ap (λ (x : TraceEntry). x ∷ slice after.data_ids (suc before.index) (length l)) first
      ∙ ap (λ (rest : List TraceEntry). e ∷ rest) (IsWritten.put w);
}

pub emit-target :
    (target : ℕ) (o : Option TraceEntry) (traces : ℕ → ThreadTrace)
    → emit target o traces target ≡ emitted o (traces target)
unfolding emit
emit-target target none traces = refl
emit-target target (some e) traces = update_same traces target (emitted (some e) (traces target))

pub emit-other :
    (target : ℕ) (o : Option TraceEntry) (traces : ℕ → ThreadTrace) (t : ℕ)
    → target ≢ t
    → emit target o traces t ≡ traces t
unfolding emit
emit-other target none traces t ne = refl
emit-other target (some e) traces t ne = update_other traces target t _ ne

pub advance-same :
    (source : ℕ) (traces : ℕ → ThreadTrace)
    → advance source traces source ≡ record (traces source) { index = suc (traces source).index }
unfolding advance
advance-same source traces = update_same traces source _

pub advance-other :
    (source : ℕ) (traces : ℕ → ThreadTrace) (t : ℕ)
    → source ≢ t
    → advance source traces t ≡ traces t
unfolding advance
advance-other source traces t ne = update_other traces source t _ ne

choose_source-ext :
    (next next' : ℕ → TraceEntry) (sources : List ℕ) (source lowest : ℕ)
    → ((t : ℕ) → In t sources → next t ≡ next' t)
    → choose_source next sources source lowest ≡ choose_source next' sources source lowest
unfolding choose_source
choose_source-ext next next' [] source lowest same = refl
choose_source-ext next next' (tid ∷ rest) source lowest same =
    let e : (next tid).tsc ≡ (next' tid).tsc = ap TraceEntry.tsc (same tid (inl refl)) in
    rw e (choose_source-ext next next' rest _ _ (λ t there. same t (inr there)))

-- The output trace after a round.
pub target_step :
    (traces : ℕ → ThreadTrace) (target c : ℕ) (o : Option TraceEntry)
    → c ≢ target
    → advance c (emit target o traces) target ≡ emitted o (traces target)
target_step traces target c o ne =
    advance-other c (emit target o traces) target ne ∙ emit-target target o traces

pub IsWritten-round :
    (traces : ℕ → ThreadTrace) (target c : ℕ) (o : Option TraceEntry) (l : List TraceEntry)
    (after : ThreadTrace)
    → c ≢ target
    → IsWritten (advance c (emit target o traces) target) l after
    → IsWritten (traces target) (listed o ++ l) after
IsWritten-round traces target c o l after ne w =
    IsWritten-emitted o l (traces target) after
      (subst (λ (t : ThreadTrace). IsWritten t l after) (target_step traces target c o ne) w)

-- What a trace holds.
abbrev pub elements : ThreadTrace → List TraceEntry
elements t = slice t.data_ids 0 t.num_elems

pub elements-set_num_elems :
    (target n : ℕ) (traces : ℕ → ThreadTrace)
    → elements (set_num_elems target n traces target) ≡ slice (traces target).data_ids 0 n
unfolding set_num_elems
elements-set_num_elems target n traces =
    ap elements (update_same traces target (record (traces target) { num_elems = n }))

pub IsWritten-slice :
    (before : ThreadTrace) (l : List TraceEntry) (after : ThreadTrace) (n : ℕ)
    → before.index ≡ 0
    → length l ≡ n
    → IsWritten before l after
    → slice after.data_ids 0 n ≡ l
IsWritten-slice before l after n empty long w =
    sym (λ i. slice after.data_ids (empty i) (long i)) ∙ IsWritten.put w

module _ (entries : ℕ → ℕ → TraceEntry) (nums : ℕ → ℕ) where
  -- The traces as far as they have been taken.
  abbrev pub Follows : List ℕ → (ℕ → ThreadTrace) → (ℕ → ℕ) → Type 0
  Follows sources traces index =
      (t : ℕ)
      → In t sources
      → (traces t).data_ids ≡ entries t
        × ((traces t).index ≡ index t)
        × ((traces t).num_elems ≡ nums t)

  pub next_entry-Follows :
      (sources : List ℕ) (traces : ℕ → ThreadTrace) (index : ℕ → ℕ) (t : ℕ)
      → Follows sources traces index
      → In t sources
      → next_entry traces t ≡ next_of entries index t
  unfolding next_entry
  next_entry-Follows sources traces index t follows there =
      let (same, at, _) = follows t there in λ i. same i (at i)

  -- The tool chooses the trace that the order by time names.
  pub choose_source-Follows :
      (sources : List ℕ) (traces : ℕ → ThreadTrace) (index : ℕ → ℕ) (source : ℕ)
      → Follows sources traces index
      → Found (next_of entries index) sources max_tsc (chosen entries sources index)
      → choose_source (next_entry traces) sources source max_tsc ≡ chosen entries sources index
  choose_source-Follows sources traces index source follows found =
      choose_source-ext (next_entry traces) (next_of entries index) sources source max_tsc
        (λ t there. next_entry-Follows sources traces index t follows there)
      ∙ choose_source-start (next_of entries index) sources source 0 max_tsc
          (chosen entries sources index) found.0 found.1 found.2

  pub Follows-step :
      (sources : List ℕ) (traces : ℕ → ThreadTrace) (index : ℕ → ℕ) (target c : ℕ)
      (o : Option TraceEntry)
      → (In target sources → ⊥)
      → Follows sources traces index
      → Follows sources (advance c (emit target o traces)) (update index c (suc (index c)))
  Follows-step sources traces index target c o out follows t there =
      let other =
        emit-other target o traces t (λ e. out (subst (λ (x : ℕ). In x sources) (sym e) there)) in
      let (same, at, num) = follows t there in
      elim (ℕ_discrete c t) [
        | yes here ↦
            let now : advance c (emit target o traces) t
                ≡ record (emit target o traces t) { index = suc (emit target o traces t).index } =
              subst
                (λ (x : ℕ).
                  advance x (emit target o traces) t
                  ≡ record (emit target o traces t) { index = suc (emit target o traces t).index })
                (sym here) (advance-same t (emit target o traces)) in
            let moved : update index c (suc (index c)) t ≡ suc (index t) =
              subst (λ (x : ℕ). update index x (suc (index x)) t ≡ suc (index t)) (sym here)
                (update_same index t (suc (index t))) in
            (
              ap ThreadTrace.data_ids now ∙ ap ThreadTrace.data_ids other ∙ same,
              ap ThreadTrace.index now
                  ∙ ap (λ (u : ThreadTrace). suc u.index) other
                  ∙ ap suc at
                  ∙ sym moved,
              ap ThreadTrace.num_elems now ∙ ap ThreadTrace.num_elems other ∙ num,
            )
        | no ne ↦
            let whole = advance-other c (emit target o traces) t ne ∙ other in
            let stays = update_other index c t (suc (index c)) ne in
            (
              ap ThreadTrace.data_ids whole ∙ same,
              ap ThreadTrace.index whole ∙ at ∙ sym stays,
              ap ThreadTrace.num_elems whole ∙ num,
            )
      ]
