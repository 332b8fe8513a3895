-- ===== src/Trace/Merge.antt =====
-- The merge tool of loi/krd_trace.c.
use xitao.Prelude.{
  ℕ, zero, suc, ◌-◌, ◌%◌, ◌<◌, ◌≡◌, ◌≢◌, refl, ◌∙◌, sym, ap, subst, List, [], ◌∷◌, some, map,
  length, ◌==◌, arith, Bool-cases, inl, inr, true, false, if◌then◌else◌,
}
use xitao.Prelude.Family.{update}
use xitao.Prelude.Member.{In}
use xitao.Trace.{TraceEntry, ThreadTrace}
use xitao.Trace.Tools.{emit, advance, next_entry, merge_step, merge_loop, merge_traces, max_elems}
use xitao.Trace.Schedule.{Distinct}
use xitao.Trace.Order.{slice, by_source, Ordered, schedule, chosen, next_of, remaining}
use xitao.Trace.Taken.{
  Within, Tracks, entries_taken, round_lem, schedule-Ordered, schedule-by_source,
}
use xitao.Trace.Output.{
  IsWritten, IsWritten-none, Follows, Follows-step, IsWritten-round, IsWritten-slice, elements,
  elements-set_num_elems, choose_source-Follows, next_entry-Follows,
}

-- An entry that comes from trace `t`, as the merge tool stores it.
abbrev pub from_core : ℕ → TraceEntry → TraceEntry
from_core t e = record e { core = t % 65536 }

merged : List (ℕ × TraceEntry) → List TraceEntry
merged [] = []
merged ((t, e) ∷ rest) = from_core t e ∷ merged rest

-- The entries with a given core.
unfoldable pub of_core : ℕ → List TraceEntry → List TraceEntry
of_core t [] = []
of_core t (e ∷ rest) = let more = of_core t rest in if e.core == t then e ∷ more else more

module _ (entries : ℕ → ℕ → TraceEntry) (nums : ℕ → ℕ) (sources : List ℕ)
    (tracks : Tracks entries nums sources) (distinct : Distinct sources) (target : ℕ)
    (out : In target sources → ⊥) where
  merge_loop-merged :
      (left : ℕ) (first : ℕ) (index : ℕ → ℕ) (traces : ℕ → ThreadTrace)
      → Within nums sources index
      → left ≡ remaining nums sources index
      → Follows entries nums sources traces index
      → IsWritten
          (traces target)
          (merged (schedule entries sources left index))
          (merge_loop left target sources first traces target)
  unfolding merge_loop merge_step schedule merged
  merge_loop-merged zero first index traces within e follows = IsWritten-none (traces target)
  merge_loop-merged (suc left) first index traces within e follows =
      let (found, unfinished, within', e') =
        round_lem entries nums sources tracks distinct left index within e in
      let c : ℕ = chosen entries sources index in
      let same = choose_source-Follows entries nums sources traces index first follows found in
      let entry = next_entry-Follows entries nums sources traces index c follows found.0 in
      let step : ℕ → ℕ → ThreadTrace =
        λ x. advance x (emit target (some (from_core x (next_entry traces x))) traces) in
      let o = some (from_core c (next_entry traces c)) in
      let ne : c ≢ target = λ h. out (subst (λ (x : ℕ). In x sources) h found.0) in
      let rest = merged (schedule entries sources left (update index c (suc (index c)))) in
      let after =
        merge_loop-merged left first (update index c (suc (index c))) (step c) within' e'
          (Follows-step entries nums sources traces index target c o out follows) in
      let written = IsWritten-round traces target c o rest _ ne after in
      subst
        (λ (x : ℕ).
          IsWritten (traces target) (from_core c (next_of entries index c) ∷ rest)
            (merge_loop left target sources first (step x) target))
        (sym same)
        (subst
          (λ (e : TraceEntry).
            IsWritten (traces target) (from_core c e ∷ rest)
              (merge_loop left target sources first (step c) target))
          entry written)

  length-merged :
      (left : ℕ) (index : ℕ → ℕ) → length (merged (schedule entries sources left index)) ≡ left
  unfolding schedule merged
  length-merged zero index = refl
  length-merged (suc left) index =
      let c : ℕ = chosen entries sources index in
      ap suc (length-merged left (update index c (suc (index c))))

  -- The core tells where an entry comes from.
  of_core-merged :
      (left : ℕ) (index : ℕ → ℕ) (t : ℕ)
      → ((x : ℕ) → In x sources → x < 65536)
      → t < 65536
      → Within nums sources index
      → left ≡ remaining nums sources index
      → of_core t (merged (schedule entries sources left index))
        ≡ map (from_core t) (by_source t (schedule entries sources left index))
  unfolding schedule merged by_source of_core
  of_core-merged zero index t small small' within e = refl
  of_core-merged (suc left) index t small small' within e =
      let (found, unfinished, within', e') =
        round_lem entries nums sources tracks distinct left index within e in
      let c : ℕ = chosen entries sources index in
      let kept : c % 65536 ≡ c = let below = small c found.0 in omega arith in
      let rest = of_core-merged left (update index c (suc (index c))) t small small' within' e' in
      elim (Bool-cases (c == t)) [
        | inl hit ↦
            let same : c ≡ t = ground arith in
            let hit' : (c % 65536 == t) ≡ true = rw kept hit in
            let head : from_core c (next_of entries index c)
                ≡ from_core t (next_of entries index c) =
              ap (λ (x : ℕ). from_core x (next_of entries index c)) same in
            rw (hit, hit') (λ i. head i ∷ rest i)
        | inr miss ↦ let miss' : (c % 65536 == t) ≡ false = rw kept miss in rw (miss, miss') rest
      ]

Ordered-merged :
    (from : ℕ) (taken : List (ℕ × TraceEntry))
    → Ordered from (entries_taken taken)
    → Ordered from (merged taken)
unfolding merged
Ordered-merged from [] ordered = tt
Ordered-merged from ((t, e) ∷ rest) (low, ordered) = (low, Ordered-merged e.tsc rest ordered)

-- Traces that have just been read and are in order, and an output trace that is none of them.
pub record IsMergeable (traces : ℕ → ThreadTrace) (target : ℕ) (sources : List ℕ) : Type 0 where
  pub distinct : Distinct sources
  pub other : In target sources → ⊥
  pub empty : (traces target).index ≡ 0
  pub fresh : (t : ℕ) → In t sources → (traces t).index ≡ 0
  pub tracks : Tracks (λ t. (traces t).data_ids) (λ t. (traces t).num_elems) sources
  pub numbered : (t : ℕ) → In t sources → t < 65536

pub remaining-max_elems :
    (traces : ℕ → ThreadTrace) (sources : List ℕ)
    → max_elems traces sources ≡ remaining (λ t. (traces t).num_elems) sources (λ _. 0)
unfolding max_elems remaining
remaining-max_elems traces [] = refl
remaining-max_elems traces (t ∷ rest) = omega (arith, remaining-max_elems traces rest)

-- The output, as the order by time has it.
merge_traces-merged :
    (traces : ℕ → ThreadTrace) (target : ℕ) (sources : List ℕ)
    → IsMergeable traces target sources
    → elements (merge_traces target sources traces target)
      ≡ merged (schedule (λ t. (traces t).data_ids) sources (max_elems traces sources) (λ _. 0))
unfolding merge_traces max_elems schedule merged slice
merge_traces-merged traces target [] m = elements-set_num_elems target 0 traces
merge_traces-merged traces target (first ∷ rest) m =
    let sources : List ℕ = first ∷ rest in
    let entries : ℕ → ℕ → TraceEntry = λ t. (traces t).data_ids in
    let nums : ℕ → ℕ = λ t. (traces t).num_elems in
    let total = max_elems traces sources in
    let written =
      merge_loop-merged entries nums sources m.tracks m.distinct target m.other total first (λ _. 0)
        traces (λ t there. omega arith) (remaining-max_elems traces sources)
        (λ t there. (refl, m.fresh t there, refl)) in
    elements-set_num_elems target total (merge_loop total target sources first traces)
    ∙ IsWritten-slice (traces target) _ _ total m.empty
        (length-merged entries nums sources m.tracks m.distinct target m.other total (λ _. 0))
        written

-- From traces that are each in order of time, with times that are neither 0 nor the largest
-- number and a time of 0 behind the end, none of which is read twice or is the output trace, the
-- merge tool makes an output in order of time.
merge_traces-Ordered :
    (traces : ℕ → ThreadTrace) (target : ℕ) (sources : List ℕ)
    → IsMergeable traces target sources
    → Ordered 0 (elements (merge_traces target sources traces target))
merge_traces-Ordered traces target sources m =
    subst (Ordered 0) (sym (merge_traces-merged traces target sources m)) (
      Ordered-merged 0 _ (
        schedule-Ordered (λ t. (traces t).data_ids) (λ t. (traces t).num_elems) sources m.tracks
          m.distinct (max_elems traces sources) (λ _. 0) 0 (λ t there. omega arith)
          (remaining-max_elems traces sources) (λ t there more. omega arith)))

-- From traces that are each in order of time, with times that are neither 0 nor the largest
-- number and a time of 0 behind the end, which have just been read, bear numbers below 65536, and
-- of which none is given twice or is the empty output trace, the merge tool makes an output in
-- order of time, as long as all of them together, in which the entries that bear the number of
-- one of the traces as their core are the entries of that trace, all of them and in their order,
-- with the core replaced.
pub merge_traces-of_core :
    (traces : ℕ → ThreadTrace) (target : ℕ) (sources : List ℕ)
    → IsMergeable traces target sources
    → Ordered 0 (elements (merge_traces target sources traces target))
      × (length (elements (merge_traces target sources traces target)) ≡ max_elems traces sources)
      × ((t : ℕ)
          → In t sources
          → of_core t (elements (merge_traces target sources traces target))
            ≡ map (from_core t) (elements (traces t)))
merge_traces-of_core traces target sources m =
    let entries : ℕ → ℕ → TraceEntry = λ t. (traces t).data_ids in
    let nums : ℕ → ℕ = λ t. (traces t).num_elems in
    let total = max_elems traces sources in
    let all = merge_traces-merged traces target sources m in
    let within : Within nums sources (λ _. 0) = λ t there. omega arith in
    let left = remaining-max_elems traces sources in
    (
      merge_traces-Ordered traces target sources m,
      ap length all
          ∙ length-merged entries nums sources m.tracks m.distinct target m.other total (λ _. 0),
      λ t there.
          let whole : nums t - 0 ≡ nums t = omega arith in
          ap (of_core t) all
          ∙ of_core-merged entries nums sources m.tracks m.distinct target m.other total (λ _. 0) t
              m.numbered (m.numbered t there) within left
          ∙ ap (map (from_core t)) (
              schedule-by_source entries nums sources m.tracks m.distinct total (λ _. 0) t within
                left there
              ∙ ap (slice (entries t) 0) whole),
    )
