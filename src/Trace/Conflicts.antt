-- ===== src/Trace/Conflicts.antt =====
-- The coherence tool of loi/krd_trace.c as a whole.
use xitao.Prelude.{
  ℕ, zero, suc, ◌-◌, ◌≡◌, ◌≢◌, ◌↔◌, ◌∙◌, sym, ap, subst, List, map, true, arith, Bool-cases, inl,
  inr, ◌==◌,
}
use xitao.Prelude.Family.{update}
use xitao.Prelude.Member.{In}
use xitao.Trace.{TraceEntry, ThreadTrace}
use xitao.Trace.Tools.{coherence_traces, max_elems}
use xitao.Trace.Schedule.{Distinct}
use xitao.Trace.Order.{slice, by_source, Ordered, schedule, chosen, remaining}
use xitao.Trace.Taken.{Within, Tracks, round_lem, schedule-Ordered, schedule-by_source}
use xitao.Trace.Output.{elements}
use xitao.Trace.Merge.{IsMergeable, remaining-max_elems}
use xitao.Trace.Coherence.{coherent, coherence_traces-coherent}
use xitao.Trace.Invalidations.{
  is_write, is_access, keep_if, as_access, Ordered-coherent, keep_if-coherent, keep_if-Conflicts,
  Conflicts-keep_if,
}

-- Only the traces that are given are taken from.
schedule-In :
    (entries : ℕ → ℕ → TraceEntry) (nums : ℕ → ℕ) (sources : List ℕ)
    (tracks : Tracks entries nums sources) (distinct : Distinct sources) (rounds : ℕ)
    (index : ℕ → ℕ) (t : ℕ) (e : TraceEntry)
    → Within nums sources index
    → rounds ≡ remaining nums sources index
    → In e (by_source t (schedule entries sources rounds index))
    → In t sources
unfolding schedule by_source
schedule-In entries nums sources tracks distinct zero index t e within left there = absurd there
schedule-In entries nums sources tracks distinct (suc rounds) index t e within left there =
    let (found, unfinished, within', left') =
      round_lem entries nums sources tracks distinct rounds index within left in
    let c : ℕ = chosen entries sources index in
    elim (Bool-cases (c == t)) [
      | inl hit ↦ let same : c ≡ t = ground arith in subst (λ (x : ℕ). In x sources) same found.0
      | inr miss ↦
          schedule-In entries nums sources tracks distinct rounds (update index c (suc (index c))) t
            e within' left' (rw miss at there)
    ]

module _ (traces : ℕ → ThreadTrace) (target out_tid : ℕ) (sources : List ℕ)
    (m : IsMergeable traces target sources) where
  abbrev output : List TraceEntry
  output = elements (coherence_traces target out_tid sources traces target)

  taken : List (ℕ × TraceEntry)
  taken = schedule (λ t. (traces t).data_ids) sources (max_elems traces sources) (λ _. 0)

  zero-Within : Within (λ t. (traces t).num_elems) sources (λ _. 0)
  zero-Within t there = omega arith

  taken-by_source : (t : ℕ) → In t sources → by_source t taken ≡ elements (traces t)
  unfolding taken
  taken-by_source t there =
      let whole : (traces t).num_elems - 0 ≡ (traces t).num_elems = omega arith in
      schedule-by_source (λ t. (traces t).data_ids) (λ t. (traces t).num_elems) sources m.tracks
        m.distinct (max_elems traces sources) (λ _. 0) t zero-Within
        (remaining-max_elems traces sources) there
      ∙ ap (slice (traces t).data_ids 0) whole

  coherence_traces-Ordered : Ordered 0 output
  coherence_traces-Ordered =
      subst (Ordered 0) (sym (coherence_traces-coherent traces target out_tid sources m)) (
        Ordered-coherent 0 out_tid _ (
          schedule-Ordered (λ t. (traces t).data_ids) (λ t. (traces t).num_elems) sources m.tracks
            m.distinct (max_elems traces sources) (λ _. 0) 0 zero-Within
            (remaining-max_elems traces sources) (λ t there more. omega arith)))

  -- From traces such as the merge tool takes, in order and just read, of which the chosen one is
  -- one, the coherence tool makes an output in order of time, in which the entries that are not
  -- invalidations are the entries of the chosen trace, all of them and in their order, with their
  -- bytes made positive.
  pub coherence_traces-accesses :
      In out_tid sources
      → Ordered 0 output × (keep_if is_access output ≡ map as_access (elements (traces out_tid)))
  unfolding taken
  coherence_traces-accesses there = (
    coherence_traces-Ordered,
    ap (keep_if is_access) (coherence_traces-coherent traces target out_tid sources m)
        ∙ keep_if-coherent out_tid taken
        ∙ ap (map as_access) (taken-by_source out_tid there),
  )

  -- From traces such as the merge tool takes, in order and just read, the invalidations in the
  -- output of the coherence tool are exactly the writes that the traces other than the chosen one
  -- hold.
  pub coherence_traces-invalidations :
      (e : TraceEntry)
      → In e (keep_if is_write output) ↔ (
          (t : ℕ) × In t sources × (t ≢ out_tid) × In e (elements (traces t)) × (is_write e ≡ true))
  unfolding taken
  coherence_traces-invalidations e = (to, from)
    where
      same : output ≡ coherent out_tid taken
      same = coherence_traces-coherent traces target out_tid sources m

      to :
          In e (keep_if is_write output)
          → (t : ℕ) × In t sources
            × (t ≢ out_tid)
            × In e (elements (traces t))
            × (is_write e ≡ true)
      to there =
          let (t, ne, held, writes) =
            keep_if-Conflicts out_tid taken e
              (subst (λ (l : List TraceEntry). In e (keep_if is_write l)) same there) in
          let known =
            schedule-In (λ t. (traces t).data_ids) (λ t. (traces t).num_elems) sources m.tracks
              m.distinct (max_elems traces sources) (λ _. 0) t e zero-Within
              (remaining-max_elems traces sources) held in
          (t, known, ne, subst (In e) (taken-by_source t known) held, writes)

      from :
          ((t : ℕ) × In t sources
            × (t ≢ out_tid)
            × In e (elements (traces t))
            × (is_write e ≡ true))
          → In e (keep_if is_write output)
      from (t, known, ne, held, writes) =
          subst (λ (l : List TraceEntry). In e (keep_if is_write l)) (sym same)
            (Conflicts-keep_if out_tid taken e t ne
              (subst (In e) (sym (taken-by_source t known)) held) writes)
