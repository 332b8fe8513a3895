-- ===== src/Trace/Coherence.antt =====
-- The coherence tool of loi/krd_trace.c, round by round.
use xitao.Prelude.{
  ℕ, zero, suc, ◌≤◌, ◌≡◌, ◌≢◌, refl, ◌∙◌, sym, ap, subst, List, [], ◌∷◌, ◌++◌, leb, arith,
  Bool-cases, inl, inr, if◌then◌else◌, ℕ_discrete,
}
use xitao.Prelude.Family.{update, update_same, update_other}
use xitao.Prelude.Member.{In}
use xitao.Trace.{TraceEntry, ThreadTrace}
use xitao.Trace.Tools.{
  choose_source, max_tsc, emit, advance, next_entry, coherent_entry, coherence_loop,
  coherence_traces, deactivate, max_elems,
}
use xitao.Trace.Schedule.{Distinct, IsTrack, choose_source-deactivate}
use xitao.Trace.Order.{schedule, chosen, next_of, remaining}
use xitao.Trace.Taken.{Within, Tracks, round_lem}
use xitao.Trace.Output.{
  IsWritten, IsWritten-none, IsWritten-round, IsWritten-slice, elements, elements-set_num_elems,
  listed, Follows, Follows-step, choose_source-Follows, next_entry-Follows,
}
use xitao.Trace.Merge.{IsMergeable, remaining-max_elems}

-- What the tool records of the entries that it takes.
unfoldable pub coherent : ℕ → List (ℕ × TraceEntry) → List TraceEntry
coherent out_tid [] = []
coherent out_tid ((t, e) ∷ rest) = listed (coherent_entry out_tid t e) ++ coherent out_tid rest

module _ (entries : ℕ → ℕ → TraceEntry) (nums : ℕ → ℕ) (sources : List ℕ)
    (tracks : Tracks entries nums sources) (distinct : Distinct sources) (target out_tid : ℕ)
    (other : In target sources → ⊥) where
  -- The search over the active traces gives what it gives over all.
  abbrev IsActive : List ℕ → (ℕ → ℕ) → Type 0
  IsActive active index =
      (next : ℕ → TraceEntry)
      → ((t : ℕ) → In t sources → nums t ≤ index t → (next t).tsc ≡ 0)
      → (source lowest : ℕ)
      → choose_source next active source lowest ≡ choose_source next sources source lowest

  grown : (index : ℕ → ℕ) (c t : ℕ) → index t ≤ update index c (suc (index c)) t
  grown index c t = elim (ℕ_discrete c t) [
    | yes same ↦
        subst (λ (x : ℕ). index x ≤ update index c (suc (index c)) x) same
          (let now = update_same index c (suc (index c)) in omega arith)
    | no ne ↦ let stays = update_other index c t (suc (index c)) ne in omega arith
  ]

  IsActive-step :
      (active : List ℕ) (index : ℕ → ℕ) (c : ℕ)
      → IsActive active index
      → IsActive active (update index c (suc (index c)))
  IsActive-step active index c is_active next ended =
      is_active next (λ t there done. ended t there (let more = grown index c t in omega arith))

  IsActive-deactivate :
      (active : List ℕ) (index : ℕ → ℕ) (c : ℕ)
      → In c sources
      → nums c ≤ index c
      → IsActive active index
      → IsActive (deactivate c active) index
  IsActive-deactivate active index c there done is_active next ended source lowest =
      choose_source-deactivate next c active source lowest (ended c there done)
      ∙ is_active next ended source lowest

  next_of_ended :
      (index : ℕ → ℕ) (t : ℕ)
      → Within nums sources index
      → In t sources
      → nums t ≤ index t
      → (next_of entries index t).tsc ≡ 0
  next_of_ended index t within there done =
      let most = within t there in
      let at : index t ≡ nums t = omega arith in
      ap (λ (k : ℕ). (entries t k).tsc) at ∙ IsTrack.ended (tracks t there)

  -- Whether the trace is taken out or not, the search stays the same.
  IsActive-next :
      (active : List ℕ) (index : ℕ → ℕ) (c : ℕ) (traces : ℕ → ThreadTrace)
      → In c sources
      → Follows entries nums sources traces index
      → IsActive active index
      → IsActive
          (if leb (traces c).num_elems (traces c).index then deactivate c active else active)
          index
  IsActive-next active index c traces there follows is_active =
      elim (Bool-cases (leb (traces c).num_elems (traces c).index)) [
        | inl done ↦
            let (_, at, num) = follows c there in
            let e : nums c ≤ index c = ground arith in
            rw done (IsActive-deactivate active index c there e is_active)
        | inr more ↦ rw more is_active
      ]

  coherence_loop-coherent :
      (left : ℕ) (active : List ℕ) (source : ℕ) (index : ℕ → ℕ) (traces : ℕ → ThreadTrace)
      → Within nums sources index
      → left ≡ remaining nums sources index
      → Follows entries nums sources traces index
      → IsActive active index
      → IsWritten
          (traces target)
          (coherent out_tid (schedule entries sources left index))
          (coherence_loop left target out_tid active source traces target)
  unfolding coherence_loop schedule coherent
  coherence_loop-coherent zero active source index traces within e follows is_active =
      IsWritten-none (traces target)
  coherence_loop-coherent (suc left) active source index traces within e follows is_active =
      let (found, unfinished, within', e') =
        round_lem entries nums sources tracks distinct left index within e in
      let c : ℕ = chosen entries sources index in
      let same : choose_source (next_entry traces) active source max_tsc ≡ c =
        is_active (next_entry traces)
          (λ t there done.
            ap TraceEntry.tsc (next_entry-Follows entries nums sources traces index t follows there)
            ∙ next_of_ended index t within there done)
          source max_tsc
        ∙ choose_source-Follows entries nums sources traces index source follows found in
      let entry = next_entry-Follows entries nums sources traces index c follows found.0 in
      let step : ℕ → ℕ → ThreadTrace =
        λ x. advance x (emit target (coherent_entry out_tid x (next_entry traces x)) traces) in
      let keep : ℕ → List ℕ =
        λ x. if leb (step x x).num_elems (step x x).index then deactivate x active else active in
      let o = coherent_entry out_tid c (next_entry traces c) in
      let ne : c ≢ target = λ h. other (subst (λ (x : ℕ). In x sources) h found.0) in
      let index' : ℕ → ℕ = update index c (suc (index c)) in
      let rest = coherent out_tid (schedule entries sources left index') in
      let follows' = Follows-step entries nums sources traces index target c o other follows in
      let after = coherence_loop-coherent left (keep c) c index' (step c) within' e' follows' (
        IsActive-next active index' c (step c) found.0 follows'
          (IsActive-step active index c is_active)) in
      let written = IsWritten-round traces target c o rest _ ne after in
      subst
        (λ (x : ℕ).
          IsWritten (traces target)
            (listed (coherent_entry out_tid c (next_of entries index c)) ++ rest)
            (coherence_loop left target out_tid (keep x) x (step x) target))
        (sym same)
        (subst
          (λ (e : TraceEntry).
            IsWritten (traces target) (listed (coherent_entry out_tid c e) ++ rest)
              (coherence_loop left target out_tid (keep c) c (step c) target))
          entry written)

-- The output, as the order by time has it.
pub coherence_traces-coherent :
    (traces : ℕ → ThreadTrace) (target out_tid : ℕ) (sources : List ℕ)
    → IsMergeable traces target sources
    → elements (coherence_traces target out_tid sources traces target)
      ≡ coherent out_tid
          (schedule (λ t. (traces t).data_ids) sources (max_elems traces sources) (λ _. 0))
unfolding coherence_traces
coherence_traces-coherent traces target out_tid sources m =
    let entries : ℕ → ℕ → TraceEntry = λ t. (traces t).data_ids in
    let nums : ℕ → ℕ = λ t. (traces t).num_elems in
    let total = max_elems traces sources in
    let traces' = coherence_loop total target out_tid sources 0 traces in
    let l = coherent out_tid (schedule entries sources total (λ _. 0)) in
    let written =
      coherence_loop-coherent entries nums sources m.tracks m.distinct target out_tid m.other total
        sources 0 (λ _. 0) traces (λ t there. omega arith) (remaining-max_elems traces sources)
        (λ t there. (refl, m.fresh t there, refl)) (λ next ended source lowest. refl) in
    let empty = m.empty in
    let moved = IsWritten.moved written in
    elements-set_num_elems target (traces' target).index traces'
    ∙ IsWritten-slice (traces target) l (traces' target) (traces' target).index empty (omega arith)
        written
