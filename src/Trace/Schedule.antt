-- ===== src/Trace/Schedule.antt =====
-- The order in which the tools of loi/krd_trace.c take the entries of several traces.
use xitao.Prelude.{
  ℕ, suc, ◌≤◌, ◌<◌, ◌≡◌, ◌≢◌, ◌⊎◌, refl, sym, subst, inl, inr, true, false, not, List, [], ◌∷◌, ltb,
  ◌==◌, ◌&&◌, arith, Bool-cases, dec_lt, ℕ_discrete,
}
use xitao.Prelude.Member.{In}
use xitao.Trace.{TraceEntry}
use xitao.Trace.Tools.{choose_source, max_tsc, deactivate}

abbrev pub Distinct : List ℕ → Type 0
Distinct [] = Unit
Distinct (t ∷ rest) = (In t rest → ⊥) × Distinct rest

-- A trace with times, in their order, and with zero behind its end.
pub record IsTrack (entries : ℕ → TraceEntry) (num : ℕ) : Type 0 where
  pub ordered : (k : ℕ) → suc k < num → (entries k).tsc ≤ (entries (suc k)).tsc
  pub timed : (k : ℕ) → k < num → (0 < (entries k).tsc) × ((entries k).tsc < max_tsc)
  pub ended : (entries num).tsc ≡ 0

-- `c` has the lowest time of those that have one.
abbrev pub IsLowest : (ℕ → TraceEntry) → ℕ → ℕ → Type 0
IsLowest next c t = ((next t).tsc ≡ 0) ⊎ ((next c).tsc ≤ (next t).tsc)

abbrev pub Found : (ℕ → TraceEntry) → List ℕ → ℕ → ℕ → Type 0
Found next sources lowest c =
    In c sources
    × ((next c).tsc ≢ 0)
    × ((next c).tsc < lowest)
    × ((t : ℕ) → In t sources → IsLowest next c t)

better_cases :
    (tsc lowest : ℕ)
    → ((not (tsc == 0) && ltb tsc lowest ≡ true) × (tsc ≢ 0) × (tsc < lowest))
      ⊎ ((not (tsc == 0) && ltb tsc lowest ≡ false) × ((tsc ≡ 0) ⊎ (lowest ≤ tsc)))
better_cases tsc lowest = elim (ℕ_discrete tsc 0) [
  | yes none ↦ let e : (tsc == 0) ≡ true = ground arith in inr (rw e refl, inl none)
  | no some ↦
      let e : (tsc == 0) ≡ false = ground arith in
      elim (dec_lt tsc lowest) [
        | yes less ↦
            let l : ltb tsc lowest ≡ true = ground arith in inl (rw (e, l) refl, some, less)
        | no more ↦
            let l : ltb tsc lowest ≡ false = ground arith in inr (rw (e, l) refl, inr (omega arith))
      ]
]

-- What the search gives, from the best so far.
abbrev pub Chosen : (ℕ → TraceEntry) → List ℕ → ℕ → ℕ → ℕ → Type 0
Chosen next sources source lowest c =
    ((c ≡ source) × ((t : ℕ) → In t sources → ((next t).tsc ≡ 0) ⊎ (lowest ≤ (next t).tsc)))
    ⊎ Found next sources lowest c

Chosen-better :
    (next : ℕ → TraceEntry) (tid : ℕ) (rest : List ℕ) (source lowest c : ℕ)
    → (next tid).tsc ≢ 0
    → (next tid).tsc < lowest
    → Chosen next rest tid (next tid).tsc c
    → Chosen next (tid ∷ rest) source lowest c
Chosen-better next tid rest source lowest c timed less (inl (e, all)) = inr (
  inl (sym e),
  subst (λ (t : ℕ). (next t).tsc ≢ 0) (sym e) timed,
  subst (λ (t : ℕ). (next t).tsc < lowest) (sym e) less,
  λ t there.
      subst (λ (x : ℕ). IsLowest next x t) (sym e)
        (elim there [
          | inl same ↦ inr (subst (λ (x : ℕ). (next tid).tsc ≤ (next x).tsc) same (omega arith))
          | inr later ↦ all t later
        ]),
)
Chosen-better next tid rest source lowest c timed less (inr (there, some, less', all)) = inr (
  inr there,
  some,
  omega arith,
  λ t there'. elim there' [
    | inl same ↦ inr (subst (λ (x : ℕ). (next c).tsc ≤ (next x).tsc) same (omega arith))
    | inr later ↦ all t later
  ],
)

Chosen-worse :
    (next : ℕ → TraceEntry) (tid : ℕ) (rest : List ℕ) (source lowest c : ℕ)
    → ((next tid).tsc ≡ 0) ⊎ (lowest ≤ (next tid).tsc)
    → Chosen next rest source lowest c
    → Chosen next (tid ∷ rest) source lowest c
Chosen-worse next tid rest source lowest c out (inl (e, all)) = inl (
  e,
  λ t there. elim there [
    | inl same ↦ subst (λ (x : ℕ). ((next x).tsc ≡ 0) ⊎ (lowest ≤ (next x).tsc)) same out
    | inr later ↦ all t later
  ],
)
Chosen-worse next tid rest source lowest c out (inr (there, some, less, all)) = inr (
  inr there,
  some,
  less,
  λ t there'. elim there' [
    | inl same ↦
        subst (λ (x : ℕ). IsLowest next c x) same
          (elim out [ inl none ↦ inl none | inr more ↦ inr (omega arith) ])
    | inr later ↦ all t later
  ],
)

pub choose_source-Chosen :
    (next : ℕ → TraceEntry) (sources : List ℕ) (source lowest : ℕ)
    → Chosen next sources source lowest (choose_source next sources source lowest)
unfolding choose_source
choose_source-Chosen next [] source lowest = inl (refl, λ t none. absurd none)
choose_source-Chosen next (tid ∷ rest) source lowest = elim (better_cases (next tid).tsc lowest) [
  | inl (b, some, less) ↦
      let c = choose_source next rest tid (next tid).tsc in
      let e : choose_source next (tid ∷ rest) source lowest ≡ c = rw b refl in
      subst (Chosen next (tid ∷ rest) source lowest) (sym e) (
        Chosen-better next tid rest source lowest c some less
          (choose_source-Chosen next rest tid (next tid).tsc))
  | inr (b, out) ↦
      let c = choose_source next rest source lowest in
      let e : choose_source next (tid ∷ rest) source lowest ≡ c = rw b refl in
      subst (Chosen next (tid ∷ rest) source lowest) (sym e) (
        Chosen-worse next tid rest source lowest c out
          (choose_source-Chosen next rest source lowest))
]

-- Where some trace has a time, the search finds the lowest.
pub choose_source-Found :
    (next : ℕ → TraceEntry) (sources : List ℕ) (source t : ℕ)
    → In t sources
    → (next t).tsc ≢ 0
    → (next t).tsc < max_tsc
    → Found next sources max_tsc (choose_source next sources source max_tsc)
choose_source-Found next sources source t there timed below =
    elim (choose_source-Chosen next sources source max_tsc) [
      | inl (e, all) ↦ elim (all t there) [
        | inl none ↦ absurd (timed none)
        | inr more ↦ absurd (omega arith)
      ]
      | inr found ↦ found
    ]

-- Then the search does not depend on where it starts.
pub choose_source-start :
    (next : ℕ → TraceEntry) (sources : List ℕ) (source source' lowest t : ℕ)
    → In t sources
    → (next t).tsc ≢ 0
    → (next t).tsc < lowest
    → choose_source next sources source lowest ≡ choose_source next sources source' lowest
unfolding choose_source
choose_source-start next [] source source' lowest t there timed below = absurd there
choose_source-start next (tid ∷ rest) source source' lowest t there timed below =
    elim (better_cases (next tid).tsc lowest) [
      | inl (b, some, less) ↦ rw b refl
      | inr (b, out) ↦ elim there [
        | inl same ↦
            elim (subst (λ (x : ℕ). ((next x).tsc ≡ 0) ⊎ (lowest ≤ (next x).tsc)) same out) [
              | inl none ↦ absurd (timed none)
              | inr more ↦ absurd (omega arith)
            ]
        | inr later ↦ rw b (choose_source-start next rest source source' lowest t later timed below)
      ]
    ]

-- A trace with nothing left may be taken out.
pub choose_source-deactivate :
    (next : ℕ → TraceEntry) (x : ℕ) (sources : List ℕ) (source lowest : ℕ)
    → (next x).tsc ≡ 0
    → choose_source next (deactivate x sources) source lowest
      ≡ choose_source next sources source lowest
unfolding choose_source deactivate
choose_source-deactivate next x [] source lowest ended = refl
choose_source-deactivate next x (tid ∷ rest) source lowest ended = elim (Bool-cases (tid == x)) [
  | inl hit ↦
      let same : tid ≡ x = ground arith in
      let none : ((next tid).tsc == 0) ≡ true =
        subst (λ (t : ℕ). ((next t).tsc == 0) ≡ true) (sym same) (rw ended refl) in
      rw (hit, none) (choose_source-deactivate next x rest source lowest ended)
  | inr miss ↦ rw miss (choose_source-deactivate next x rest _ _ ended)
]
