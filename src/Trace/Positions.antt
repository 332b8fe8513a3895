-- ===== src/Trace/Positions.antt =====
-- Where the interleaving tool of loi/krd_trace.c puts the elements.
use xitao.Prelude.{
  ℕ, zero, suc, ◌+◌, ◌/◌, ◌≤◌, ◌<◌, ◌≡◌, ◌≢◌, refl, ◌∙◌, sym, ap, subst, false, List, [], ◌∷◌, some,
  length, get_elem?, ltb, if◌then◌else◌, arith, Bool-cases, inl, inr, some-injective, none-ne-some,
}
use xitao.Prelude.Family.{update_same, update_other}
use xitao.Prelude.Member.{In}
use xitao.Trace.{TraceEntry, ThreadTrace}
use xitao.Trace.Interleave.{set_elem, interleave_row}

abbrev pub id_at : (ℕ → ThreadTrace) → ℕ → ℕ → ℕ
id_at traces t k = ((traces t).data_ids k).id

set_elem-other :
    (target k id : ℕ) (traces : ℕ → ThreadTrace) (t : ℕ)
    → target ≢ t
    → set_elem target k id traces t ≡ traces t
unfolding set_elem
set_elem-other target k id traces t ne = update_other traces target t _ ne

set_elem-new :
    (target k id : ℕ) (traces : ℕ → ThreadTrace) → id_at (set_elem target k id traces) target k ≡ id
unfolding set_elem
set_elem-new target k id traces =
    let e = record ((traces target).data_ids k) { id = id } in
    ap (λ (t : ThreadTrace). (t.data_ids k).id) (update_same traces target _)
    ∙ ap TraceEntry.id (update_same (traces target).data_ids k e)

set_elem-old :
    (target k id : ℕ) (traces : ℕ → ThreadTrace) (k' : ℕ)
    → k' < k
    → id_at (set_elem target k id traces) target k' ≡ id_at traces target k'
unfolding set_elem
set_elem-old target k id traces k' below =
    let e = record ((traces target).data_ids k) { id = id } in
    ap (λ (t : ThreadTrace). (t.data_ids k').id) (update_same traces target _)
    ∙ ap TraceEntry.id (update_other (traces target).data_ids k k' e (λ h. omega arith))

-- What a step leaves: other traces, and what stands before `from`.
abbrev pub Leaves : ℕ → ℕ → (ℕ → ThreadTrace) → (ℕ → ThreadTrace) → Type 0
Leaves target from before after =
    ((t : ℕ) → target ≢ t → after t ≡ before t)
    × ((k : ℕ) → k < from → id_at after target k ≡ id_at before target k)

-- One element of the row.
element : ℕ → ℕ → ℕ → ℕ → (ℕ → ThreadTrace) → ℕ → ThreadTrace
element target threads tid counter traces =
    if ltb (traces tid).num_elems (counter / threads)
    then traces
    else set_elem target counter ((traces tid).data_ids (counter / threads)).id traces

element-Leaves :
    (target threads tid counter : ℕ) (traces : ℕ → ThreadTrace)
    → Leaves target counter traces (element target threads tid counter traces)
unfolding element
element-Leaves target threads tid counter traces =
    elim (Bool-cases (ltb (traces tid).num_elems (counter / threads))) [
      | inl past ↦ rw past (λ t ne. refl, λ k below. refl)
      | inr within ↦ rw within (
        λ t ne. set_elem-other target counter _ traces t ne,
        λ k below. set_elem-old target counter _ traces k below,
      )
    ]

element-new :
    (target threads tid counter : ℕ) (traces : ℕ → ThreadTrace)
    → counter / threads ≤ (traces tid).num_elems
    → id_at (element target threads tid counter traces) target counter
      ≡ id_at traces tid (counter / threads)
unfolding element
element-new target threads tid counter traces within =
    let e : ltb (traces tid).num_elems (counter / threads) ≡ false = ground arith in
    rw e (set_elem-new target counter _ traces)

-- The elements that a row puts, `from` being its first place.
abbrev pub Puts : ℕ → ℕ → List ℕ → ℕ → (ℕ → ThreadTrace) → (ℕ → ThreadTrace) → Type 0
Puts target threads ids from before after =
    (j tid : ℕ)
    → get_elem? ids j ≡ some tid
    → (from + j) / threads ≤ (before tid).num_elems
    → id_at after target (from + j) ≡ id_at before tid ((from + j) / threads)

pub get_elem?-In : (l : List ℕ) (j x : ℕ) → get_elem? l j ≡ some x → In x l
get_elem?-In [] j x e = absurd (none-ne-some _ e)
get_elem?-In (y ∷ rest) zero x e = inl (some-injective _ _ e)
get_elem?-In (y ∷ rest) (suc j) x e = inr (get_elem?-In rest j x e)

-- A row puts its first element, and then the others.
Puts-cons :
    (target threads tid : ℕ) (rest : List ℕ) (counter : ℕ) (traces after : ℕ → ThreadTrace)
    → (In target rest → ⊥)
    → Leaves target (suc counter) (element target threads tid counter traces) after
    → Puts target threads rest (suc counter) (element target threads tid counter traces) after
    → Puts target threads (tid ∷ rest) counter traces after
Puts-cons target threads tid rest counter traces after out (others, old) puts zero tid' e within =
    let here : counter + 0 ≡ counter = omega arith in
    let same : tid ≡ tid' = some-injective _ _ e in
    subst (λ (x : ℕ). id_at after target x ≡ id_at traces tid' (x / threads)) (sym here)
      (subst (λ (x : ℕ). id_at after target counter ≡ id_at traces x (counter / threads)) same
        (old counter (omega arith)
          ∙ element-new target threads tid counter traces (
              subst (λ (x : ℕ). counter / threads ≤ (traces x).num_elems) (sym same)
                (subst (λ (x : ℕ). x / threads ≤ (traces tid').num_elems) here within))))
Puts-cons target threads tid rest counter traces after out (others, old) puts (suc j) tid' e
      within =
    let next : suc counter + j ≡ counter + suc j = omega arith in
    let ne : target ≢ tid' =
      λ h. out (subst (λ (x : ℕ). In x rest) (sym h) (get_elem?-In rest j tid' e)) in
    let (others', old') = element-Leaves target threads tid counter traces in
    let same = others' tid' ne in
    subst (λ (x : ℕ). id_at after target x ≡ id_at traces tid' (x / threads)) next
      (puts j tid' e (
          subst (λ (t : ThreadTrace). (suc counter + j) / threads ≤ t.num_elems) (sym same)
            (subst (λ (x : ℕ). x / threads ≤ (traces tid').num_elems) (sym next) within))
        ∙ ap (λ (t : ThreadTrace). (t.data_ids ((suc counter + j) / threads)).id) same)

pub interleave_row-Puts :
    (target threads : ℕ) (ids : List ℕ) (counter : ℕ) (traces : ℕ → ThreadTrace)
    → (In target ids → ⊥)
    → (after : ℕ → ThreadTrace) × (interleave_row target threads ids counter traces
        ≡ (counter + length ids, after))
      × Leaves target counter traces after
      × Puts target threads ids counter traces after
unfolding interleave_row element
interleave_row-Puts target threads [] counter traces out = (
  traces,
  (let z : counter ≡ counter + 0 = omega arith in λ i. (z i, traces)),
  (λ t ne. refl, λ k below. refl),
  λ j tid e. absurd (none-ne-some _ e),
)
interleave_row-Puts target threads (tid ∷ rest) counter traces out =
    let traces' = element target threads tid counter traces in
    let ne : target ≢ tid = λ h. out (inl (sym h)) in
    let (others, old) = element-Leaves target threads tid counter traces in
    let (after, runs, (others', old'), puts) =
      interleave_row-Puts target threads rest (suc counter) traces' (λ there. out (inr there)) in
    (
      after,
      runs
          ∙ (let e : suc counter + length rest ≡ counter + suc (length rest) = omega arith in
              λ i. (e i, after)),
      (λ t n. others' t n ∙ others t n, λ k below. old' k (omega arith) ∙ old k below),
      Puts-cons target threads tid rest counter traces after (λ there. out (inr there))
          (others', old') puts,
    )
