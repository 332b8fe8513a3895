-- ===== src/Trace/Invalidations.antt =====
-- What the coherent trace of loi/krd_trace.c says of the traces it is made of.
use xitao.Prelude.{
  ℕ, ◌+◌, ◌≤◌, ◌≡◌, ◌≢◌, ◌⊎◌, refl, ◌∙◌, sym, ap, subst, List, [], ◌∷◌, Bool, map, ◌==◌, arith,
  Bool-cases, inl, inr, true, false, not, if◌then◌else◌,
}
use xitao.Prelude.Int.{pos, pos_part, neg_part, ltb_ℤ}
use xitao.Prelude.Member.{In}
use xitao.Trace.{TraceEntry}
use xitao.Trace.Tools.{coherent_entry}
use xitao.Trace.Order.{by_source, Ordered}
use xitao.Trace.Taken.{entries_taken}
use xitao.Trace.Coherence.{coherent}

abbrev pub is_write : TraceEntry → Bool
is_write e = ltb_ℤ e.size (pos 0)

unfoldable pub keep_if : (TraceEntry → Bool) → List TraceEntry → List TraceEntry
keep_if test [] = []
keep_if test (e ∷ rest) = let more = keep_if test rest in if test e then e ∷ more else more

-- An entry with its bytes made positive.
abbrev pub as_access : TraceEntry → TraceEntry
as_access e = record e { size = pos (pos_part e.size + neg_part e.size) }

Ordered-le_lem :
    (from from' : ℕ) (l : List TraceEntry) → from ≤ from' → Ordered from' l → Ordered from l
Ordered-le_lem from from' [] le ordered = tt
Ordered-le_lem from from' (e ∷ rest) le (low, ordered) = (omega arith, ordered)

pub Ordered-coherent :
    (from out_tid : ℕ) (taken : List (ℕ × TraceEntry))
    → Ordered from (entries_taken taken)
    → Ordered from (coherent out_tid taken)
unfolding coherent coherent_entry
Ordered-coherent from out_tid [] ordered = tt
Ordered-coherent from out_tid ((t, e) ∷ rest) (low, ordered) =
    let rest_ordered = Ordered-coherent e.tsc out_tid rest ordered in
    elim (Bool-cases (t == out_tid)) [
      | inl own ↦ rw own (low, rest_ordered)
      | inr other ↦ elim (Bool-cases (is_write e)) [
        | inl writes ↦ rw (other, writes) (low, rest_ordered)
        | inr reads ↦ rw (other, reads) (Ordered-le_lem from e.tsc _ low rest_ordered)
      ]
    ]

keep_if-hit :
    (test : TraceEntry → Bool) (e : TraceEntry) (l : List TraceEntry)
    → test e ≡ true
    → keep_if test (e ∷ l) ≡ e ∷ keep_if test l
unfolding keep_if
keep_if-hit test e l hit = rw hit refl

keep_if-miss :
    (test : TraceEntry → Bool) (e : TraceEntry) (l : List TraceEntry)
    → test e ≡ false
    → keep_if test (e ∷ l) ≡ keep_if test l
unfolding keep_if
keep_if-miss test e l miss = rw miss refl

as_access_reads : (e : TraceEntry) → is_write (as_access e) ≡ false
as_access_reads e = ground arith

-- What the coherent trace gets of an entry.
coherent-own :
    (out_tid t : ℕ) (e : TraceEntry) (rest : List (ℕ × TraceEntry))
    → (t == out_tid) ≡ true
    → coherent out_tid ((t, e) ∷ rest) ≡ as_access e ∷ coherent out_tid rest
unfolding coherent coherent_entry
coherent-own out_tid t e rest own = rw own refl

coherent-write :
    (out_tid t : ℕ) (e : TraceEntry) (rest : List (ℕ × TraceEntry))
    → (t == out_tid) ≡ false
    → is_write e ≡ true
    → coherent out_tid ((t, e) ∷ rest) ≡ e ∷ coherent out_tid rest
unfolding coherent coherent_entry
coherent-write out_tid t e rest other writes = rw (other, writes) refl

coherent-read :
    (out_tid t : ℕ) (e : TraceEntry) (rest : List (ℕ × TraceEntry))
    → (t == out_tid) ≡ false
    → is_write e ≡ false
    → coherent out_tid ((t, e) ∷ rest) ≡ coherent out_tid rest
unfolding coherent coherent_entry
coherent-read out_tid t e rest other reads = rw (other, reads) refl

abbrev pub is_access : TraceEntry → Bool
is_access e = not (is_write e)

pub keep_if-coherent :
    (out_tid : ℕ) (taken : List (ℕ × TraceEntry))
    → keep_if is_access (coherent out_tid taken) ≡ map as_access (by_source out_tid taken)
unfolding coherent by_source keep_if
keep_if-coherent out_tid [] = refl
keep_if-coherent out_tid ((t, e) ∷ rest) =
    let same = keep_if-coherent out_tid rest in
    elim (Bool-cases (t == out_tid)) [
      | inl own ↦
          ap (keep_if is_access) (coherent-own out_tid t e rest own)
          ∙ keep_if-hit is_access (as_access e) (coherent out_tid rest)
              (rw (as_access_reads e) refl)
          ∙ rw own (ap (λ (l : List TraceEntry). as_access e ∷ l) same)
      | inr other ↦ elim (Bool-cases (is_write e)) [
        | inl writes ↦
            ap (keep_if is_access) (coherent-write out_tid t e rest other writes)
            ∙ keep_if-miss is_access e (coherent out_tid rest) (rw writes refl)
            ∙ rw other same
        | inr reads ↦
            ap (keep_if is_access) (coherent-read out_tid t e rest other reads) ∙ rw other same
      ]
    ]

-- A write that a trace other than the chosen one holds.
abbrev pub Conflicts : ℕ → (ℕ → List TraceEntry) → TraceEntry → Type 0
Conflicts out_tid taken e = (t : ℕ) × (t ≢ out_tid) × In e (taken t) × (is_write e ≡ true)

by_source-more :
    (t c : ℕ) (x e : TraceEntry) (rest : List (ℕ × TraceEntry))
    → In e (by_source t rest)
    → In e (by_source t ((c, x) ∷ rest))
unfolding by_source
by_source-more t c x e rest there = elim (Bool-cases (c == t)) [
  | inl hit ↦ rw hit (inr there)
  | inr miss ↦ rw miss there
]

Conflicts-more :
    (out_tid c : ℕ) (x e : TraceEntry) (rest : List (ℕ × TraceEntry))
    → Conflicts out_tid (λ t. by_source t rest) e
    → Conflicts out_tid (λ t. by_source t ((c, x) ∷ rest)) e
Conflicts-more out_tid c x e rest (t, ne, there, writes) =
    (t, ne, by_source-more t c x e rest there, writes)

pub keep_if-Conflicts :
    (out_tid : ℕ) (taken : List (ℕ × TraceEntry)) (e : TraceEntry)
    → In e (keep_if is_write (coherent out_tid taken))
    → Conflicts out_tid (λ t. by_source t taken) e
unfolding coherent keep_if by_source
keep_if-Conflicts out_tid [] e there = absurd there
keep_if-Conflicts out_tid ((c, x) ∷ rest) e there = elim (Bool-cases (c == out_tid)) [
  | inl own ↦ Conflicts-more out_tid c x e rest (
      keep_if-Conflicts out_tid rest e (
        subst (In e)
          (ap (keep_if is_write) (coherent-own out_tid c x rest own)
            ∙ keep_if-miss is_write (as_access x) (coherent out_tid rest) (as_access_reads x))
          there))
  | inr other ↦ elim (Bool-cases (is_write x)) [
    | inr reads ↦ Conflicts-more out_tid c x e rest (
        keep_if-Conflicts out_tid rest e
          (subst (In e) (ap (keep_if is_write) (coherent-read out_tid c x rest other reads)) there))
    | inl writes ↦
        elim (subst (In e)
          (ap (keep_if is_write) (coherent-write out_tid c x rest other writes)
            ∙ keep_if-hit is_write x (coherent out_tid rest) writes)
          there) [
            | inl same ↦
                let hit : (c == c) ≡ true = ground arith in
                let ne : c ≢ out_tid = ground arith in
                (c, ne, rw hit (inl same), ap is_write (sym same) ∙ writes)
            | inr later ↦ Conflicts-more out_tid c x e rest (keep_if-Conflicts out_tid rest e later)
          ]
  ]
]

keep_if-coherent_more :
    (out_tid c : ℕ) (x e : TraceEntry) (rest : List (ℕ × TraceEntry))
    → In e (keep_if is_write (coherent out_tid rest))
    → In e (keep_if is_write (coherent out_tid ((c, x) ∷ rest)))
keep_if-coherent_more out_tid c x e rest there = elim (Bool-cases (c == out_tid)) [
  | inl own ↦
      subst (In e)
        (sym (
          ap (keep_if is_write) (coherent-own out_tid c x rest own)
          ∙ keep_if-miss is_write (as_access x) (coherent out_tid rest) (as_access_reads x)))
        there
  | inr other ↦ elim (Bool-cases (is_write x)) [
    | inr reads ↦
        subst (In e) (sym (ap (keep_if is_write) (coherent-read out_tid c x rest other reads)))
          there
    | inl writes ↦
        subst (In e)
          (sym (
            ap (keep_if is_write) (coherent-write out_tid c x rest other writes)
            ∙ keep_if-hit is_write x (coherent out_tid rest) writes))
          (inr there)
  ]
]

pub Conflicts-keep_if :
    (out_tid : ℕ) (taken : List (ℕ × TraceEntry)) (e : TraceEntry) (t : ℕ)
    → t ≢ out_tid
    → In e (by_source t taken)
    → is_write e ≡ true
    → In e (keep_if is_write (coherent out_tid taken))
unfolding by_source
Conflicts-keep_if out_tid [] e t ne there writes = absurd there
Conflicts-keep_if out_tid ((c, x) ∷ rest) e t ne there writes = elim (Bool-cases (c == t)) [
  | inr miss ↦
      keep_if-coherent_more out_tid c x e rest
        (Conflicts-keep_if out_tid rest e t ne (rw miss at there) writes)
  | inl hit ↦ elim (first_or_later (rw hit at there)) [
    | inr later ↦
        keep_if-coherent_more out_tid c x e rest
          (Conflicts-keep_if out_tid rest e t ne later writes)
    | inl same ↦
        let other : (c == out_tid) ≡ false = ground arith in
        let writes' : is_write x ≡ true = ap is_write same ∙ writes in
        subst (In e)
          (sym (
            ap (keep_if is_write) (coherent-write out_tid c x rest other writes')
            ∙ keep_if-hit is_write x (coherent out_tid rest) writes'))
          (inl same)
  ]
]
  where
    first_or_later : (x ≡ e) ⊎ In e (by_source t rest) → (x ≡ e) ⊎ In e (by_source t rest)
    first_or_later h = h
