-- ===== src/Trace/Taken.antt =====
-- The order by time of loi/krd_trace.c on traces that each are in order.
use xitao.Prelude.{
  ℕ, zero, suc, ◌-◌, ◌≤◌, ◌<◌, ◌≡◌, ◌≢◌, refl, ◌∙◌, sym, ap, subst, inl, inr, true, false, List,
  ◌∷◌, map, ◌==◌, arith, ℕ_discrete,
}
use xitao.Prelude.Family.{update, update_same, update_other}
use xitao.Prelude.Member.{In}
use xitao.Trace.{TraceEntry}
use xitao.Trace.Tools.{max_tsc}
use xitao.Trace.Schedule.{Distinct, IsTrack, Found, choose_source-Found}
use xitao.Trace.Order.{
  slice, by_source, Ordered, schedule, chosen, next_of, remaining, remaining-less, remaining-some,
  remaining-none,
}

-- No trace is read past its end.
abbrev pub Within : (ℕ → ℕ) → List ℕ → (ℕ → ℕ) → Type 0
Within nums sources index = (t : ℕ) → In t sources → index t ≤ nums t

abbrev pub Tracks : (ℕ → ℕ → TraceEntry) → (ℕ → ℕ) → List ℕ → Type 0
Tracks entries nums sources = (t : ℕ) → In t sources → IsTrack (entries t) (nums t)

abbrev pub entries_taken : List (ℕ × TraceEntry) → List TraceEntry
entries_taken = map (λ (p : ℕ × TraceEntry). p.1)

slice-next :
    (f : ℕ → TraceEntry) (k n : ℕ) → k < n → slice f k (n - k) ≡ f k ∷ slice f (suc k) (n - suc k)
unfolding slice
slice-next f k n below = let e : n - k ≡ suc (n - suc k) = omega arith in rw e refl

module _ (entries : ℕ → ℕ → TraceEntry) (nums : ℕ → ℕ) (sources : List ℕ)
    (tracks : Tracks entries nums sources) (distinct : Distinct sources) where
  -- The trace that a round takes from.
  pub chosen-Found :
      (index : ℕ → ℕ) (t : ℕ)
      → In t sources
      → index t < nums t
      → Found (next_of entries index) sources max_tsc (chosen entries sources index)
  chosen-Found index t there left =
      let (timed, below) = IsTrack.timed (tracks t there) (index t) left in
      choose_source-Found (next_of entries index) sources 0 t there (λ e. omega arith) below

  pub chosen_unfinished :
      (index : ℕ → ℕ) (c : ℕ)
      → Within nums sources index
      → In c sources
      → (entries c (index c)).tsc ≢ 0
      → index c < nums c
  chosen_unfinished index c within there timed = elim (ℕ_discrete (index c) (nums c)) [
    | yes finished ↦
        absurd (timed (ap (λ (k : ℕ). (entries c k).tsc) finished ∙ IsTrack.ended (tracks c there)))
    | no more ↦ let most = within c there in omega arith
  ]

  pub Within-step :
      (index : ℕ → ℕ) (c : ℕ)
      → Within nums sources index
      → index c < nums c
      → Within nums sources (update index c (suc (index c)))
  Within-step index c within left t there = elim (ℕ_discrete c t) [
    | yes same ↦
        let now : update index c (suc (index c)) t ≡ suc (index t) =
          subst (λ (x : ℕ). update index x (suc (index x)) t ≡ suc (index t)) (sym same)
            (update_same index t (suc (index t))) in
        let left' : index t < nums t = subst (λ (x : ℕ). index x < nums x) same left in omega arith
    | no ne ↦
        let other = update_other index c t (suc (index c)) ne in
        let most = within t there in omega arith
  ]

  -- What a round does, while entries are left.
  pub round_lem :
      (rounds : ℕ) (index : ℕ → ℕ)
      → Within nums sources index
      → suc rounds ≡ remaining nums sources index
      → Found (next_of entries index) sources max_tsc (chosen entries sources index)
        × (index (chosen entries sources index) < nums (chosen entries sources index))
        × Within nums sources (
            update index
              (chosen entries sources index)
              (suc (index (chosen entries sources index))))
        × (rounds
            ≡ remaining nums sources (
                update index
                  (chosen entries sources index)
                  (suc (index (chosen entries sources index)))))
  round_lem rounds index within left =
      let (t, there, more) = remaining-some nums sources index (omega arith) in
      let c : ℕ = chosen entries sources index in
      let found = chosen-Found index t there more in
      let unfinished = chosen_unfinished index c within found.0 found.1 in
      let less = remaining-less nums sources index c distinct found.0 unfinished in
      (found, unfinished, Within-step index c within unfinished, omega arith)

  pub schedule-Ordered :
      (rounds : ℕ) (index : ℕ → ℕ) (from : ℕ)
      → Within nums sources index
      → rounds ≡ remaining nums sources index
      → ((t : ℕ) → In t sources → index t < nums t → from ≤ (entries t (index t)).tsc)
      → Ordered from (entries_taken (schedule entries sources rounds index))
  unfolding schedule
  schedule-Ordered zero index from within left low = tt
  schedule-Ordered (suc rounds) index from within left low =
      let (found, unfinished, within', left') = round_lem rounds index within left in
      let c : ℕ = chosen entries sources index in
      (
        low c found.0 unfinished,
        schedule-Ordered rounds (update index c (suc (index c))) (entries c (index c)).tsc within'
            left'
            (λ t there more. elim (ℕ_discrete c t) [
              | yes same ↦
                  subst
                    (λ (x : ℕ).
                      update index c (suc (index c)) x < nums x
                      → (entries c (index c)).tsc
                        ≤ (entries x (update index c (suc (index c)) x)).tsc)
                    same
                    (subst (λ (k : ℕ). k < nums c → (entries c (index c)).tsc ≤ (entries c k).tsc)
                      (sym (update_same index c (suc (index c))))
                      (IsTrack.ordered (tracks c found.0) (index c)))
                    more
              | no ne ↦
                  let other = update_other index c t (suc (index c)) ne in
                  subst (λ (k : ℕ). (entries c (index c)).tsc ≤ (entries t k).tsc) (sym other)
                    (elim (found.3 t there) [
                      | inl none ↦ absurd (IsTrack_timed t there (omega (arith, other)) none)
                      | inr lowest ↦ lowest
                    ])
            ]),
      )
    where
      IsTrack_timed : (t : ℕ) → In t sources → index t < nums t → (entries t (index t)).tsc ≢ 0
      IsTrack_timed t there more e =
          let (timed, below) = IsTrack.timed (tracks t there) (index t) more in omega arith

  pub schedule-by_source :
      (rounds : ℕ) (index : ℕ → ℕ) (t : ℕ)
      → Within nums sources index
      → rounds ≡ remaining nums sources index
      → In t sources
      → by_source t (schedule entries sources rounds index)
        ≡ slice (entries t) (index t) (nums t - index t)
  unfolding schedule by_source slice
  schedule-by_source zero index t within left there =
      let none = remaining-none nums sources index t (sym left) there in rw none refl
  schedule-by_source (suc rounds) index t within left there =
      let (found, unfinished, within', left') = round_lem rounds index within left in
      let c : ℕ = chosen entries sources index in
      let rest = schedule-by_source rounds (update index c (suc (index c))) t within' left' there in
      elim (ℕ_discrete c t) [
        | yes same ↦
            let hit : (c == t) ≡ true = ground arith in
            let index' : ℕ → ℕ = update index c (suc (index c)) in
            let more : List TraceEntry = by_source t (schedule entries sources rounds index') in
            rw hit (
              subst
                (λ (x : ℕ).
                  more ≡ slice (entries x) (index' x) (nums x - index' x)
                  → entries c (index c) ∷ more ≡ slice (entries x) (index x) (nums x - index x))
                same
                (subst
                  (λ (k : ℕ).
                    more ≡ slice (entries c) k (nums c - k)
                    → entries c (index c) ∷ more ≡ slice (entries c) (index c) (nums c - index c))
                  (sym (update_same index c (suc (index c))))
                  (λ e.
                    ap (λ (l : List TraceEntry). entries c (index c) ∷ l) e
                    ∙ sym (slice-next (entries c) (index c) (nums c) unfinished)))
                rest)
        | no ne ↦
            let miss : (c == t) ≡ false = ground arith in
            let other = update_other index c t (suc (index c)) ne in rw miss (rw other at rest)
      ]
