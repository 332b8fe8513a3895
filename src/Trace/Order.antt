-- ===== src/Trace/Order.antt =====
-- The entries of several traces in the order in which the tools of loi/krd_trace.c take them: by
-- time, and each trace whole and in its own order.
use xitao.Prelude.{
  ℕ, zero, suc, ◌+◌, ◌-◌, ◌≤◌, ◌<◌, ◌≡◌, ◌≢◌, refl, sym, ap, subst, inl, inr, List, [], ◌∷◌, ◌==◌,
  arith, if◌then◌else◌, dec_lt,
}
use xitao.Prelude.Family.{update, update_same, update_other}
use xitao.Prelude.Member.{In}
use xitao.Trace.{TraceEntry}
use xitao.Trace.Tools.{choose_source, max_tsc}
use xitao.Trace.Schedule.{Distinct}

-- The entries from `k` on.
unfoldable pub slice {ℓ} : {A : Type ℓ} → (ℕ → A) → ℕ → ℕ → List A
slice f k zero = []
slice f k (suc n) = f k ∷ slice f (suc k) n

-- What was taken from one trace.
unfoldable pub by_source : ℕ → List (ℕ × TraceEntry) → List TraceEntry
by_source t [] = []
by_source t ((source, e) ∷ rest) =
    let more = by_source t rest in if source == t then e ∷ more else more

-- The times do not decrease, and none is before `from`.
abbrev pub Ordered : ℕ → List TraceEntry → Type 0
Ordered from [] = Unit
Ordered from (e ∷ rest) = (from ≤ e.tsc) × Ordered e.tsc rest

module _ (entries : ℕ → ℕ → TraceEntry) where
  abbrev pub next_of : (ℕ → ℕ) → ℕ → TraceEntry
  next_of index t = entries t (index t)

  abbrev pub chosen : List ℕ → (ℕ → ℕ) → ℕ
  chosen sources index = choose_source (next_of index) sources 0 max_tsc

  unfoldable pub schedule : List ℕ → ℕ → (ℕ → ℕ) → List (ℕ × TraceEntry)
  schedule sources zero index = []
  schedule sources (suc rounds) index =
      let c = chosen sources index in
      (c, entries c (index c)) ∷ schedule sources rounds (update index c (suc (index c)))

-- The entries that are left.
unfoldable pub remaining : (ℕ → ℕ) → List ℕ → (ℕ → ℕ) → ℕ
remaining nums [] index = 0
remaining nums (t ∷ rest) index = nums t - index t + remaining nums rest index

remaining-same :
    (nums : ℕ → ℕ) (sources : List ℕ) (index : ℕ → ℕ) (c : ℕ)
    → (In c sources → ⊥)
    → remaining nums sources (update index c (suc (index c))) ≡ remaining nums sources index
unfolding remaining
remaining-same nums [] index c out = refl
remaining-same nums (t ∷ rest) index c out =
    let other = update_other index c t (suc (index c)) (λ e. out (inl (sym e))) in
    let rest_same = remaining-same nums rest index c (λ there. out (inr there)) in
    omega (arith, other, rest_same, ap (λ (i : ℕ). nums t - i) other)

pub remaining-less :
    (nums : ℕ → ℕ) (sources : List ℕ) (index : ℕ → ℕ) (c : ℕ)
    → Distinct sources
    → In c sources
    → index c < nums c
    → remaining nums sources index ≡ suc (remaining nums sources (update index c (suc (index c))))
unfolding remaining
remaining-less nums [] index c distinct there left = absurd there
remaining-less nums (t ∷ rest) index c distinct (inl here) left =
    let left' : index t < nums t = subst (λ (x : ℕ). index x < nums x) (sym here) left in
    let now : update index c (suc (index c)) t ≡ suc (index t) =
      subst (λ (x : ℕ). update index x (suc (index x)) t ≡ suc (index t)) here
        (update_same index t (suc (index t))) in
    let same =
      remaining-same nums rest index c
        (λ there. distinct.0 (subst (λ (x : ℕ). In x rest) (sym here) there)) in
    omega (arith, now, same, left', ap (λ (i : ℕ). nums t - i) now)
remaining-less nums (t ∷ rest) index c distinct (inr there) left =
    let ne : c ≢ t = λ e. distinct.0 (subst (λ (x : ℕ). In x rest) e there) in
    let other = update_other index c t (suc (index c)) ne in
    let less = remaining-less nums rest index c distinct.1 there left in
    omega (arith, other, less, ap (λ (i : ℕ). nums t - i) other)

pub remaining-some :
    (nums : ℕ → ℕ) (sources : List ℕ) (index : ℕ → ℕ)
    → 0 < remaining nums sources index
    → (t : ℕ) × In t sources × (index t < nums t)
unfolding remaining
remaining-some nums [] index left = absurd (omega arith)
remaining-some nums (t ∷ rest) index left = elim (dec_lt (index t) (nums t)) [
  | yes here ↦ (t, inl refl, here)
  | no later ↦
      let (t', there, more) = remaining-some nums rest index (omega arith) in (t', inr there, more)
]

pub remaining-none :
    (nums : ℕ → ℕ) (sources : List ℕ) (index : ℕ → ℕ) (t : ℕ)
    → remaining nums sources index ≡ 0
    → In t sources
    → nums t - index t ≡ 0
unfolding remaining
remaining-none nums [] index t none there = absurd there
remaining-none nums (x ∷ rest) index t none (inl here) =
    subst (λ (y : ℕ). nums y - index y ≡ 0) here (omega arith)
remaining-none nums (x ∷ rest) index t none (inr there) =
    remaining-none nums rest index t (omega arith) there
