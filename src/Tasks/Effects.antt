-- ===== src/Tasks/Effects.antt =====
-- What the loop of `commit_and_wakeup` (src/poly_task.cpp) changes in the state.
use xitao.Prelude.{
  ℕ, suc, ◌+◌, ◌-◌, ◌≤◌, ◌≡◌, refl, subst, ap, ◌∙◌, true, false, ◌&&◌, List, [], ◌∷◌, ◌++◌, ltb,
  ◌==◌, if◌then◌else◌, arith, Bool-cases, ℕ_discrete, count, count-append, inl, inr, ◌≢◌,
}
use xitao.Prelude.Int.{ℤ, pos, eqb_ℤ, ◌-ℤ◌, int_laws}
use xitao.Prelude.Family.{update, update_same, update_other}
use xitao.Prelude.Result.{ok, >>=-eq-ok}
use xitao.Tasks.{Runtime, Settings, wake, wake_all}
use xitao.Tasks.Rounds.{IsUntouched, IsUntouched-trans, ok-injective, same, wake-IsWoken}

-- How often `k` decrements of a count of `r`, at most as many, find it to be 1.
abbrev pub hits : ℕ → ℕ → ℕ
hits r k = if ltb 0 k && (k == r) then 1 else 0

-- What `wake_all` over `its` does to task `t`, whose count of `r` covers its edges in `its`.
pub record IsNotified (t r k : ℕ) (s s' : Runtime) : Type 0 where
  pub counted : s'.refcount t ≡ pos (r - k)
  pub logged : count t s'.woken ≡ count t s.woken + hits r k

-- One round of the loop of `commit_and_wakeup`.
record IsRound (it : ℕ) (s s' : Runtime) : Type 0 where
  rest : IsUntouched s s'
  refcounts : s'.refcount ≡ update s.refcount it (s.refcount it -ℤ pos 1)
  log : s'.woken ≡ (if eqb_ℤ (s.refcount it) (pos 1) then s.woken ++ it ∷ [] else s.woken)

abbrev decrement : ℕ → Runtime → Runtime
decrement it s = record s { refcount = update s.refcount it (s.refcount it -ℤ pos 1) }

decrement-IsRound :
    (c : Settings) (nthread it : ℕ) (s s' : Runtime)
    → (if eqb_ℤ (s.refcount it) (pos 1)
        then wake c nthread it (decrement it s)
        else ok (decrement it s))
      ≡ ok s'
    → IsRound it s s'
decrement-IsRound c nthread it s s' e = elim (Bool-cases (eqb_ℤ (s.refcount it) (pos 1))) [
  | inl last ↦
      let w = wake-IsWoken c nthread it (decrement it s) s' (rw last at e) in
      record {
        rest = IsUntouched-trans s (decrement it s) s' decremented w.rest;
        refcounts = w.refcounts;
        log = rw last w.log;
      }
  | inr more ↦
      subst (IsRound it s) (ok-injective (rw more at e))
        (record { rest = decremented; refcounts = refl; log = rw more refl })
]
  where
    decremented : IsUntouched s (decrement it s)
    decremented = record {
      sizes = refl;
      outs = refl;
      commits = refl;
      pendings = refl;
      pools = refl;
      completions = refl;
    }

IsRound-other :
    (t r it : ℕ) (s s' : Runtime)
    → it ≢ t
    → s.refcount t ≡ pos r
    → IsRound it s s'
    → (s'.refcount t ≡ pos r) × (count t s'.woken ≡ count t s.woken)
IsRound-other t r it s s' ne counts round =
    let miss : (it == t) ≡ false = ground arith in
    let refs : s'.refcount t ≡ s.refcount t =
      ap (λ (f : ℕ → ℤ). f t) round.refcounts ∙ update_other s.refcount it t _ ne in
    (
      refs ∙ counts,
      elim (Bool-cases (eqb_ℤ (s.refcount it) (pos 1))) [
        | inl last ↦
            let log : s'.woken ≡ s.woken ++ it ∷ [] = rw last at round.log in
            rw log (count-append t s.woken (it ∷ []) ∙ rw miss (omega arith))
        | inr more ↦ let log : s'.woken ≡ s.woken = rw more at round.log in ap (count t) log
      ],
    )

IsRound-same :
    (t r : ℕ) (s s' : Runtime)
    → s.refcount t ≡ pos (suc r)
    → IsRound t s s'
    → (s'.refcount t ≡ pos r) × (count t s'.woken ≡ count t s.woken + (if r == 0 then 1 else 0))
IsRound-same t r s s' counts round =
    let hit : (t == t) ≡ true = ground arith in
    let refs : s'.refcount t ≡ s.refcount t -ℤ pos 1 =
      ap (λ (f : ℕ → ℤ). f t) round.refcounts ∙ update_same s.refcount t _ in
    let less : pos (suc r) -ℤ pos 1 ≡ pos r = omega int_laws in
    (
      refs ∙ ap (λ (n : ℤ). n -ℤ pos 1) counts ∙ less,
      elim (ℕ_discrete r 0) [
        | yes none_left ↦
            let last : eqb_ℤ (s.refcount t) (pos 1) ≡ true = rw counts (ground arith) in
            let zero_left : (r == 0) ≡ true = ground arith in
            let log : s'.woken ≡ s.woken ++ t ∷ [] = rw last at round.log in
            rw (log, zero_left) (count-append t s.woken (t ∷ []) ∙ rw hit (omega arith))
        | no some_left ↦
            let more : eqb_ℤ (s.refcount t) (pos 1) ≡ false = rw counts (ground arith) in
            let not_zero : (r == 0) ≡ false = ground arith in
            let log : s'.woken ≡ s.woken = rw more at round.log in
            rw not_zero (ap (count t) log ∙ omega arith)
      ],
    )

pub wake_all-IsUntouched :
    (c : Settings) (nthread : ℕ) (its : List ℕ) (s s' : Runtime)
    → wake_all c nthread its s ≡ ok s'
    → IsUntouched s s'
unfolding wake_all
wake_all-IsUntouched c nthread [] s s' e = subst (IsUntouched s) (ok-injective e) (same s)
wake_all-IsUntouched c nthread (it ∷ its) s s' e =
    let (between, first, later) = >>=-eq-ok _ (wake_all c nthread its) e in
    IsUntouched-trans s between s' (decrement-IsRound c nthread it s between first).rest
      (wake_all-IsUntouched c nthread its between s' later)

hits-suc :
    (n r k : ℕ)
    → suc k ≤ r
    → n + (if r - 1 == 0 then 1 else 0) + hits (r - 1) k ≡ n + hits r (suc k)
hits-suc n r k few = ground arith

pub wake_all-IsNotified :
    (c : Settings) (nthread t r : ℕ) (its : List ℕ) (s s' : Runtime)
    → s.refcount t ≡ pos r
    → count t its ≤ r
    → wake_all c nthread its s ≡ ok s'
    → IsNotified t r (count t its) s s'
unfolding wake_all
wake_all-IsNotified c nthread t r [] s s' counts few e =
    subst (IsNotified t r 0 s) (ok-injective e)
      (record { counted = counts ∙ ap pos (omega arith); logged = ground arith })
wake_all-IsNotified c nthread t r (it ∷ its) s s' counts few e =
    let (between, first, later) = >>=-eq-ok _ (wake_all c nthread its) e in
    let round = decrement-IsRound c nthread it s between first in
    elim (ℕ_discrete it t) [
      | no ne ↦
          let (counts', log) = IsRound-other t r it s between ne counts round in
          let miss : (it == t) ≡ false = ground arith in
          let next =
            wake_all-IsNotified c nthread t r its between s' counts' (rw miss at few) later in
          rw miss (record {
            counted = next.counted;
            logged = next.logged ∙ ap (λ (n : ℕ). n + hits r (count t its)) log;
          })
      | yes eq ↦
          let hit : (it == t) ≡ true = ground arith in
          let some_left : suc (count t its) ≤ r = rw hit at few in
          let back : r ≡ suc (r - 1) = omega arith in
          let (counts', log) =
            IsRound-same t (r - 1) s between (counts ∙ ap pos back)
              (subst (λ (u : ℕ). IsRound u s between) eq round) in
          let next =
            wake_all-IsNotified c nthread t (r - 1) its between s' counts' (omega arith) later in
          rw hit (record {
            counted = next.counted ∙ ap pos (omega arith);
            logged =
                next.logged
                ∙ ap (λ (n : ℕ). n + hits (r - 1) (count t its)) log
                ∙ hits-suc (count t s.woken) r (count t its) some_left;
          })
    ]
