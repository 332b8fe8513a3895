-- ===== src/ParFor/Dynamic.antt =====
-- The dynamic branch of `ParForTask::execute`, under every interleaving of the atomic claims.
use Prim.Native.Nat.{min}
use xitao.Prelude.{
  ◌⊎◌, ℕ, ◌+◌, ◌≤◌, ◌<◌, ◌≡◌, sym, subst, List, [], ◌∷◌, ◌++◌, arith, ltb, Bool, true, false,
  Bool-cases, inl, inr, count, dec_lt,
}
use xitao.Prelude.Int.{ℤ, pos, pos_part, ◌+ℤ◌, ◌-ℤ◌}
use xitao.Prelude.Family.{update}
use xitao.ParFor.{
  ParForTask, Call, make_task, iterations, dynamic_call, Team, team, claim, run_dynamic,
}
use xitao.Prelude.Result.{ok}
use xitao.ParFor.Made.{make_task-inv, dynamic-IsBlocked, IsBlocked}
use xitao.ParFor.Span.{span}
use xitao.ParFor.Blocks.{offset}

-- The team with the counter at `n`.
abbrev at : ParForTask → ℕ → (ℕ → Bool) → List Call → Team
at p n left calls = record { task = record p { next_block = n }; left = left; calls = calls }

module _ (p : ParForTask) (n u : ℕ) (left : ℕ → Bool) (calls : List Call) where
  claim-gone : left u ≡ true → claim (at p n left calls) u ≡ at p n left calls
  unfolding claim
  claim-gone gone = rw gone

  claim-more :
      left u ≡ false
      → n < p.blocks
      → claim (at p n left calls) u ≡ at p (n + 1) left (calls ++ dynamic_call p n u ∷ [])
  unfolding claim dynamic_call
  claim-more here below = let more : ltb n p.blocks ≡ true = ground arith in rw (here, more)

  claim-over :
      left u ≡ false
      → p.blocks ≤ n
      → claim (at p n left calls) u ≡ at p (n + 1) (update left u true) calls
  unfolding claim
  claim-over here above = let over : ltb n p.blocks ≡ false = ground arith in rw (here, over)

module _ (p : ParForTask) (b : IsBlocked p) (ends : p.end ≡ p.start +ℤ pos p.size) where
  -- The blocks below the counter have been run.
  abbrev Covered : ℕ → List Call → Type 0
  Covered n calls = iterations calls ≡ span p.start (offset p.blocks p.block_size p.size n)

  -- Once a thread has left the loop, the whole range has been run.
  abbrev Visits : Team → Type 0
  Visits s = (t : ℕ) → s.left t ≡ true → iterations s.calls ≡ span p.start p.size

module _ (p : ParForTask) where
  -- A thread with more turns than there are blocks left gets past its loop.
  run-left :
      (schedule : List ℕ) (n t : ℕ) (left : ℕ → Bool) (calls : List Call)
      → (left t ≡ true) ⊎ (p.blocks < min n p.blocks + count t schedule)
      → (run_dynamic (at p n left calls) schedule).left t ≡ true
  unfolding run_dynamic
  run-left [] n t left calls h = ground arith
  run-left (u ∷ schedule) n t left calls h = elim (Bool-cases (left u)) [
    | inl gone ↦
        subst (λ (s : Team). (run_dynamic s schedule).left t ≡ true)
          (sym (claim-gone p n u left calls gone)) (run-left schedule n t left calls (ground arith))
    | inr here ↦ elim (dec_lt n p.blocks) [
      | yes more ↦
          subst (λ (s : Team). (run_dynamic s schedule).left t ≡ true)
            (sym (claim-more p n u left calls here more))
            (run-left schedule (n + 1) t left (calls ++ dynamic_call p n u ∷ []) (ground arith))
      | no over ↦
          subst (λ (s : Team). (run_dynamic s schedule).left t ≡ true)
            (sym (claim-over p n u left calls here (omega arith)))
            (run-left schedule (n + 1) t (update left u true) calls (ground arith))
    ]
  ]

-- In the run of a dynamic loop task that the constructor accepts, a thread that has more turns
-- than there are blocks has left its loop, whatever the other threads do.
pub dynamic-terminates :
    (start end : ℤ) (width : ℕ) (p : ParForTask) (schedule : List ℕ) (t : ℕ)
    → make_task (pos 1) start end width ≡ ok p
    → p.blocks < count t schedule
    → (run_dynamic (team p) schedule).left t ≡ true
dynamic-terminates start end width p schedule t e turns =
    let (_, _, made, some) = make_task-inv (pos 1) start end width p e in
    let b = dynamic-IsBlocked start end width (pos_part (end -ℤ start)) p some made in
    run-left p schedule p.next_block t (λ _. false) [] (inr (omega (arith, b.fresh)))
