-- ===== src/LfQueue/Fifo.antt =====
-- The calls of the queue of include/lfq-fifo.h beside the same calls on a list, and its destructor.
use xitao.Prelude.{
  ℕ, suc, ◌+◌, ◌≤◌, ◌<◌, ◌≡◌, ◌≢◌, refl, dec_lt, ◌∙◌, subst, Bool, List, [], ◌∷◌, ◌++◌, Option,
  none, some, arith, length, ℕ_discrete,
}
use xitao.Prelude.Family.{update, update_same, update_other}
use xitao.Prelude.Result.{Result, ok, ◌>>=◌}
use xitao.LfQueue.{LfqNode, LfQueue, Fault, destroy, front, is_empty, pop, pop_front, push_back}
use xitao.LfQueue.Chain.{IsChain, Holds, deref-eq, IsChain-agree}
use xitao.LfQueue.Operations.{
  push_back-Holds, pop_front-none, pop_front-some, pop-none, pop-some, front-Holds, is_empty-Holds,
  first_of, none_in,
}

-- The calls of the queue, and what they answer.
pub data Op (T : Type 0) : Type 0 where
  pushes : T → Op T
  drops takes looks asks : Op T

pub data Answer (T : Type 0) : Type 0 where
  nothing : Answer T
  taken : Option T → Answer T
  seen : T → Answer T
  emptiness : Bool → Answer T

module _ {T : Type 0} (nullptr : T) where
  unfoldable pub run_op : Op T → LfQueue T → Result Fault (LfQueue T × Answer T)
  run_op (pushes t) s = push_back nullptr t s >>= λ s'. ok (s', nothing)
  run_op drops s = pop nullptr s >>= λ s'. ok (s', nothing)
  run_op takes s = pop_front nullptr s >>= λ (s', value). ok (s', taken value)
  run_op looks s = front nullptr s >>= λ value. ok (s, seen value)
  run_op asks s = is_empty nullptr s >>= λ b. ok (s, emptiness b)

  -- The same calls on a list.
  unfoldable pub list_op : Op T → List T → List T × Answer T
  list_op (pushes t) xs = (xs ++ t ∷ [], nothing)
  list_op drops [] = ([], nothing)
  list_op drops (x ∷ xs) = (xs, nothing)
  list_op takes [] = ([], taken none)
  list_op takes (x ∷ xs) = (xs, taken (some x))
  list_op looks xs = (xs, seen (first_of nullptr xs))
  list_op asks xs = (xs, emptiness (none_in nullptr xs))

  unfoldable pub run_ops : List (Op T) → LfQueue T → Result Fault (LfQueue T × List (Answer T))
  run_ops [] s = ok (s, [])
  run_ops (op ∷ ops) s = run_op op s >>= λ (s', answer).
      run_ops ops s' >>= λ (s'', answers). ok (s'', answer ∷ answers)

  unfoldable pub list_ops : List (Op T) → List T → List T × List (Answer T)
  list_ops [] xs = (xs, [])
  list_ops (op ∷ ops) xs =
      let (ys, answer) = list_op op xs in
      let (zs, answers) = list_ops ops ys in (zs, answer ∷ answers)

  run_op-refines :
      (op : Op T) (s : LfQueue T) (xs : List T)
      → Holds nullptr s xs
      → (s' : LfQueue T) × (run_op op s ≡ ok (s', (list_op op xs).1))
        × Holds nullptr s' (list_op op xs).0
  unfolding run_op list_op
  run_op-refines (pushes t) s xs h =
      let (s', runs, h') = push_back-Holds nullptr t s xs h in (s', rw runs refl, h')
  run_op-refines drops s [] h = (s, rw (pop-none nullptr s h) refl, h)
  run_op-refines drops s (x ∷ xs) h =
      let (s', runs, h') = pop-some nullptr x s xs h in (s', rw runs refl, h')
  run_op-refines takes s [] h = (s, rw (pop_front-none nullptr s h) refl, h)
  run_op-refines takes s (x ∷ xs) h =
      let (s', runs, h') = pop_front-some nullptr x s xs h in (s', rw runs refl, h')
  run_op-refines looks s xs h = (s, rw (front-Holds nullptr s xs h) refl, h)
  run_op-refines asks s xs h = (s, rw (is_empty-Holds nullptr s xs h) refl, h)

  -- Any sequence of calls on a linked queue that holds a list runs without a use of a freed node,
  -- gives the answers that the list gives, and leaves a queue that holds what is left of the
  -- list.
  pub run_ops-refines :
      (ops : List (Op T)) (s : LfQueue T) (xs : List T)
      → Holds nullptr s xs
      → (s' : LfQueue T) × (run_ops ops s ≡ ok (s', (list_ops ops xs).1))
        × Holds nullptr s' (list_ops ops xs).0
  unfolding run_ops list_ops
  run_ops-refines [] s xs h = (s, refl, h)
  run_ops-refines (op ∷ ops) s xs h =
      let (s', first, h') = run_op-refines op s xs h in
      let (s'', later, h'') = run_ops-refines ops s' (list_op op xs).0 h' in
      (s'', rw (first, later) refl, h'')

  freed_at :
      (rows : ℕ → Option (LfqNode T)) (b a : ℕ)
      → (b ≢ a → rows a ≡ none)
      → update rows b none a ≡ none
  freed_at rows b a other = elim (ℕ_discrete b a) [
    | yes here ↦ subst (λ (c : ℕ). update rows b none c ≡ none) here (update_same rows b none)
    | no elsewhere ↦ update_other rows b a none elsewhere ∙ other elsewhere
  ]

  around :
      (rows : ℕ → Option (LfqNode T)) (p a : ℕ)
      → (a < p → rows a ≡ none)
      → (suc (p + 0) ≤ a → rows a ≡ none)
      → p ≢ a
      → rows a ≡ none
  around rows p a low high ne = elim (dec_lt a p) [
    | yes below ↦ low below
    | no above ↦ high (omega arith)
  ]

  destroy-chain :
      (nodes : ℕ → Option (LfqNode T)) (p : ℕ) (v : T) (xs : List T)
      → IsChain nodes p v xs
      → ((a : ℕ) → a < p → nodes a ≡ none)
      → ((a : ℕ) → suc (p + length xs) ≤ a → nodes a ≡ none)
      → (left : ℕ → Option (LfqNode T)) × (destroy nullptr (suc (length xs)) (some p) nodes
          ≡ ok left)
        × ((a : ℕ) → left a ≡ none)
  unfolding destroy
  destroy-chain nodes p v [] chain low high = (
    update nodes p none,
    rw (deref-eq nullptr nodes p _ chain) refl,
    λ a. freed_at nodes p a (λ ne. around nodes p a (low a) (high a) ne),
  )
  destroy-chain nodes p v (x ∷ xs) (here, chain) low high =
      let (left, runs, gone) =
        destroy-chain (update nodes p none) (suc p) x xs
          (IsChain-agree nodes (update nodes p none) (suc p) x xs
            (λ a lo hi. update_other nodes p a none (λ e. omega arith)) chain)
          (λ a below. freed_at nodes p a (λ ne. low a (omega arith)))
          (λ a above. freed_at nodes p a (λ ne. high a (omega arith))) in
      (left, rw (deref-eq nullptr nodes p _ here) runs, gone)

  -- The destructor of a linked queue that holds a list frees every node, in as many rounds as
  -- there are values and one more.
  pub destroy-frees :
      (s : LfQueue T) (xs : List T)
      → Holds nullptr s xs
      → (left : ℕ → Option (LfqNode T)) × (destroy nullptr (suc (length xs)) (some s.first) s.nodes
          ≡ ok left)
        × ((a : ℕ) → left a ≡ none)
  destroy-frees s xs h =
      destroy-chain s.nodes s.first nullptr xs h.chain h.freed
        (λ a high. h.unused a (omega (arith, h.ends, h.fresh)))
