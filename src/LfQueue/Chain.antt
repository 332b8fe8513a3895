-- ===== src/LfQueue/Chain.antt =====
-- The linked list as a chain of nodes.
use xitao.Prelude.{
  ℕ, suc, ◌+◌, ◌≤◌, ◌<◌, ◌≡◌, refl, sym, ap, ◌∙◌, subst, List, [], ◌∷◌, ◌++◌, Option, none, some,
  arith, length,
}
use xitao.Prelude.Family.{update, update_same, update_other}
use xitao.Prelude.Result.{Result, ok, exit}
use xitao.LfQueue.{LfqNode, LfQueue, Fault, deref, use_after_free}

module _ {T : Type 0} where
  -- From node `p` with value `v` on, one node after the other holds the values `xs`.
  abbrev pub IsChain : (ℕ → Option (LfqNode T)) → ℕ → T → List T → Type 0
  IsChain nodes p v [] = nodes p ≡ some (record { value = v; next = none })
  IsChain nodes p v (x ∷ xs) =
      (nodes p ≡ some (record { value = v; next = some (suc p) })) × IsChain nodes (suc p) x xs

  -- The queue holds `xs`: behind a node without a value, with no other node allocated.
  pub record Holds (nullptr : T) (s : LfQueue T) (xs : List T) : Type 0 where
    pub chain : IsChain s.nodes s.first nullptr xs
    pub ends : s.last ≡ s.first + length xs
    pub fresh : s.allocated ≡ suc s.last
    pub freed : (a : ℕ) → a < s.first → s.nodes a ≡ none
    pub unused : (a : ℕ) → s.allocated ≤ a → s.nodes a ≡ none

  pub deref-eq :
      (nullptr : T) (nodes : ℕ → Option (LfqNode T)) (p : ℕ) (n : LfqNode T)
      → nodes p ≡ some n
      → deref nullptr nodes p ≡ ok n
  unfolding deref
  deref-eq nullptr nodes p n e =
      ap
        (λ (o : Option (LfqNode T)). elim o as (λ _. Result Fault (LfqNode T)) [
          | none ↦ exit use_after_free
          | some m ↦ ok m
        ])
        e

  -- A chain does not depend on nodes outside it.
  pub IsChain-agree :
      (nodes nodes' : ℕ → Option (LfqNode T)) (p : ℕ) (v : T) (xs : List T)
      → ((a : ℕ) → p ≤ a → a < suc (p + length xs) → nodes' a ≡ nodes a)
      → IsChain nodes p v xs
      → IsChain nodes' p v xs
  IsChain-agree nodes nodes' p v [] same chain = same p (omega arith) (omega arith) ∙ chain
  IsChain-agree nodes nodes' p v (x ∷ xs) same (here, chain) = (
    same p (omega arith) (omega arith) ∙ here,
    IsChain-agree nodes nodes' (suc p) x xs (λ a lo hi. same a (omega arith) (omega arith)) chain,
  )

  -- The value of the first node may be replaced.
  pub IsChain-reset :
      (nodes : ℕ → Option (LfqNode T)) (p : ℕ) (v v' : T) (xs : List T)
      → IsChain nodes p v xs
      → (n : LfqNode T) × (nodes p ≡ some n)
        × (n.value ≡ v)
        × IsChain (update nodes p (some (record n { value = v' }))) p v' xs
  IsChain-reset nodes p v v' [] chain = (_, chain, refl, update_same nodes p _)
  IsChain-reset nodes p v v' (x ∷ xs) (here, chain) = (
    _,
    here,
    refl,
    (
      update_same nodes p _,
      IsChain-agree nodes _ (suc p) x xs (λ a lo hi. update_other nodes p a _ (λ e. omega arith))
          chain,
    ),
  )

  -- The heap after `new LFQNode(t)` at `a`.
  abbrev pub with_node : (ℕ → Option (LfqNode T)) → ℕ → T → ℕ → Option (LfqNode T)
  with_node nodes a t = update nodes a (some (record { value = t; next = none }))

  -- One more node behind the last.
  pub IsChain-push :
      (nodes : ℕ → Option (LfqNode T)) (p e : ℕ) (v t : T) (xs : List T)
      → e ≡ p + length xs
      → IsChain nodes p v xs
      → (n : LfqNode T) × (nodes e ≡ some n)
        × IsChain
            (update
              (update nodes (suc e) (some (record { value = t; next = none })))
              e
              (some (record n { next = some (suc e) })))
            p
            v
            (xs ++ t ∷ [])
  IsChain-push nodes p e v t [] at chain =
      let here : e ≡ p = omega arith in
      subst
        (λ (q : ℕ).
          (n : LfqNode T) × (nodes q ≡ some n)
          × IsChain
              (update (update nodes (suc q) (some (record { value = t; next = none }))) q
                (some (record n { next = some (suc q) })))
              p v (t ∷ []))
        (sym here)
        (
          _,
          chain,
          (
            update_same (with_node nodes (suc p) t) p _,
            update_other (with_node nodes (suc p) t) p (suc p) _ (λ f. omega arith)
                ∙ update_same nodes (suc p) _,
          ),
        )
  IsChain-push nodes p e v t (x ∷ xs) at (here, chain) =
      let (n, last, longer) = IsChain-push nodes (suc p) e x t xs (omega arith) chain in
      (
        n,
        last,
        (
          update_other (with_node nodes (suc e) t) e p _ (λ f. omega arith)
              ∙ update_other nodes (suc e) p (some (record { value = t; next = none }))
                  (λ f. omega arith)
              ∙ here,
          longer,
        ),
      )
