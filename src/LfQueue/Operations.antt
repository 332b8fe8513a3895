-- ===== src/LfQueue/Operations.antt =====
-- Each operation of the queue of include/lfq-fifo.h, on the list that it holds.
use xitao.Prelude.{
  ℕ, suc, ◌≡◌, ◌≢◌, refl, sym, ◌∙◌, subst, Bool, true, false, List, [], ◌∷◌, ◌++◌, none, some,
  arith, length-append, ℕ_discrete,
}
use xitao.Prelude.Family.{update, update_same, update_other}
use xitao.Prelude.Result.{ok}
use xitao.LfQueue.{LfqNode, LfQueue, new_queue, front, is_empty, pop, pop_front, push_back}
use xitao.LfQueue.Chain.{
  IsChain, Holds, deref-eq, IsChain-agree, IsChain-reset, IsChain-push, with_node,
}

module _ {T : Type 0} (nullptr : T) where
  pub new_queue-Holds : Holds nullptr (new_queue nullptr) []
  unfolding new_queue
  new_queue-Holds = record {
    chain = refl;
    ends = refl;
    fresh = refl;
    freed = λ a low. absurd (omega arith);
    unused = λ a high. update_other (λ _. none) 0 a _ (λ e. omega arith);
  }

  abbrev pushed : T → LfqNode T → LfQueue T → LfQueue T
  pushed t n s = record {
    nodes =
        update (with_node s.nodes s.allocated t) s.last
          (some (record n { next = some s.allocated }));
    allocated = suc s.allocated;
    first = s.first;
    last = s.allocated;
  }

  -- Pushing a value onto a queue that holds `xs` gives one that holds `xs` and the value behind.
  pub push_back-Holds :
      (t : T) (s : LfQueue T) (xs : List T)
      → Holds nullptr s xs
      → (s' : LfQueue T) × (push_back nullptr t s ≡ ok s') × Holds nullptr s' (xs ++ t ∷ [])
  unfolding push_back
  push_back-Holds t s xs h =
      let (n, last, longer) = IsChain-push s.nodes s.first s.last nullptr t xs h.ends h.chain in
      let found : with_node s.nodes s.allocated t s.last ≡ some n =
        update_other s.nodes s.allocated s.last (some (record { value = t; next = none }))
          (λ e. omega (arith, h.fresh))
        ∙ last in
      let outside : (a : ℕ) → a ≢ s.last → a ≢ s.allocated → (pushed t n s).nodes a ≡ s.nodes a =
        λ a not_last not_new.
          update_other (with_node s.nodes s.allocated t) s.last a
            (some (record n { next = some s.allocated })) (λ e. not_last (sym e))
          ∙ update_other s.nodes s.allocated a (some (record { value = t; next = none }))
              (λ e. not_new (sym e)) in
      (
        pushed t n s,
        rw (deref-eq nullptr (with_node s.nodes s.allocated t) s.last n found) refl,
        record {
          chain =
              subst
                (λ (b : ℕ).
                  IsChain
                    (update (with_node s.nodes b t) s.last (some (record n { next = some b })))
                    s.first nullptr (xs ++ t ∷ []))
                (sym h.fresh) longer;
          ends = omega (arith, h.fresh, h.ends, length-append xs (t ∷ []));
          fresh = refl;
          freed = λ a low.
              outside a (λ e. omega (arith, h.ends)) (λ e. omega (arith, h.ends, h.fresh))
              ∙ h.freed a low;
          unused = λ a high.
              outside a (λ e. omega (arith, h.fresh)) (λ e. omega arith) ∙ h.unused a (omega arith);
        },
      )

  pub pop_front-none : (s : LfQueue T) → Holds nullptr s [] → pop_front nullptr s ≡ ok (s, none)
  unfolding pop_front
  pop_front-none s h = rw (deref-eq nullptr s.nodes s.first _ h.chain) refl

  abbrev popped : LfqNode T → LfQueue T → LfQueue T
  popped m s = record s {
    nodes =
        update (update s.nodes (suc s.first) (some (record m { value = nullptr }))) s.first none;
    first = suc s.first;
  }

  -- The node behind the first one, and what is left when the first one is freed.
  popped-Holds :
      (x : T) (s : LfQueue T) (xs : List T)
      → Holds nullptr s (x ∷ xs)
      → (m : LfqNode T) × (s.nodes (suc s.first) ≡ some m)
        × (m.value ≡ x)
        × Holds nullptr (popped m s) xs
  popped-Holds x s xs h =
      let (m, found, value, chain) = IsChain-reset s.nodes (suc s.first) x nullptr xs h.chain.1 in
      let reset = update s.nodes (suc s.first) (some (record m { value = nullptr })) in
      (
        m,
        found,
        value,
        record {
          chain =
              IsChain-agree reset (update reset s.first none) (suc s.first) nullptr xs
                (λ a lo hi. update_other reset s.first a none (λ e. omega arith)) chain;
          ends = omega (arith, h.ends);
          fresh = h.fresh;
          freed = λ a low. elim (ℕ_discrete s.first a) [
            | yes here ↦
                subst (λ (b : ℕ). update reset s.first none b ≡ none) here
                  (update_same reset s.first none)
            | no elsewhere ↦
                update_other reset s.first a none elsewhere
                ∙ update_other s.nodes (suc s.first) a (some (record m { value = nullptr }))
                    (λ e. omega arith)
                ∙ h.freed a (omega arith)
          ];
          unused = λ a high.
              update_other reset s.first a none (λ e. omega (arith, h.ends, h.fresh))
              ∙ update_other s.nodes (suc s.first) a (some (record m { value = nullptr }))
                  (λ e. omega (arith, h.ends, h.fresh))
              ∙ h.unused a high;
        },
      )

  pub pop_front-some :
      (x : T) (s : LfQueue T) (xs : List T)
      → Holds nullptr s (x ∷ xs)
      → (s' : LfQueue T) × (pop_front nullptr s ≡ ok (s', some x)) × Holds nullptr s' xs
  unfolding pop_front
  pop_front-some x s xs h =
      let (m, found, value, rest) = popped-Holds x s xs h in
      (
        popped m s,
        rw
            (
              deref-eq nullptr s.nodes s.first _ h.chain.0,
              deref-eq nullptr s.nodes (suc s.first) m found,
              value,
            )
            refl,
        rest,
      )

  pub pop-some :
      (x : T) (s : LfQueue T) (xs : List T)
      → Holds nullptr s (x ∷ xs)
      → (s' : LfQueue T) × (pop nullptr s ≡ ok s') × Holds nullptr s' xs
  unfolding pop
  pop-some x s xs h =
      let (m, found, value, rest) = popped-Holds x s xs h in
      (
        popped m s,
        rw
            (
              deref-eq nullptr s.nodes s.first _ h.chain.0,
              deref-eq nullptr s.nodes (suc s.first) m found,
            )
            refl,
        rest,
      )

  pub pop-none : (s : LfQueue T) → Holds nullptr s [] → pop nullptr s ≡ ok s
  unfolding pop
  pop-none s h = rw (deref-eq nullptr s.nodes s.first _ h.chain) refl

  -- The first value, or the null pointer.
  abbrev pub first_of : List T → T
  first_of [] = nullptr
  first_of (x ∷ xs) = x

  pub front-Holds :
      (s : LfQueue T) (xs : List T) → Holds nullptr s xs → front nullptr s ≡ ok (first_of xs)
  unfolding front
  front-Holds s [] h = rw (deref-eq nullptr s.nodes s.first _ h.chain) refl
  front-Holds s (x ∷ xs) h =
      let (m, found, value, rest) = popped-Holds x s xs h in
      rw
        (
          deref-eq nullptr s.nodes s.first _ h.chain.0,
          deref-eq nullptr s.nodes (suc s.first) m found,
          value,
        )
        refl

  abbrev pub none_in : List T → Bool
  none_in [] = true
  none_in (x ∷ xs) = false

  pub is_empty-Holds :
      (s : LfQueue T) (xs : List T) → Holds nullptr s xs → is_empty nullptr s ≡ ok (none_in xs)
  unfolding is_empty
  is_empty-Holds s [] h = rw (deref-eq nullptr s.nodes s.first _ h.chain) refl
  is_empty-Holds s (x ∷ xs) h = rw (deref-eq nullptr s.nodes s.first _ h.chain.0) refl
