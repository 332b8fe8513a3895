-- ===== src/Prelude/Member.antt =====
-- Membership of a list by recursion, and rows of lists to which one element is pushed.
use Prim.Native.Nat.{ℕ}
use mathlib.Core.Path.{◌≡◌, refl, sym, ap, subst}
use mathlib.Core.Logic.{◌↔◌, ◌⊎◌, inl, inr}
use mathlib.Core.Bool.{true, false}
use mathlib.Core.List.{List, [], ◌∷◌, ◌++◌, map, reverse, reverse-cons, reverse-reverse}
use native.Mathlib.Omega.{arith}
use native.Mathlib.Decide.{ℕ_discrete}
use xitao.Prelude.Tests.{◌==◌}
use xitao.Prelude.Family.{update}

module _ {A : Type 0} where
  abbrev pub In : A → List A → Type 0
  In a [] = ⊥
  In a (x ∷ xs) = (x ≡ a) ⊎ In a xs

  pub In-append_to : (a : A) (xs ys : List A) → In a (xs ++ ys) → In a xs ⊎ In a ys
  In-append_to a [] ys h = inr h
  In-append_to a (x ∷ xs) ys (inl e) = inl (inl e)
  In-append_to a (x ∷ xs) ys (inr h) = elim (In-append_to a xs ys h) [
    | inl l ↦ inl (inr l)
    | inr r ↦ inr r
  ]

  pub In-append_left : (a : A) (xs ys : List A) → In a xs → In a (xs ++ ys)
  In-append_left a [] ys h = absurd h
  In-append_left a (x ∷ xs) ys (inl e) = inl e
  In-append_left a (x ∷ xs) ys (inr h) = inr (In-append_left a xs ys h)

  pub In-append_right : (a : A) (xs ys : List A) → In a ys → In a (xs ++ ys)
  In-append_right a [] ys h = h
  In-append_right a (x ∷ xs) ys h = inr (In-append_right a xs ys h)

  -- `rows[i].push_back(x)`
  abbrev pub push : (ℕ → List A) → ℕ → A → ℕ → List A
  push rows i x = update rows i (rows i ++ x ∷ [])

  pub In-push_to :
      (a x : A) (rows : ℕ → List A) (i k : ℕ)
      → In a (push rows i x k)
      → In a (rows k) ⊎ ((i ≡ k) × (x ≡ a))
  In-push_to a x rows i k h = elim (ℕ_discrete i k) [
    | yes e ↦
        let hit : (i == k) ≡ true = ground arith in
        elim (In-append_to a (rows i) (x ∷ []) (rw hit at h)) [
          | inl old ↦ inl (rw e at old)
          | inr (inl new) ↦ inr (e, new)
          | inr (inr none) ↦ absurd none
        ]
    | no ne ↦ let miss : (i == k) ≡ false = ground arith in inl (rw miss at h)
  ]

  pub In-push_old : (a x : A) (rows : ℕ → List A) (i k : ℕ) → In a (rows k) → In a (push rows i x k)
  In-push_old a x rows i k h = elim (ℕ_discrete i k) [
    | yes e ↦
        let hit : (i == k) ≡ true = ground arith in
        rw hit (In-append_left a (rows i) (x ∷ []) (rw (← e) at h))
    | no ne ↦ let miss : (i == k) ≡ false = ground arith in rw miss h
  ]

  pub In-push_new : (x : A) (rows : ℕ → List A) (i : ℕ) → In x (push rows i x i)
  In-push_new x rows i =
      let hit : (i == i) ≡ true = ground arith in
      rw hit (In-append_right x (rows i) (x ∷ []) (inl refl))

module _ {A B : Type 0} (f : A → B) where
  pub In-map_to : (b : B) (xs : List A) → In b (map f xs) → (a : A) × In a xs × (f a ≡ b)
  In-map_to b [] h = absurd h
  In-map_to b (x ∷ xs) (inl e) = (x, inl refl, e)
  In-map_to b (x ∷ xs) (inr h) = let (a, old, e) = In-map_to b xs h in (a, inr old, e)

  pub In-map_from : (a : A) (xs : List A) → In a xs → In (f a) (map f xs)
  In-map_from a [] h = h
  In-map_from a (x ∷ xs) (inl e) = inl (ap f e)
  In-map_from a (x ∷ xs) (inr h) = inr (In-map_from a xs h)

pub In-reverse : {A : Type 0} (a : A) (xs : List A) → In a (reverse xs) ↔ In a xs
In-reverse {A} a xs = (λ h. subst (In a) (reverse-reverse xs) (go (reverse xs) h), go xs)
  where
    go : (ys : List A) → In a ys → In a (reverse ys)
    go [] h = h
    go (y ∷ ys) (inl e) =
        subst (In a) (sym (reverse-cons y ys)) (In-append_right a (reverse ys) (y ∷ []) (inl e))
    go (y ∷ ys) (inr h) =
        subst (In a) (sym (reverse-cons y ys)) (In-append_left a (reverse ys) (y ∷ []) (go ys h))
