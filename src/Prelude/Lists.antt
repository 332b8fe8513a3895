-- ===== src/Prelude/Lists.antt =====
-- Lists measured and counted by native numbers, under the library's names.
use Prim.Native.Nat.{ℕ, zero, suc, ◌+◌}
use mathlib.Core.Path.{◌≡◌, sym, ap, ◌∙◌}
use mathlib.Core.List.{List, [], ◌∷◌, ◌++◌, append_assoc}
use mathlib.Core.Option.{Option, none, some}
use native.Mathlib.Omega.{arith}
use xitao.Prelude.Tests.{◌==◌, if◌then◌else◌}

module _ {ℓ} {A : Type ℓ} where
  abbrev pub length : List A → ℕ
  length [] = 0
  length (x ∷ xs) = suc (length xs)

  abbrev pub get_elem? : List A → ℕ → Option A
  get_elem? [] i = none
  get_elem? (x ∷ xs) zero = some x
  get_elem? (x ∷ xs) (suc i) = get_elem? xs i

  pub length-append : (xs ys : List A) → length (xs ++ ys) ≡ length xs + length ys
  length-append [] ys = omega arith
  length-append (x ∷ xs) ys = omega (arith, length-append xs ys)

-- A predicate by recursion computes to tuples.
abbrev pub All {ℓ κ} : {A : Type ℓ} → (A → Type κ) → List A → Type κ
All P [] = Unit
All P (x ∷ xs) = P x × All P xs

pub All-append {ℓ κ} :
    {A : Type ℓ} (P : A → Type κ) (xs ys : List A) → All P xs → All P ys → All P (xs ++ ys)
All-append P [] ys hx hy = hy
All-append P (x ∷ xs) ys hx hy = (hx.0, All-append P xs ys hx.1 hy)

-- How often `item` stands in the list.
abbrev pub count : ℕ → List ℕ → ℕ
count item [] = 0
count item (other ∷ rest) = let more = count item rest in if other == item then suc more else more

pub count-append :
    (item : ℕ) (front back : List ℕ)
    → count item (front ++ back) ≡ count item front + count item back
count-append item (other ∷ rest) back = ground (arith, count-append item rest back)
count-append item [] back = omega arith

pub append_regroup {ℓ} :
    {A : Type ℓ} (xs ys zs : List A) {done all : List A}
    → xs ++ ys ≡ done
    → done ++ zs ≡ all
    → xs ++ (ys ++ zs) ≡ all
append_regroup {A} xs ys zs p q = sym (append_assoc xs ys zs) ∙ ap (λ (l : List A). l ++ zs) p ∙ q
