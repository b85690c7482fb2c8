-- ===== src/Prelude/Weights.antt =====
-- Lists weighed by a number of each element, and an element taken out by its place.
use Prim.Native.Nat.{ℕ, zero, suc, ◌+◌}
use mathlib.Core.Path.{◌≡◌, refl}
use mathlib.Core.Option.{Option, none, some}
use mathlib.Core.List.{List, [], ◌∷◌, ◌++◌}
use unix_notes.Prelude.Lists.{length}
use native.Mathlib.Omega.{arith}

module _ {ℓ} {A : Type ℓ} where
  -- The element at a place, and the list without it.
  abbrev pub pick : ℕ → List A → Option (A × List A)
  pick n [] = none
  pick zero (x ∷ xs) = some (x, xs)
  pick (suc n) (x ∷ xs) = elim (pick n xs) [ none ↦ none | some (y, ys) ↦ some (y, x ∷ ys) ]

  module _ (w : A → ℕ) where
    abbrev pub sum : List A → ℕ
    sum [] = 0
    sum (x ∷ xs) = w x + sum xs

    pub sum-append : (xs ys : List A) → sum (xs ++ ys) ≡ sum xs + sum ys
    sum-append [] ys = omega arith
    sum-append (x ∷ xs) ys = omega (arith, sum-append xs ys)

    -- What is picked, with what is left, is the list.
    abbrev pub Picked : List A → Option (A × List A) → Type 0
    Picked xs none = Unit
    Picked xs (some (x, ys)) = sum xs ≡ w x + sum ys

    pick_later :
        (x : A) (xs : List A) (o : Option (A × List A))
        → Picked xs o
        → Picked (x ∷ xs) (elim o [ none ↦ none | some (y, ys) ↦ some (y, x ∷ ys) ])
    pick_later x xs none h = tt
    pick_later x xs (some (y, ys)) h = omega arith

    pub pick-Picked : (n : ℕ) (xs : List A) → Picked xs (pick n xs)
    pick-Picked n [] = tt
    pick-Picked zero (x ∷ xs) = refl
    pick-Picked (suc n) (x ∷ xs) = pick_later x xs (pick n xs) (pick-Picked n xs)

pub sum-one {ℓ} : {A : Type ℓ} (xs : List A) → sum (λ x. 1) xs ≡ length xs
sum-one [] = refl
sum-one (x ∷ xs) = omega (arith, sum-one xs)
