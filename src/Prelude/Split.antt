-- ===== src/Prelude/Split.antt =====
-- Cutting an append where it was made, or past that place.
use Prim.Native.Nat.{ℕ, zero, suc, ◌+◌, ◌≤◌, ◌<◌}
use mathlib.Core.Path.{◌≡◌, refl, ap}
use mathlib.Core.Logic.{◌≢◌}
use mathlib.Core.List.{List, [], ◌∷◌, ◌++◌}
use native.Mathlib.Omega.{arith}
use unix_notes.Prelude.Lists.{length, take, drop}

module _ {ℓ} {A : Type ℓ} where
  pub drop-append : (xs ys : List A) (n m : ℕ) → m ≡ length xs + n → drop m (xs ++ ys) ≡ drop n ys
  drop-append [] ys n m e = ap (λ k. drop k ys) (omega arith)
  drop-append (x ∷ xs) ys n zero e = absurd (omega arith)
  drop-append (x ∷ xs) ys n (suc m) e = drop-append xs ys n m (omega arith)

  pub take-append :
      (xs ys : List A) (n m : ℕ) → m ≡ length xs + n → take m (xs ++ ys) ≡ xs ++ take n ys
  take-append [] ys n m e = ap (λ k. take k ys) (omega arith)
  take-append (x ∷ xs) ys n zero e = absurd (omega arith)
  take-append (x ∷ xs) ys n (suc m) e = ap (λ l. x ∷ l) (take-append xs ys n m (omega arith))

  pub take-append_le : (n : ℕ) (xs ys : List A) → n ≤ length xs → take n (xs ++ ys) ≡ take n xs
  take-append_le zero xs ys h = refl
  take-append_le (suc n) [] ys h = absurd (omega arith)
  take-append_le (suc n) (x ∷ xs) ys h = ap (λ l. x ∷ l) (take-append_le n xs ys (omega arith))

  pub length_of_ne_nil : (xs : List A) → xs ≢ [] → 0 < length xs
  length_of_ne_nil [] h = absurd (h refl)
  length_of_ne_nil (x ∷ xs) h = omega arith
