-- ===== src/Common/Slices.antt =====
-- The laws of prefixes and suffixes.
use Prim.Native.Nat.{ℕ, zero, suc, ◌+◌, ◌-◌, ◌≤◌}
use mathlib.Core.Path.{◌≡◌, refl, sym, ap, ◌∙◌}
use mathlib.Core.Logic.{◌⊎◌, inl, inr}
use mathlib.Core.List.{List, [], ◌∷◌, ◌++◌}
use native.Mathlib.Omega.{arith}
use dsh_chaos.Common.Lists.{length, take, drop}

module _ {ℓ} {A : Type ℓ} where
  take_empty : (n : ℕ) → take {A = A} n [] ≡ []
  take_empty zero = refl
  take_empty (suc n) = refl

  pub take-append-take : (m k : ℕ) (xs : List A) → take m xs ++ take k (drop m xs) ≡ take (m + k) xs
  take-append-take zero k xs = ap (λ n. take n xs) (omega arith)
  take-append-take (suc m) zero [] = sym (take_empty (suc m + 0))
  take-append-take (suc m) (suc k) [] = sym (take_empty (suc m + suc k))
  take-append-take (suc m) k (x ∷ xs) =
      let shift : suc m + k ≡ suc (m + k) = omega arith in
      ap (λ ys. x ∷ ys) (take-append-take m k xs) ∙ sym (ap (λ n. take n (x ∷ xs)) shift)

  pub take-length-take : (m : ℕ) (xs : List A) → take (length (take m xs)) xs ≡ take m xs
  take-length-take zero xs = refl
  take-length-take (suc m) [] = refl
  take-length-take (suc m) (x ∷ xs) = ap (λ ys. x ∷ ys) (take-length-take m xs)

  pub take_all : (n : ℕ) (xs : List A) → length xs ≤ n → take n xs ≡ xs
  take_all zero [] h = refl
  take_all zero (x ∷ xs) h = absurd (omega arith)
  take_all (suc n) [] h = refl
  take_all (suc n) (x ∷ xs) h = ap (λ ys. x ∷ ys) (take_all n xs (omega arith))

  pub take_nothing : (n : ℕ) (xs : List A) → length (take n xs) ≡ 0 → (n ≡ 0) ⊎ (length xs ≡ 0)
  take_nothing zero xs h = inl refl
  take_nothing (suc n) [] h = inr refl
  take_nothing (suc n) (x ∷ xs) h = absurd (omega arith)

  pub length-drop : (n : ℕ) (xs : List A) → length (drop n xs) ≡ length xs - n
  length-drop zero xs = omega arith
  length-drop (suc n) [] = omega arith
  length-drop (suc n) (x ∷ xs) = omega (arith, length-drop n xs)
