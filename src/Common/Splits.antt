-- ===== src/Common/Splits.antt =====
-- `s.split(separator)` and its inverse, `pieces.join(separator)`.
use Prim.Native.Nat.{ℕ}
use Prim.Native.Char.{Char, code}
use Prim.Native.String.{String}
use mathlib.Core.Path.{◌≡◌, refl, sym, ap, ◌∙◌}
use mathlib.Core.Logic.{inl, inr}
use text.Mathlib.TextEquality.{Char-path}
use mathlib.Core.List.{List, [], ◌∷◌}
use native.Mathlib.Omega.{arith}
use dsh_chaos.Common.Tests.{nat_eq, Bool-cases, if◌then◌else◌}
use dsh_chaos.Common.Texts.{append}

-- A character before the first piece.
abbrev pub prepend : String → List String → List String
prepend c [] = c ∷ []
prepend c (s ∷ ss) = append c s ∷ ss

unfoldable pub split_on : ℕ → String → List String
split_on sep String.[] = "" ∷ []
split_on sep (String.◌∷◌ c s) =
    let rest = split_on sep s in
    if nat_eq (code c) sep then "" ∷ rest else prepend (String.◌∷◌ c String.[]) rest

abbrev pub join_with : String → List String → String
join_with sep [] = ""
join_with sep (s ∷ []) = s
join_with sep (s ∷ t ∷ ss) = append s (append sep (join_with sep (t ∷ ss)))

split_on-cons :
    (sep : ℕ) (s : String) → (x : String) × (xs : List String) × (split_on sep s ≡ x ∷ xs)
unfolding split_on
split_on-cons sep String.[] = ("", [], refl)
split_on-cons sep (String.◌∷◌ c s) =
    let (x, xs, e) = split_on-cons sep s in
    elim (Bool-cases (nat_eq (code c) sep)) [
      | inl same ↦ ("", x ∷ xs, rw (same, e) refl)
      | inr other ↦ (String.◌∷◌ c x, xs, rw (other, e) refl)
    ]

join_with-prepend :
    (sep : String) (c : Char) (x : String) (xs : List String)
    → join_with sep (prepend (String.◌∷◌ c String.[]) (x ∷ xs))
      ≡ String.◌∷◌ c (join_with sep (x ∷ xs))
join_with-prepend sep c x [] = refl
join_with-prepend sep c x (y ∷ ys) = refl

-- What was split is joined again by the separator.
pub join_with-split_on :
    (c : Char) (s : String) → join_with (String.◌∷◌ c String.[]) (split_on (code c) s) ≡ s
unfolding split_on
join_with-split_on c String.[] = refl
join_with-split_on c (String.◌∷◌ d s) =
    let sep = String.◌∷◌ c String.[] in
    let (x, xs, e) = split_on-cons (code c) s in
    let rest : join_with sep (x ∷ xs) ≡ s = ap (join_with sep) (sym e) ∙ join_with-split_on c s in
    elim (Bool-cases (nat_eq (code d) (code c))) [
      | inl same ↦
          let one : d ≡ c = Char-path d c (ground arith) in
          rw (same, e) (rw one (ap (String.◌∷◌ c) rest))
      | inr other ↦ rw (other, e) (join_with-prepend sep d x xs ∙ ap (String.◌∷◌ d) rest)
    ]
