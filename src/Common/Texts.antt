-- ===== src/Common/Texts.antt =====
-- JavaScript's string operations as recursions on the characters of a text.
use Prim.Native.Nat.{suc, ℕ, ◌+◌, ◌-◌, ◌*◌}
use Prim.Native.Char.{code}
use Prim.Native.String.{String}
use mathlib.Core.Bool.{Bool, true, false, ◌&&◌, ◌||◌}
use mathlib.Core.Option.{Option, none, some}
use mathlib.Core.List.{List, [], ◌∷◌}
use dsh_chaos.Common.Tests.{leb, nat_eq, if◌then◌else◌}

-- `s + t`.
abbrev pub append : String → String → String
append String.[] t = t
append (String.◌∷◌ c s) t = String.◌∷◌ c (append s t)

-- A template literal: its pieces in order.
abbrev pub concat : List String → String
concat [] = ""
concat (s ∷ []) = s
concat (s ∷ t ∷ ss) = append s (concat (t ∷ ss))

abbrev pub is_empty : String → Bool
is_empty String.[] = true
is_empty (String.◌∷◌ c s) = false

-- The white space and line ends that `trim` and `\s` strip.
unfoldable pub is_space : ℕ → Bool
is_space c =
    (leb 9 c && leb c 13)
    || nat_eq c 32
    || nat_eq c 0xA0
    || nat_eq c 0x1680
    || (leb 0x2000 c && leb c 0x200A)
    || nat_eq c 0x2028
    || nat_eq c 0x2029
    || nat_eq c 0x202F
    || nat_eq c 0x205F
    || nat_eq c 0x3000
    || nat_eq c 0xFEFF

unfoldable pub trim_start : String → String
unfolding is_space
trim_start String.[] = ""
trim_start (String.◌∷◌ c s) = if is_space (code c) then trim_start s else String.◌∷◌ c s

unfoldable pub trim_end : String → String
unfolding is_space
trim_end String.[] = ""
trim_end (String.◌∷◌ c s) =
    let rest = trim_end s in if is_space (code c) && is_empty rest then "" else String.◌∷◌ c rest

unfoldable pub trim : String → String
unfolding trim_start trim_end
trim s = trim_end (trim_start s)

abbrev pub is_digit : ℕ → Bool
is_digit c = leb b'0' c && leb c b'9'

-- `s.length`.
abbrev pub size : String → ℕ
size String.[] = 0
size (String.◌∷◌ c s) = suc (size s)

unfoldable pub all_digits : String → Bool
all_digits String.[] = true
all_digits (String.◌∷◌ c s) = is_digit (code c) && all_digits s

-- `BigInt(s)` of a decimal text, digit by digit.
unfoldable pub big_int_from : ℕ → String → ℕ
big_int_from acc String.[] = acc
big_int_from acc (String.◌∷◌ c s) = big_int_from (acc * 10 + (code c - b'0')) s

unfoldable pub big_int : String → ℕ
unfolding big_int_from
big_int s = big_int_from 0 s

-- The two halves of a text at the first place where a character occurs: `indexOf` and `slice`.
unfoldable pub split_at : ℕ → String → Option (String × String)
split_at sep String.[] = none
split_at sep (String.◌∷◌ c s) =
    if nat_eq (code c) sep
    then some ("", s)
    else elim (split_at sep s) [ none ↦ none | some (l, r) ↦ some (String.◌∷◌ c l, r) ]

-- `s.startsWith(p)`, with what follows the prefix.
unfoldable pub strip_prefix : String → String → Option String
strip_prefix String.[] s = some s
strip_prefix (String.◌∷◌ p ps) String.[] = none
strip_prefix (String.◌∷◌ p ps) (String.◌∷◌ c s) =
    if nat_eq (code p) (code c) then strip_prefix ps s else none
