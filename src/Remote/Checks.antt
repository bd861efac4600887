-- ===== src/Remote/Checks.antt =====
-- What each check of `Remote/Payload.antt` lets through.
use dsh_chaos.Common.{
  ℕ, ◌≤◌, ◌≡◌, String, false, true, Option, none, some, List, [], ◌∷◌, All, length, arith,
}
use dsh_chaos.Common.Texts.{is_empty}
use dsh_chaos.Common.Results.{Holds}
use dsh_chaos.Remote.Payload.{
  Value, str, Fields, is_blank, is_decimal, required_string, optional_string, decimal_string,
  integer, string_array, entries,
}

abbrev pub IsText : String → Type 0
IsText s = is_blank s ≡ false

abbrev pub IsDecimal : String → Type 0
IsDecimal s = is_decimal s ≡ true

abbrev pub IsTextWhenGiven : Option String → Type 0
IsTextWhenGiven none = Unit
IsTextWhenGiven (some s) = IsText s

abbrev pub InRange : ℕ → ℕ → Type 0
InRange max n = (1 ≤ n) × (n ≤ max)

pub required_string-IsText :
    (input : Fields) (name : String) → Holds IsText (required_string input name)
unfolding required_string
required_string-IsText input name = ground arith

pub optional_string-IsText :
    (input : Fields) (name : String) → Holds IsTextWhenGiven (optional_string input name)
unfolding optional_string
optional_string-IsText input name = ground arith

pub decimal_string-IsDecimal :
    (input : Fields) (name : String) (d : Value) → Holds IsDecimal (decimal_string input name d)
unfolding decimal_string
decimal_string-IsDecimal input name d = ground arith

pub integer-InRange :
    (input : Fields) (name : String) (d max : ℕ) (t : String)
    → Holds (InRange max) (integer input name d max t)
unfolding integer
integer-InRange input name d max t = ground arith

abbrev pub IsBatch : ℕ → List String → Type 0
IsBatch max ss = (1 ≤ length ss) × (length ss ≤ max) × All (λ s. is_empty s ≡ false) ss

entries_lem :
    (key : String) (vs : List Value)
    → Holds (λ ss. (length ss ≡ length vs) × All (λ s. is_empty s ≡ false) ss) (entries key vs)
unfolding entries
entries_lem key [] = (omega arith, tt)
entries_lem key (str s ∷ vs) = ground (arith, entries_lem key vs)
entries_lem key (v ∷ vs) = tt

pub string_array-IsBatch :
    (input : Fields) (key : String) (max : ℕ) (t : String)
    → Holds (IsBatch max) (string_array input key max t)
unfolding string_array
string_array-IsBatch input key max t = grind (arith, entries_lem)
