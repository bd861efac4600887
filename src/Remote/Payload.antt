-- ===== src/Remote/Payload.antt =====
-- src/remote.ts: the payload of a call, and the checks that read one argument from it.
-- A payload is parsed JSON. `num n` is the number n, `negative n` is -(n + 1), and `fraction`
-- stands for every number that is no integer.
use Prim.Native.Char.{code}
use dsh_chaos.Common.{
  ℕ, ◌-◌, ◌^◌, String, Bool, false, not, ◌&&◌, ◌||◌, Option, none, some, List, [], ◌∷◌, ltb, leb,
  nat_eq, if◌then◌else◌, length, ◌==◌,
}
use dsh_chaos.Common.Maps.{Map, lookup}
use dsh_chaos.Common.Texts.{concat, is_empty, trim, all_digits}
use dsh_chaos.Common.Results.{Result, ok, throws, ◌>>=◌}
use dsh_chaos.Wire.{TaskStatus, todo, in_progress, in_review, done}

mutual
  pub data Value : Type 0 where
    undefined : Value
    null : Value
    bool : Bool → Value
    num : ℕ → Value
    negative : ℕ → Value
    fraction : Value
    str : String → Value
    arr : Items → Value
    obj : Fields → Value

  pub data Fields : Type 0 where
    end : Fields
    field : String → Value → Fields → Fields

  pub data Items : Type 0 where
    nil : Items
    cons : Value → Items → Items

abbrev pub items : Items → List Value
items nil = []
items (cons v vs) = v ∷ items vs

-- `input[name]`.
unfoldable pub get : String → Fields → Value
get name end = undefined
get name (field key v fs) = if key == name then v else get name fs

-- `value ?? fallback`.
abbrev pub nullish : Value → Value → Value
nullish undefined d = d
nullish null d = d
nullish v d = v

abbrev pub invalid : List String → String
invalid pieces = concat ("[invalid_argument] " ∷ pieces)

-- `record(payload)`.
unfoldable pub fields_of : Value → Result Fields
fields_of (obj fs) = ok fs
fields_of _ = throws (invalid ("payload must be an object" ∷ []))

unfoldable pub is_blank : String → Bool
is_blank s = is_empty (trim s)

unfoldable pub required_string : Fields → String → Result String
required_string input name = elim (get name input) [
  | str s ↦
      if is_blank s then throws (invalid (name ∷ " must be a non-empty string" ∷ [])) else ok s
  | _ ↦ throws (invalid (name ∷ " must be a non-empty string" ∷ []))
]

unfoldable pub optional_string : Fields → String → Result (Option String)
optional_string input name = elim (get name input) [
  | undefined ↦ ok none
  | str s ↦
      if is_blank s
      then throws (invalid (name ∷ " must be a non-empty string when provided" ∷ []))
      else ok (some s)
  | _ ↦ throws (invalid (name ∷ " must be a non-empty string when provided" ∷ []))
]

unfoldable pub path_string : Fields → String → Result String
path_string input name = elim (nullish (get name input) (str "")) [
  | str s ↦ ok s
  | _ ↦ throws (invalid (name ∷ " must be a string" ∷ []))
]

unfoldable pub boolean_value : Fields → String → Bool → Result Bool
boolean_value input name fallback = elim (nullish (get name input) (bool fallback)) [
  | bool b ↦ ok b
  | _ ↦ throws (invalid (name ∷ " must be a boolean" ∷ []))
]

-- `/^(0|[1-9][0-9]*)$/`.
unfoldable pub is_decimal : String → Bool
unfolding all_digits
is_decimal String.[] = false
is_decimal (String.◌∷◌ c s) =
    (nat_eq (code c) b'0' && is_empty s) || (leb b'1' (code c) && leb (code c) b'9' && all_digits s)

-- `fallback` is `undefined` where the source gives none.
unfoldable pub decimal_string : Fields → String → Value → Result String
decimal_string input name fallback = elim (nullish (get name input) fallback) [
  | str s ↦
      if is_decimal s
      then ok s
      else throws (invalid (name ∷ " must be a non-negative decimal integer string" ∷ []))
  | _ ↦ throws (invalid (name ∷ " must be a non-negative decimal integer string" ∷ []))
]

abbrev pub max_safe_integer : ℕ
max_safe_integer = 2 ^ 53 - 1

-- The message ends in the decimal text of the maximum, which `maximum_text` is.
unfoldable pub integer : Fields → String → ℕ → ℕ → String → Result ℕ
integer input name fallback maximum maximum_text = elim (nullish (get name input) (num fallback)) [
  | num n ↦
      if not (leb n max_safe_integer) || ltb n 1 || ltb maximum n
      then throws (invalid (name ∷ " must be an integer from 1 through " ∷ maximum_text ∷ []))
      else ok n
  | _ ↦ throws (invalid (name ∷ " must be an integer from 1 through " ∷ maximum_text ∷ []))
]

-- The loop of `stringArray`.
unfoldable pub entries : String → List Value → Result (List String)
entries key [] = ok []
entries key (str s ∷ vs) =
    let rest = entries key vs in
    if is_empty s
    then throws (invalid (key ∷ " entries must be non-empty strings" ∷ []))
    else rest >>= λ out. ok (s ∷ out)
entries key (v ∷ vs) = throws (invalid (key ∷ " entries must be non-empty strings" ∷ []))

unfoldable pub string_array : Fields → String → ℕ → String → Result (List String)
unfolding entries
string_array input key max max_text = elim (get key input) [
  | arr vs ↦
      if nat_eq (length (items vs)) 0 || ltb max (length (items vs))
      then throws (invalid (key ∷ " must be an array of 1.." ∷ max_text ∷ " strings" ∷ []))
      else entries key (items vs)
  | _ ↦ throws (invalid (key ∷ " must be an array of 1.." ∷ max_text ∷ " strings" ∷ []))
]

abbrev pub statuses : Map TaskStatus
statuses =
    ("todo", todo) ∷ ("in_progress", in_progress) ∷ ("in_review", in_review) ∷ ("done", done) ∷ []

unfoldable pub task_status : Fields → Result TaskStatus
unfolding lookup
task_status input = elim (get "status" input) [
  | str s ↦ elim (lookup s statuses) [
    | some status ↦ ok status
    | none ↦ throws (invalid ("status must be todo, in_progress, in_review, or done" ∷ []))
  ]
  | _ ↦ throws (invalid ("status must be todo, in_progress, in_review, or done" ∷ []))
]
