-- ===== src/Tools/Target.antt =====
-- src/tools.ts: `parseTargetText` and the two patterns of a target reference.
use dsh_chaos.Common.{
  ℕ, zero, suc, String, Bool, true, false, ◌&&◌, ◌||◌, Option, none, some, List, [], ◌∷◌, leb,
  if◌then◌else◌,
}
use Prim.Native.Char.{code}
use dsh_chaos.Common.Texts.{concat, is_empty, is_digit, trim, split_at, strip_prefix}
use dsh_chaos.Common.Results.{Result, ok, throws}

pub data BaseKind : Type 0 where
  to_channel to_direct : BaseKind

pub record Parsed : Type 0 where
  pub kind : BaseKind
  pub name : String
  pub root_short : Option String
  pub raw : String

abbrev pub prefix_of : BaseKind → String
prefix_of to_channel = "#"
prefix_of to_direct = "dm:@"

abbrev pub kind_word : BaseKind → String
kind_word to_channel = "channel"
kind_word to_direct = "direct"

-- An empty short id counts as none.
abbrev pub short_of : String → Option String
short_of root = if is_empty root then none else some root

-- What follows the prefix: the name up to the first colon, and the short id behind it.
unfoldable pub parse_body : BaseKind → String → String → String → Result Parsed
parse_body kind body trimmed raw =
    let parts : String × Option String = elim (split_at b':' body) [
      | none ↦ (body, none)
      | some (name, root) ↦ (name, short_of root)
    ] in
    if is_empty parts.0
    then throws (concat ("invalid " ∷ kind_word kind ∷ " target '" ∷ raw ∷ "'" ∷ []))
    else ok (record { kind = kind; name = parts.0; root_short = parts.1; raw = trimmed })

unfoldable pub parse_trimmed : String → String → Result Parsed
unfolding strip_prefix
parse_trimmed trimmed raw = elim (strip_prefix (prefix_of to_channel) trimmed) [
  | some body ↦ parse_body to_channel body trimmed raw
  | none ↦ elim (strip_prefix (prefix_of to_direct) trimmed) [
    | some body ↦ parse_body to_direct body trimmed raw
    | none ↦ throws (
        concat (
          "invalid target '" ∷ raw
          ∷ "': expected UUID, '#channel', 'dm:@handle', or '<base>:<message-short-id>'" ∷ []))
  ]
]

unfoldable pub parse_target_text : String → Result Parsed
parse_target_text raw = parse_trimmed (trim raw) raw

-- `[0-9a-f]`, in either case.
abbrev pub is_hex : ℕ → Bool
is_hex c = is_digit c || (leb b'a' c && leb c b'f') || (leb b'A' c && leb c b'F')

-- From `least` through `most` hexadecimal digits, and nothing else.
unfoldable pub hex_between : (least most : ℕ) → String → Bool
hex_between zero most String.[] = true
hex_between (suc least) most String.[] = false
hex_between least zero (String.◌∷◌ c s) = false
hex_between zero (suc most) (String.◌∷◌ c s) = is_hex (code c) && hex_between zero most s
hex_between (suc least) (suc most) (String.◌∷◌ c s) = is_hex (code c) && hex_between least most s

-- `SHORT_ID_RE`.
abbrev pub is_short_id : String → Bool
is_short_id s = hex_between 4 16 s

-- The groups of `UUID_TARGET_RE`, which hyphens separate.
unfoldable pub is_grouped : List ℕ → String → Bool
unfolding hex_between split_at
is_grouped [] s = false
is_grouped (n ∷ []) s = hex_between n n s
is_grouped (n ∷ k ∷ ns) s = elim (split_at b'-' s) [
  | none ↦ false
  | some (group, rest) ↦ hex_between n n group && is_grouped (k ∷ ns) rest
]

abbrev pub is_uuid : String → Bool
is_uuid s = is_grouped (8 ∷ 4 ∷ 4 ∷ 4 ∷ 12 ∷ []) s
