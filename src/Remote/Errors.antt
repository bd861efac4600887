-- ===== src/Remote/Errors.antt =====
-- src/remote.ts: `errorResult`, which reads an error's code off the tag before its message.
use Prim.Native.Char.{code}
use dsh_chaos.Common.{
  ℕ, String, Bool, true, false, ◌&&◌, ◌||◌, ◌≡◌, refl, Option, none, some, [], ◌∷◌, leb, nat_eq,
  if◌then◌else◌, arith,
}
use dsh_chaos.Common.Texts.{concat, append, is_empty, trim_start, is_digit}

pub record DomainError : Type 0 where
  pub code : String
  pub message : String

-- `[a-z0-9_]`.
unfoldable pub is_tag_char : ℕ → Bool
is_tag_char c = (leb b'a' c && leb c b'z') || is_digit c || nat_eq c b'_'

-- What `[a-z0-9_]*\]` matches at the head of a text, and what follows.
unfoldable pub tag_body : String → Option (String × String)
tag_body String.[] = none
tag_body (String.◌∷◌ c s) =
    if is_tag_char (code c)
    then (elim (tag_body s) [ none ↦ none | some (t, rest) ↦ some (String.◌∷◌ c t, rest) ])
    else if nat_eq (code c) b']'
    then some ("", s)
    else none

-- `/^\[([a-z0-9_]+)\]\s*/`: the tag, and the message behind the match.
unfoldable pub match_tag : String → Option (String × String)
match_tag String.[] = none
match_tag (String.◌∷◌ c s) =
    if nat_eq (code c) b'['
    then (elim (tag_body s) [
      | none ↦ none
      | some (t, rest) ↦ if is_empty t then none else some (t, trim_start rest)
    ])
    else none

unfoldable pub error_result : String → DomainError
error_result message = elim (match_tag message) [
  | none ↦ record { code = "internal"; message = message }
  | some (t, rest) ↦ record { code = t; message = rest }
]

-- Every character of a text may stand in a tag.
unfoldable pub is_tag : String → Bool
is_tag String.[] = true
is_tag (String.◌∷◌ c s) = is_tag_char (code c) && is_tag s

pub tag_body_lem :
    (t rest : String) → is_tag t ≡ true → tag_body (append t (append "]" rest)) ≡ some (t, rest)
unfolding tag_body is_tag is_tag_char
tag_body_lem String.[] rest h = refl
tag_body_lem (String.◌∷◌ c t) rest h = ground (arith, tag_body_lem t rest)

-- An error whose message has a tag is reported under that tag, with the spaces behind it dropped.
pub error_result-concat :
    (t rest : String)
    → is_tag t ≡ true
    → is_empty t ≡ false
    → error_result (concat ("[" ∷ t ∷ "]" ∷ rest ∷ []))
      ≡ record { code = t; message = trim_start rest }
unfolding error_result match_tag
error_result-concat t rest h k = ground (arith, tag_body_lem t rest)
