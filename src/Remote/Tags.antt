-- ===== src/Remote/Tags.antt =====
-- src/remote.ts: which errors `errorResult` reports under a code of their own.
use Prim.Native.Char.{char, code}
use text.Mathlib.TextEquality.{Char-path}
use dsh_chaos.Common.{
  String, true, false, ◌≡◌, ◌⊎◌, inl, inr, refl, ap, some, nat_eq, arith, Bool-cases, Option-cases,
}
use dsh_chaos.Common.Texts.{append, is_empty, trim_start}
use dsh_chaos.Remote.Errors.{is_tag_char, is_tag, tag_body, tag_body_lem, match_tag, error_result}

-- The message is `[tag]` and a rest.
abbrev pub IsTagged : String → String → String → Type 0
IsTagged tag rest message =
    (is_tag tag ≡ true)
    × (is_empty tag ≡ false)
    × (message ≡ append "[" (append tag (append "]" rest)))

tag_body-reads :
    (s t rest : String)
    → tag_body s ≡ some (t, rest)
    → (is_tag t ≡ true) × (s ≡ append t (append "]" rest))
unfolding tag_body is_tag
tag_body-reads String.[] t rest h = cc
tag_body-reads (String.◌∷◌ c s) t rest h = elim (Bool-cases (is_tag_char (code c))) [
  | inl inner ↦ elim (Option-cases (tag_body s)) [
    | inl e ↦ absurd (ground arith)
    | inr ((t1, r1), e) ↦
        let (tagged, same) = tag_body-reads s t1 r1 e in
        let head : t ≡ String.◌∷◌ c t1 = ground arith in
        let tail : rest ≡ r1 = ground arith in
        rw (head, tail) (ground arith, ap (String.◌∷◌ c) same)
  ]
  | inr outer ↦
      let ends : nat_eq (code c) b']' ≡ true = ground arith in
      let head : t ≡ "" = ground arith in
      let tail : rest ≡ s = ground arith in
      rw (head, tail) (refl, ap (λ d. String.◌∷◌ d s) (Char-path c (char b']' tt) (ground arith)))
]

match_tag-reads :
    (s t rest : String)
    → match_tag s ≡ some (t, rest)
    → (r : String) × IsTagged t r s × (rest ≡ trim_start r)
unfolding match_tag
match_tag-reads String.[] t rest h = cc
match_tag-reads (String.◌∷◌ c s) t rest h = elim (Bool-cases (nat_eq (code c) b'[')) [
  | inr other ↦ absurd (ground arith)
  | inl opens ↦ elim (Option-cases (tag_body s)) [
    | inl e ↦ absurd (ground arith)
    | inr ((t1, r1), e) ↦ elim (Bool-cases (is_empty t1)) [
      | inl blank ↦ absurd (ground arith)
      | inr full ↦
          let (tagged, same) = tag_body-reads s t1 r1 e in
          let head : t ≡ t1 = ground arith in
          let tail : rest ≡ trim_start r1 = ground arith in
          let bracket : c ≡ char b'[' tt = Char-path c (char b'[' tt) (ground arith) in
          (r1, (rw head tagged, rw head full, rw (bracket, head) (ap (append "[") same)), tail)
    ]
  ]
]

match_tag-tagged : (t rest s : String) → IsTagged t rest s → match_tag s ≡ some (t, trim_start rest)
unfolding match_tag
match_tag-tagged t rest s (tagged, full, same) =
    rw same (ground (arith, tag_body_lem t rest tagged))

-- An error whose message is a tag in brackets and a rest, where a tag is one or more of lower-case
-- letters, digits and underscores, is reported under that tag, with the rest behind its leading
-- white space. Every other error is internal and keeps its whole message.
pub error_result-reads :
    (message : String)
    → ((t : String) × (rest : String) × IsTagged t rest message
        × (error_result message ≡ record { code = t; message = trim_start rest }))
      ⊎ ((¬ ((t : String) × (rest : String) × IsTagged t rest message))
          × (error_result message ≡ record { code = "internal"; message = message }))
unfolding error_result
error_result-reads message = elim (Option-cases (match_tag message)) [
  | inl e ↦ inr (
    λ (t, rest, tagged). let found = match_tag-tagged t rest message tagged in ground arith,
    ground arith,
  )
  | inr ((t, shown), e) ↦
      let (rest, tagged, same) = match_tag-reads message t shown e in
      inl (t, rest, tagged, ground arith)
]
