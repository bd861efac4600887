-- ===== src/Tools/Reference.antt =====
-- What the target references come to: the texts read back what they were printed from, and a
-- refused reference reaches no operation of the core.
use dsh_chaos.Common.{
  String, Bool, true, false, not, ◌&&◌, ◌||◌, Option, none, some, is_some, ◌≡◌, refl, inl, inr,
  arith, nat_eq, ◌∙◌, Option-cases,
}
use Prim.Native.Char.{code}
use dsh_chaos.Common.Texts.{append, is_empty, trim, split_at, strip_prefix}
use dsh_chaos.Common.Results.{Result, ok, throws}
use dsh_chaos.Common.Acts.{refuse, ◌>>=◌}
use dsh_chaos.Tools.Target.{
  BaseKind, to_channel, to_direct, prefix_of, short_of, parse_body, parse_trimmed,
  parse_target_text, is_uuid,
}
use dsh_chaos.Tools.Resolve.{Core, resolve_agent_target, resolve_text, message_send}

-- A reference as the tools' descriptions write it.
abbrev pub print : BaseKind → String → Option String → String
print kind name none = append (prefix_of kind) name
print kind name (some short) = append (prefix_of kind) (append name (append ":" short))

unfoldable pub has_colon : String → Bool
has_colon String.[] = false
has_colon (String.◌∷◌ c s) = nat_eq (code c) b':' || has_colon s

strip_prefix-append : (p s : String) → strip_prefix p (append p s) ≡ some s
unfolding strip_prefix
strip_prefix-append String.[] s = refl
strip_prefix-append (String.◌∷◌ c p) s =
    let same : nat_eq (code c) (code c) ≡ true = ground arith in rw same (strip_prefix-append p s)

split_at-none : (s : String) → has_colon s ≡ false → split_at b':' s ≡ none
unfolding split_at has_colon
split_at-none String.[] h = refl
split_at-none (String.◌∷◌ c s) h = ground (arith, split_at-none s)

split_at-append :
    (s t : String) → has_colon s ≡ false → split_at b':' (append s (append ":" t)) ≡ some (s, t)
unfolding split_at has_colon
split_at-append String.[] t h = refl
split_at-append (String.◌∷◌ c s) t h =
    let other : nat_eq (code c) b':' ≡ false = ground arith in
    let rest = split_at-append s t (ground arith) in rw (other, rest) refl

-- The short id that a printed reference carries: an empty one is none.
abbrev pub carried : Option String → Option String
carried none = none
carried (some short) = short_of short

body_of : String → Option String → String
body_of name none = name
body_of name (some short) = append name (append ":" short)

print-eq :
    (kind : BaseKind) (name : String) (root : Option String)
    → print kind name root ≡ append (prefix_of kind) (body_of name root)
unfolding body_of
print-eq kind name none = refl
print-eq kind name (some short) = refl

parse_body-body_of :
    (kind : BaseKind) (name : String) (root : Option String) (trimmed raw : String)
    → is_empty name ≡ false
    → has_colon name ≡ false
    → parse_body kind (body_of name root) trimmed raw
      ≡ ok (record { kind = kind; name = name; root_short = carried root; raw = trimmed })
unfolding parse_body body_of
parse_body-body_of kind name none trimmed raw named plain =
    rw (split_at-none name plain, named) refl
parse_body-body_of kind name (some short) trimmed raw named plain =
    rw (split_at-append name short plain, named) refl

parse_trimmed-prefix :
    (kind : BaseKind) (body raw : String)
    → parse_trimmed (append (prefix_of kind) body) raw
      ≡ parse_body kind body (append (prefix_of kind) body) raw
unfolding parse_trimmed
parse_trimmed-prefix to_channel body raw = refl
parse_trimmed-prefix to_direct body raw = refl

-- A reference with a name, which has no colon, and with or without a short id is read back as it
-- was printed, where no white space stands at its ends: kind, name and short id are the ones
-- printed, but an empty short id is read as none.
pub parse_target_text-print :
    (kind : BaseKind) (name : String) (root : Option String)
    → trim (print kind name root) ≡ print kind name root
    → is_empty name ≡ false
    → has_colon name ≡ false
    → parse_target_text (print kind name root)
      ≡ ok (record {
        kind = kind;
        name = name;
        root_short = carried root;
        raw = print kind name root;
      })
unfolding parse_target_text
parse_target_text-print kind name root trimmed named plain =
    let text = append (prefix_of kind) (body_of name root) in
    rw trimmed (
      rw (print-eq kind name root) (
        parse_trimmed-prefix kind (body_of name root) text
        ∙ parse_body-body_of kind name root text text named plain))

abbrev pub is_refused {ℓ} : {A : Type ℓ} → Result A → Bool
is_refused (ok a) = false
is_refused (throws e) = true

abbrev pub starts_with : String → String → Bool
starts_with p s = is_some (strip_prefix p s)

-- A name stands behind the prefix, before the first colon if there is one.
abbrev pub names : BaseKind → String → Bool
names kind text = elim (strip_prefix (prefix_of kind) text) [
  | none ↦ false
  | some body ↦ not (is_empty body) && not (starts_with ":" body)
]

-- What a tool can address: an id alone, or a text alone that is a UUID or, between white space, a
-- Channel or a handle with a name.
abbrev pub is_addressed : Option String → Option String → Bool
is_addressed (some id) none = true
is_addressed none (some text) =
    is_uuid text || names to_channel (trim text) || names to_direct (trim text)
is_addressed (some id) (some text) = false
is_addressed none none = false

parse_body-refused :
    (kind : BaseKind) (body trimmed raw : String)
    → not (is_empty body) && not (starts_with ":" body) ≡ false
    → is_refused (parse_body kind body trimmed raw) ≡ true
unfolding parse_body split_at strip_prefix
parse_body-refused kind String.[] trimmed raw h = refl
parse_body-refused kind (String.◌∷◌ c s) trimmed raw h =
    let colon : nat_eq (code c) b':' ≡ true = ground arith in rw colon refl

parse_trimmed-refused :
    (trimmed raw : String)
    → names to_channel trimmed ≡ false
    → names to_direct trimmed ≡ false
    → is_refused (parse_trimmed trimmed raw) ≡ true
unfolding parse_trimmed
parse_trimmed-refused trimmed raw channels directs =
    elim (Option-cases (strip_prefix (prefix_of to_channel) trimmed)) [
      | inr (body, e) ↦
          ground (arith, parse_body-refused to_channel body trimmed raw (ground arith))
      | inl e ↦ elim (Option-cases (strip_prefix (prefix_of to_direct) trimmed)) [
        | inr (body, d) ↦
            ground (arith, parse_body-refused to_direct body trimmed raw (ground arith))
        | inl d ↦ ground arith
      ]
    ]

parse_target_text-refused :
    (text : String)
    → names to_channel (trim text) ≡ false
    → names to_direct (trim text) ≡ false
    → is_refused (parse_target_text text) ≡ true
unfolding parse_target_text
parse_target_text-refused text channels directs =
    parse_trimmed-refused (trim text) text channels directs

resolve_text-refused :
    {W : Type 0} (core : Core W) (agent_id target : String) (w : W)
    → is_refused (parse_target_text target) ≡ true
    → let r = resolve_text core agent_id target w in (is_refused r.0 ≡ true) × (r.1 ≡ w)
unfolding resolve_text refuse
resolve_text-refused core agent_id target w h = ground arith

resolve_agent_target-refused :
    {W : Type 0} (core : Core W) (agent_id : String) (target_id target : Option String) (w : W)
    → is_addressed target_id target ≡ false
    → let r = resolve_agent_target core agent_id target_id target w in
      (is_refused r.0 ≡ true) × (r.1 ≡ w)
unfolding resolve_agent_target refuse
resolve_agent_target-refused core agent_id (some id) (some text) w h = (refl, refl)
resolve_agent_target-refused core agent_id (some id) none w h = cc
resolve_agent_target-refused core agent_id none none w h = (refl, refl)
resolve_agent_target-refused core agent_id none (some text) w h =
    let unread = parse_target_text-refused text (ground arith) (ground arith) in
    ground (arith, resolve_text-refused core agent_id text w unread)

-- A message is refused, and the core is left as `bindingForExecution` left it, where its target is
-- not one that a tool can address: given twice or not at all, or as a text that is neither a UUID
-- nor, between white space, `#` or `dm:@` with a name behind it. It holds whatever is replied to
-- and whatever the text is.
pub message_send-refused :
    {W : Type 0} (core : Core W) (agent_id call_id : String) (target_id target : Option String)
    (reply_to : Option String) (text : String) (w : W)
    → is_addressed target_id target ≡ false
    → let r = message_send core agent_id call_id target_id target reply_to text w in
      (is_refused r.0 ≡ true) × (r.1 ≡ w)
unfolding message_send ◌>>=◌
message_send-refused core agent_id call_id target_id target reply_to text w h =
    ground (arith, resolve_agent_target-refused core agent_id target_id target w h)
