-- ===== src/Tools/Resolve.antt =====
-- src/tools.ts: `resolveAgentTarget`, `requireVersion` and the `execute` of the message and Task
-- tools, behind `bindingForExecution`. The core is a record of operations on an outer state `W`.
use dsh_chaos.Common.{
  ℕ, String, Bool, false, not, ◌&&◌, ◌||◌, Option, none, some, List, [], ◌∷◌, is_some,
  if◌then◌else◌, find, ◌==◌, nat_eq,
}
use Prim.Native.Char.{code}
use dsh_chaos.Common.Texts.{concat, is_empty, is_digit, all_digits, strip_prefix}
use dsh_chaos.Common.Results.{Result, ok, throws}
use dsh_chaos.Common.Acts.{Act, give, refuse, ◌>>=◌}
use dsh_chaos.Wire.{Message, SendResult, Target, channel, direct, thread, Task, TaskStatus}
use dsh_chaos.Tools.Target.{
  to_channel, to_direct, Parsed, kind_word, parse_target_text, is_short_id, is_uuid,
}

pub record Core (W : Type 0) : Type 0 where
  pub targets : (agent_id : String) → W → Result (List Target) × W
  pub read_messages :
      (agent_id target_id after_seq : String) (limit : ℕ) → W → Result (List Message) × W
  pub read_message : (agent_id target_id message_id : String) → W → Result Message × W
  pub create_thread : (root_message_id actor_id : String) → W → Result Target × W
  pub send_message :
      (target_id author_id client_request_id text : String) → W → Result SendResult × W
  pub create_task : (message_id actor_id : String) → W → Result Task × W
  pub claim_task : (message_id actor_id : String) → W → Result Task × W
  pub unclaim_task : (message_id actor_id expected_version : String) → W → Result Task × W
  pub update_task_status :
      (message_id actor_id : String)
      → TaskStatus
      → (expected_version : String) → W
      → Result Task × W
  pub list_tasks : (actor_id : String) → Option String → W → Result (List Task) × W

pub record Addressed : Type 0 where
  pub target_id : String
  pub display : String

abbrev pub is_some_text : Option String → Bool
is_some_text none = false
is_some_text (some s) = not (is_empty s)

unfoldable pub includes : String → String → Bool
unfolding strip_prefix
includes needle String.[] = is_empty needle
includes needle (String.◌∷◌ c s) =
    is_some (strip_prefix needle (String.◌∷◌ c s)) || includes needle s

abbrev pub is_base : Parsed → Target → Bool
is_base parsed t = elim parsed.kind [
  | to_channel ↦ elim t.kind [ channel ↦ t.name == parsed.name | direct ↦ false | thread ↦ false ]
  | to_direct ↦ elim t.kind [
    | channel ↦ false
    | direct ↦ includes parsed.name t.name
    | thread ↦ false
  ]
]

-- `id.replaceAll('-', '')`.
unfoldable pub without_hyphens : String → String
without_hyphens String.[] = ""
without_hyphens (String.◌∷◌ c s) =
    let rest = without_hyphens s in if nat_eq (code c) b'-' then rest else String.◌∷◌ c rest

abbrev pub is_root : String → Message → Bool
is_root short m =
    is_some (strip_prefix short m.id) || is_some (strip_prefix short (without_hyphens m.id))

-- `requireVersion`: a positive decimal integer.
unfoldable pub is_version : String → Bool
is_version String.[] = false
is_version (String.◌∷◌ c s) = is_digit (code c) && not (nat_eq (code c) b'0') && all_digits s

module _ {W : Type 0} (core : Core W) where
  unfoldable pub require_version : String → Act W String
  require_version value =
      if is_version value
      then give value
      else refuse "expectedVersion must be a positive decimal integer string"

  unfoldable pub resolve_root : String → Target → Parsed → String → Act W Addressed
  resolve_root agent_id base parsed short =
      if not (is_short_id short)
      then refuse
          (concat ("invalid root message short id '" ∷ short ∷ "' (expected 4-16 hex chars)" ∷ []))
      else do
        page ← core.read_messages agent_id base.id "0" 100
        elim (find (is_root short) page) [
          | none ↦ refuse (
              concat (
                "no message with short id '" ∷ short ∷ "' in the first 100 messages of '"
                ∷ parsed.name ∷ "'" ∷ []))
          | some root ↦ do
            made ← core.create_thread root.id agent_id
            give (record { target_id = made.id; display = parsed.raw })
        ]

  unfoldable pub resolve_text : String → String → Act W Addressed
  resolve_text agent_id target = elim (parse_target_text target) [
    | throws e ↦ refuse e
    | ok parsed ↦ do
      targets ← core.targets agent_id
      elim (find (is_base parsed) targets) [
        | none ↦
            refuse
              (concat ("unknown " ∷ kind_word parsed.kind ∷ " target '" ∷ parsed.name ∷ "'" ∷ []))
        | some base ↦ elim parsed.root_short [
          | none ↦ give (record { target_id = base.id; display = parsed.raw })
          | some short ↦ resolve_root agent_id base parsed short
        ]
      ]
  ]

  unfoldable pub resolve_agent_target : String → Option String → Option String → Act W Addressed
  resolve_agent_target agent_id (some id) (some text) =
      refuse "targetId and target are mutually exclusive; pass exactly one"
  resolve_agent_target agent_id (some id) none = give (record { target_id = id; display = id })
  resolve_agent_target agent_id none none = refuse "target or targetId is required"
  resolve_agent_target agent_id none (some text) =
      if is_empty text
      then refuse "target or targetId is required"
      else if is_uuid text
      then give (record { target_id = text; display = text })
      else resolve_text agent_id text

  -- `replyToMessageId`, where it is a text: the Thread of that message takes the target's place.
  unfoldable pub reply_target : String → Option String → Option String → Addressed → Act W String
  reply_target agent_id target none addressed = give addressed.target_id
  reply_target agent_id target (some root) addressed =
      if is_empty root
      then give addressed.target_id
      else if is_some target
      then refuse "target text and replyToMessageId are mutually exclusive; use one of them"
      else do made ← core.create_thread root agent_id; give made.id

  -- `message_send`; `agent_id` is the binding's of the calling Agent.
  unfoldable pub message_send :
      (agent_id call_id : String)
      → (target_id target reply_to : Option String) → (text : String) → Act W SendResult
  message_send agent_id call_id target_id target reply_to text = do
    addressed ← resolve_agent_target agent_id target_id target
    resolved ← reply_target agent_id target reply_to addressed
    core.send_message resolved agent_id call_id text

  unfoldable pub task_create : (agent_id message_id : String) → Act W Task
  task_create agent_id message_id = do
    task ← core.create_task message_id agent_id
    core.claim_task task.message_id agent_id

  unfoldable pub task_unclaim : (agent_id message_id expected_version : String) → Act W Task
  task_unclaim agent_id message_id expected_version = do
    version ← require_version expected_version
    core.unclaim_task message_id agent_id version

  unfoldable pub task_update :
      (agent_id message_id : String) → TaskStatus → (expected_version : String) → Act W Task
  task_update agent_id message_id status expected_version = do
    version ← require_version expected_version
    core.update_task_status message_id agent_id status version
