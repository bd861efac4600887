-- ===== src/Tools/Reading.antt =====
-- src/tools.ts: the tools that read, and `task_claim`. What they use beside the core of Resolve is a
-- record of its own; a limit that is no natural number is refused by the host's schema.
use dsh_chaos.Common.{
  ℕ, String, Bool, ◌&&◌, ◌||◌, Option, none, some, List, [], ◌∷◌, map, leb, or_else, is_some,
  if◌then◌else◌,
}
use dsh_chaos.Common.Acts.{Act, give, ◌>>=◌, ◌>>◌, demand}
use dsh_chaos.Wire.{Actor, Membership, IdentityContext, InboxBatch, Message, RuntimeBinding, Task}
use dsh_chaos.Remote.Payload.{is_decimal}
use dsh_chaos.Tools.Resolve.{Core, resolve_agent_target, reply_target}

pub record Inbox (W : Type 0) : Type 0 where
  pub check_inbox : (agent_id generation session_id : String) → ℕ → Act W InboxBatch
  pub identity_context : String → Option String → Act W IdentityContext
  -- `runtimes.recordInboxBatch`.
  pub record_inbox_batch : RuntimeBinding → String → Act W (Unit {0})

-- The avatar stays with the browser.
unfoldable pub actor_for_model : Actor → Actor
actor_for_model actor = record actor { avatar_data_url = none }

unfoldable pub member_for_model : Membership → Membership
member_for_model member = record member { actor = actor_for_model member.actor }

unfoldable pub identity_context_for_model : IdentityContext → IdentityContext
identity_context_for_model context = record context {
  agent = record context.agent { actor = actor_for_model context.agent.actor };
  members = map member_for_model context.members;
}

abbrev pub is_page : ℕ → Bool
is_page limit = leb 1 limit && leb limit 100

abbrev pub limit_text : String
limit_text = "limit must be an integer from 1 through 100"

pub record ReadResult : Type 0 where
  pub target_id : String
  pub target : String
  pub messages : List Message

module _ {W : Type 0} (core : Core W) (inbox : Inbox W) where
  unfoldable pub identity_context :
      (agent_id : String) → (target_id target : Option String) → Act W IdentityContext
  identity_context agent_id target_id target =
      if is_some target_id || is_some target
      then (do
        addressed ← resolve_agent_target core agent_id target_id target
        context ← inbox.identity_context agent_id (some addressed.target_id)
        give (identity_context_for_model context))
      else (do
        context ← inbox.identity_context agent_id none
        give (identity_context_for_model context))

  -- The batch that was handed out is recorded, to be confirmed when the model has seen it.
  unfoldable pub record_batch : RuntimeBinding → Option String → Act W (Unit {0})
  record_batch binding none = give tt
  record_batch binding (some id) = inbox.record_inbox_batch binding id

  unfoldable pub message_check : RuntimeBinding → Option ℕ → Act W InboxBatch
  message_check binding limit = do
    demand (is_page (or_else limit 50)) limit_text
    batch ←
        inbox.check_inbox binding.agent_id binding.generation binding.session_id (or_else limit 50)
    record_batch binding batch.id
    give (record batch { contexts = map identity_context_for_model batch.contexts })

  -- One message, or a page.
  unfoldable pub read_from :
      (agent_id target_id : String)
      → Option String
      → (after_seq : String) → ℕ
      → Act W (List Message)
  read_from agent_id target_id none after_seq limit =
      core.read_messages agent_id target_id after_seq limit
  read_from agent_id target_id (some message_id) after_seq limit = do
    message ← core.read_message agent_id target_id message_id
    give (message ∷ [])

  unfoldable pub message_read :
      (agent_id : String)
      → (target_id target message_id reply_to after_seq : Option String) → Option ℕ
      → Act W ReadResult
  message_read agent_id target_id target message_id reply_to after_seq limit = do
    demand (is_page (or_else limit 50)) limit_text
    demand (is_decimal (or_else after_seq "0"))
        "afterSeq must be a non-negative decimal integer string"
    addressed ← resolve_agent_target core agent_id target_id target
    resolved ← reply_target core agent_id target reply_to addressed
    messages ← read_from agent_id resolved message_id (or_else after_seq "0") (or_else limit 50)
    give (record { target_id = resolved; target = addressed.display; messages = messages })

  unfoldable pub task_claim : (agent_id message_id : String) → Act W Task
  task_claim agent_id message_id = core.claim_task message_id agent_id

  unfoldable pub task_list : (agent_id : String) → Option String → Act W (List Task)
  task_list agent_id target_id = core.list_tasks agent_id target_id
