-- ===== src/Service/Reads.antt =====
-- src/index.ts: the operations that forward one call to the core and publish nothing.
use dsh_chaos.Common.{ℕ, String, Option, List}
use dsh_chaos.Common.Acts.{Act}
use dsh_chaos.Wire.{
  Actor, IdentityContext, ThreadSummary, RuntimeBinding, PendingWake, InboxBatch, Message,
  MessageTail, InboxPage, Membership, Snapshot, ChangeEvent, Task,
}
use dsh_chaos.Remote.Request.{InboxFilter}
use dsh_chaos.Service.Core.{Core, AgentMembership}
use dsh_chaos.Service.State.{Service, require_handle}

module _ {W : Type 0} (core : Core W) where
  unfoldable pub thread_summaries :
      (actor_id : String) → List String → Act (Service W) (List ThreadSummary)
  thread_summaries a rs = require_handle (core.thread_summaries a rs)

  unfoldable pub bind_runtime :
      (agent_id session_id provider model preset : String) → Act (Service W) RuntimeBinding
  bind_runtime a s p m q = require_handle (core.bind_runtime a s p m q)

  unfoldable pub runtime_binding : (agent_id : String) → Act (Service W) (Option RuntimeBinding)
  runtime_binding a = require_handle (core.runtime_binding a)

  unfoldable pub update_runtime_preset :
      (agent_id generation session_id preset : String) → Act (Service W) RuntimeBinding
  update_runtime_preset a g s p = require_handle (core.update_runtime_preset a g s p)

  unfoldable pub runtime_binding_for_session :
      (session_id : String) → Act (Service W) (Option RuntimeBinding)
  runtime_binding_for_session s = require_handle (core.runtime_binding_for_session s)

  unfoldable pub list_runtime_bindings : Act (Service W) (List RuntimeBinding)
  list_runtime_bindings = require_handle core.list_runtime_bindings

  unfoldable pub agent_memberships :
      (viewer_id agent_id : String) → Act (Service W) (List AgentMembership)
  agent_memberships v a = require_handle (core.list_agent_memberships v a)

  unfoldable pub identity_context :
      (agent_id : String) → Option String → Act (Service W) IdentityContext
  identity_context a t = require_handle (core.identity_context a t)

  unfoldable pub list_pending_wakes : (limit : ℕ) → Act (Service W) (List PendingWake)
  list_pending_wakes n = require_handle (core.list_pending_wakes n)

  unfoldable pub mark_notified :
      (agent_id generation session_id pending_seq : String) → Act (Service W) (Unit {0})
  mark_notified a g s q = require_handle (core.mark_notified a g s q)

  unfoldable pub rearm_runtime_wake :
      (agent_id generation session_id : String) → Act (Service W) (Unit {0})
  rearm_runtime_wake a g s = require_handle (core.rearm_runtime_wake a g s)

  unfoldable pub check_inbox :
      (agent_id generation session_id : String) (limit : ℕ) → Act (Service W) InboxBatch
  check_inbox a g s n = require_handle (core.check_inbox a g s n)

  unfoldable pub mark_model_seen :
      (batch_id agent_id generation session_id : String) → Act (Service W) (Unit {0})
  mark_model_seen b a g s = require_handle (core.mark_model_seen b a g s)

  unfoldable pub read_message : (actor_id target_id message_id : String) → Act (Service W) Message
  read_message a t m = require_handle (core.read_message a t m)

  unfoldable pub read_messages :
      (actor_id target_id after_seq : String) (limit : ℕ) → Act (Service W) (List Message)
  read_messages a t q n = require_handle (core.read_messages a t q n)

  unfoldable pub read_messages_tail :
      (actor_id target_id : String) (limit : ℕ) → Act (Service W) MessageTail
  read_messages_tail a t n = require_handle (core.read_messages_tail a t n)

  unfoldable pub inbox_list :
      (actor_id : String) (limit : ℕ)
      → Option String
      → Option InboxFilter
      → Act (Service W) InboxPage
  inbox_list a n c f = require_handle (core.inbox_list a n c f)

  unfoldable pub list_actors : (actor_id : String) → Act (Service W) (List Actor)
  list_actors a = require_handle (core.list_actors a)

  unfoldable pub list_target_members : (actor_id target_id : String) → Act (Service W) (List Actor)
  list_target_members a t = require_handle (core.list_target_members a t)

  unfoldable pub list_target_memberships :
      (actor_id target_id : String) → Act (Service W) (List Membership)
  list_target_memberships a t = require_handle (core.list_target_memberships a t)

  unfoldable pub snapshot : (actor_id : String) → Act (Service W) Snapshot
  snapshot a = require_handle (core.snapshot a)

  unfoldable pub list_changes :
      (actor_id after_seq : String) (limit : ℕ) → Act (Service W) (List ChangeEvent)
  list_changes a q n = require_handle (core.list_changes a q n)

  unfoldable pub prune_changes_before : (before_ms : ℕ) → Act (Service W) String
  prune_changes_before n = require_handle (core.prune_changes_before n)

  unfoldable pub list_tasks : (actor_id : String) → Option String → Act (Service W) (List Task)
  list_tasks a t = require_handle (core.list_tasks a t)
