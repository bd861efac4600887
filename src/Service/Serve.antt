-- ===== src/Service/Serve.antt =====
-- src/index.ts as the API of src/remote.ts: what each call of the API runs, and its answer.
use dsh_chaos.Common.{ℕ, String, Bool, List}
use dsh_chaos.Common.Acts.{Act, give, ◌>>=◌}
use dsh_chaos.Wire.{
  Actor, Target, Message, MessageTail, InboxPage, Membership, Snapshot, ChangeEvent, Task,
  SendResult, ThreadSummary, RuntimeBinding,
}
use dsh_chaos.Remote.Request.{Request}
use dsh_chaos.Workspace.Files.{Files}
use dsh_chaos.Workspace.Paths.{Entry}
use dsh_chaos.Workspace.Preview.{Preview}
use dsh_chaos.Service.Core.{Core, Platform, AgentMembership}
use dsh_chaos.Service.State.{Service}
use dsh_chaos.Service.Writes
use dsh_chaos.Service.Reads
use dsh_chaos.Service.Agents.{AgentProfile, CreatedAgent, PresetSummary}
use dsh_chaos.Service.Agents

-- The answers of the API, one constructor for each type.
pub data Reply : Type 0 where
  nothing : Reply
  the_snapshot : Snapshot → Reply
  the_actors : List Actor → Reply
  the_count : ℕ → Reply
  the_presets : List PresetSummary → Reply
  the_bindings : List RuntimeBinding → Reply
  the_binding : RuntimeBinding → Reply
  the_members : List Membership → Reply
  the_changes : List ChangeEvent → Reply
  the_messages : List Message → Reply
  the_tail : MessageTail → Reply
  the_page : InboxPage → Reply
  the_tasks : List Task → Reply
  the_task : Task → Reply
  the_profile : AgentProfile → Reply
  the_profiles : List AgentProfile → Reply
  the_memberships : List AgentMembership → Reply
  the_entries : List Entry → Reply
  the_file : Preview → Reply
  the_created : CreatedAgent → Reply
  the_target : Target → Reply
  the_summaries : List ThreadSummary → Reply
  the_sent : SendResult → Reply

unfoldable pub as_reply : {W A : Type 0} → (A → Reply) → Act (Service W) A → Act (Service W) Reply
as_reply f m = m >>= λ a. give (f a)

module _ {W Handle : Type 0} (core : Core W) (platform : Platform W) (files : Files W Handle)
    (instructions : String) (compare_names : String → String → Bool) (sep_char : ℕ) where
  unfoldable pub serve : Request → Act (Service W) Reply
  serve (Request.snapshot a) = as_reply the_snapshot (Reads.snapshot core a)
  serve (Request.list_actors a) = as_reply the_actors (Reads.list_actors core a)
  serve (Request.inbox_done_all a) = as_reply the_count (Writes.inbox_done_all core platform a)
  serve (Request.agent_profiles v) =
      as_reply the_profiles
        (Agents.agent_profiles core platform files instructions compare_names sep_char v)
  serve Request.list_agent_presets =
      as_reply the_presets
        (Agents.list_agent_presets core platform files instructions compare_names sep_char)
  serve Request.list_runtime_bindings = as_reply the_bindings (Reads.list_runtime_bindings core)
  serve (Request.list_target_members a t) = as_reply the_actors (Reads.list_target_members core a t)
  serve (Request.list_target_memberships a t) =
      as_reply the_members (Reads.list_target_memberships core a t)
  serve (Request.list_changes a q n) = as_reply the_changes (Reads.list_changes core a q n)
  serve (Request.read_messages a t q n) = as_reply the_messages (Reads.read_messages core a t q n)
  serve (Request.read_messages_tail a t n) = as_reply the_tail (Reads.read_messages_tail core a t n)
  serve (Request.inbox_list a n c f) = as_reply the_page (Reads.inbox_list core a n c f)
  serve (Request.inbox_done a t q) = as_reply (λ _. nothing) (Writes.inbox_done core platform a t q)
  serve (Request.list_tasks a t) = as_reply the_tasks (Reads.list_tasks core a t)
  serve (Request.agent_profile v g) =
      as_reply the_profile
        (Agents.agent_profile core platform files instructions compare_names sep_char v g)
  serve (Request.agent_memberships v g) =
      as_reply the_memberships (Reads.agent_memberships core v g)
  serve (Request.update_agent_profile v g n d x) = as_reply the_profile (
      Agents.update_agent_profile core platform files instructions compare_names sep_char v g n d x)
  serve (Request.update_agent_avatar v g u x) =
      as_reply the_profile
        (Agents.update_agent_avatar core platform files instructions compare_names sep_char v g u x)
  serve (Request.replace_agent_runtime v g p m q e) = as_reply the_binding (
      Agents.replace_agent_runtime core platform files instructions compare_names sep_char v g p m q
        e)
  serve (Request.agent_workspace v g d h) =
      as_reply the_entries
        (Agents.agent_workspace core platform files instructions compare_names sep_char v g d h)
  serve (Request.agent_workspace_file v g p) =
      as_reply the_file
        (Agents.agent_workspace_file core platform files instructions compare_names sep_char v g p)
  serve (Request.create_configured_agent n d p m q) = as_reply the_created (
      Agents.create_configured_agent core platform files instructions compare_names sep_char n d p m
        q)
  serve (Request.delete_agent g) =
      as_reply (λ _. nothing)
        (Agents.delete_agent core platform files instructions compare_names sep_char g)
  serve (Request.create_channel n d a) =
      as_reply the_target (Writes.create_channel core platform n d a)
  serve (Request.update_channel t a n d v) =
      as_reply the_target (Writes.update_channel core platform t a n d v)
  serve (Request.archive_channel t a v) =
      as_reply the_target (Writes.archive_channel core platform t a v)
  serve (Request.restore_channel t a v) =
      as_reply the_target (Writes.restore_channel core platform t a v)
  serve (Request.delete_channel t a v) =
      as_reply the_target (Writes.delete_channel core platform t a v)
  serve (Request.create_direct a p) = as_reply the_target (Writes.create_direct core platform a p)
  serve (Request.create_thread r a) = as_reply the_target (Writes.create_thread core platform r a)
  serve (Request.thread_summaries a rs) = as_reply the_summaries (Reads.thread_summaries core a rs)
  serve (Request.follow_thread t a) =
      as_reply (λ _. nothing) (Writes.follow_thread core platform t a)
  serve (Request.unfollow_thread t a) =
      as_reply (λ _. nothing) (Writes.unfollow_thread core platform t a)
  serve (Request.add_member t m b) = as_reply (λ _. nothing) (Writes.add_member core platform t m b)
  serve (Request.send_message t a r x) =
      as_reply the_sent
        (Agents.send_message core platform files instructions compare_names sep_char t a r x)
  serve (Request.create_task m a) = as_reply the_task (Writes.create_task core platform m a)
  serve (Request.claim_task m a) = as_reply the_task (Writes.claim_task core platform m a)
  serve (Request.unclaim_task m a v) = as_reply the_task (Writes.unclaim_task core platform m a v)
  serve (Request.update_task_status m a st v) =
      as_reply the_task (Writes.update_task_status core platform m a st v)
