-- ===== src/Service/Core.antt =====
-- What src/index.ts is built over, as operations on an outer state `W`: the native handle, and the
-- Agent registry, the Preset roster and the platform.
use dsh_chaos.Common.{ℕ, String, Option, List}
use dsh_chaos.Common.Results.{Result}
use dsh_chaos.Common.Acts.{Act}
use dsh_chaos.Wire.{
  Actor, Profile, Charter, IdentityContext, Target, ThreadSummary, SendResult, RuntimeBinding,
  PendingWake, InboxBatch, Message, MessageTail, InboxPage, Membership, Snapshot, ChangeEvent, Task,
  TaskStatus, Role,
}
use dsh_chaos.Remote.Request.{InboxFilter}
use dsh_chaos.Runtime.Host.{Agent, AgentOptions}

pub record AgentMembership : Type 0 where
  pub target : Target
  pub role : Role
  pub joined_at_ms : ℕ

-- `NativeCollabHandle`.
pub record Core (W : Type 0) : Type 0 where
  pub close : Act W (Unit {0})
  pub create_user : (handle display_name : String) → Act W Actor
  pub ensure_user : (handle display_name : String) → Act W Actor
  pub create_agent : (handle display_name workspace_path : String) → Act W Actor
  pub create_agent_profile : (handle display_name workspace_path : String) → Charter → Act W Profile
  pub agent_profile : String → Act W Profile
  pub list_agent_profiles : String → Act W (List Profile)
  pub update_agent_profile :
      (agent_id display_name : String) → Charter → (expected_version : String) → Act W Profile
  pub update_agent_avatar : String → Option String → (expected_version : String) → Act W Profile
  pub identity_context : String → Option String → Act W IdentityContext
  pub delete_agent : String → Act W (Unit {0})
  pub create_channel : (name description creator_id : String) → Act W Target
  pub update_channel :
      (target_id actor_id name description expected_version : String) → Act W Target
  pub archive_channel : (target_id actor_id expected_version : String) → Act W Target
  pub restore_channel : (target_id actor_id expected_version : String) → Act W Target
  pub delete_channel : (target_id actor_id expected_version : String) → Act W Target
  pub create_direct : (actor_id peer_id : String) → Act W Target
  pub create_thread : (root_message_id actor_id : String) → Act W Target
  pub thread_summaries : String → List String → Act W (List ThreadSummary)
  pub follow_thread : (thread_target_id actor_id : String) → Act W (Unit {0})
  pub unfollow_thread : (thread_target_id actor_id : String) → Act W (Unit {0})
  pub add_member : (target_id actor_id added_by : String) → Act W (Unit {0})
  pub send_message : (target_id author_id client_request_id text : String) → Act W SendResult
  pub bind_runtime : (agent_id session_id provider model preset : String) → Act W RuntimeBinding
  pub runtime_binding : String → Act W (Option RuntimeBinding)
  pub update_runtime_preset :
      (agent_id generation session_id preset : String) → Act W RuntimeBinding
  pub runtime_binding_for_session : String → Act W (Option RuntimeBinding)
  pub list_runtime_bindings : Act W (List RuntimeBinding)
  pub list_pending_wakes : ℕ → Act W (List PendingWake)
  pub mark_notified : (agent_id generation session_id pending_seq : String) → Act W (Unit {0})
  pub rearm_runtime_wake : (agent_id generation session_id : String) → Act W (Unit {0})
  pub check_inbox : (agent_id generation session_id : String) → ℕ → Act W InboxBatch
  pub mark_model_seen : (batch_id agent_id generation session_id : String) → Act W (Unit {0})
  pub read_message : (actor_id target_id message_id : String) → Act W Message
  pub read_messages : (actor_id target_id after_seq : String) → ℕ → Act W (List Message)
  pub read_messages_tail : (actor_id target_id : String) → ℕ → Act W MessageTail
  pub inbox_list : String → ℕ → Option String → Option InboxFilter → Act W InboxPage
  pub inbox_done : (actor_id target_id through_seq : String) → Act W (Unit {0})
  pub inbox_done_all : String → Act W ℕ
  pub list_actors : String → Act W (List Actor)
  pub list_target_members : (actor_id target_id : String) → Act W (List Actor)
  pub list_target_memberships : (actor_id target_id : String) → Act W (List Membership)
  pub list_agent_memberships : (actor_id agent_id : String) → Act W (List AgentMembership)
  pub snapshot : String → Act W Snapshot
  pub list_changes : (actor_id after_seq : String) → ℕ → Act W (List ChangeEvent)
  pub prune_changes_before : ℕ → Act W String
  pub create_task : (message_id actor_id : String) → Act W Task
  pub claim_task : (message_id actor_id : String) → Act W Task
  pub list_tasks : String → Option String → Act W (List Task)
  pub unclaim_task : (message_id actor_id expected_version : String) → Act W Task
  pub update_task_status :
      (message_id actor_id : String) → TaskStatus → (expected_version : String) → Act W Task

pub data Trust : Type 0 where
  system user : Trust

-- A row of the Preset roster.
pub record Preset : Type 0 where
  pub id : String
  pub trust : Trust
  pub name : Option String
  pub description : Option String
  pub broken : Option String

pub record Platform (W : Type 0) : Type 0 where
  -- `ctx.agentPresets`.
  pub resolve_preset : String → Act W Preset
  pub list_presets : Act W (List Preset)
  pub default_preset : String
  -- `ctx.agents` and `ctx.permissionPresets`.
  pub create_agent : (session_id cwd preset : String) → Option AgentOptions → Act W Agent
  pub resume_agent : (session_id preset : String) → AgentOptions → Act W Agent
  pub dispose : Agent → Act W (Unit {0})
  pub set_permission : Agent → String → Act W (Unit {0})
  pub append_preset_selected : Agent → String → Act W (Unit {0})
  -- `dshHome()`, `join`, `randomUUID()` and `Date.now()`.
  pub home : String
  pub join : String → String → String
  pub random_uuid : Act W String
  pub now_ms : Act W ℕ
  -- `loadNativeModule().openCollab(path)`, and the lookup of the OS user, if there is one.
  pub open_collab : String → Act W (Unit {0})
  pub user_name : Option String
  pub to_lower_case : String → String
  -- The scan of the delivery that is under way, as it ends.
  pub drain_ended : Act W (Unit {0})
  -- One listener's call, which may change the set of listeners.
  pub notify : (listener : ℕ) → List ℕ → W → (Result (Unit {0}) × List ℕ) × W
