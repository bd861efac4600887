-- ===== src/Wire.antt =====
-- src/native.ts: the records that cross the boundary to the native collaboration core. Sequences,
-- versions, generations and counts are decimal texts, as on the wire; times are milliseconds.
use dsh_chaos.Common.{ℕ, String, Bool, Option, List}

pub data ActorKind : Type 0 where
  user agent : ActorKind

pub record Actor : Type 0 where
  pub id : String
  pub kind : ActorKind
  pub handle : String
  pub display_name : String
  pub created_at_ms : ℕ
  pub avatar_data_url : Option String

pub data ProfileLifecycle : Type 0 where
  active archived : ProfileLifecycle

pub record Charter : Type 0 where
  pub schema_version : ℕ
  pub summary : String
  pub capabilities : List String
  pub constraints : List String

pub record Profile : Type 0 where
  pub actor : Actor
  pub workspace_path : String
  pub lifecycle : ProfileLifecycle
  pub charter : Charter
  pub version : String
  pub created_at_ms : ℕ
  pub updated_at_ms : ℕ

pub data Role : Type 0 where
  owner member : Role

pub record Membership : Type 0 where
  pub actor : Actor
  pub role : Role
  pub joined_at_ms : ℕ

pub record ThreadSummary : Type 0 where
  pub root_message_id : String
  pub thread_id : String
  pub reply_count : ℕ
  pub last_reply_at_ms : Option ℕ
  pub recent_replier_ids : List String

pub data TargetKind : Type 0 where
  channel direct thread : TargetKind

pub data Lifecycle : Type 0 where
  active archived deleted : Lifecycle

pub record Target : Type 0 where
  pub id : String
  pub kind : TargetKind
  pub name : String
  pub description : String
  pub lifecycle : Lifecycle
  pub version : String
  pub parent_target_id : Option String
  pub root_message_id : Option String
  pub created_by : String
  pub created_at_ms : ℕ
  pub updated_at_ms : ℕ
  pub archived_at_ms : Option ℕ
  pub deleted_at_ms : Option ℕ

pub record IdentityContext : Type 0 where
  pub agent : Profile
  pub target : Option Target
  pub membership_target : Option Target
  pub members : List Membership

pub record Message : Type 0 where
  pub seq : String
  pub id : String
  pub target_id : String
  pub author_id : String
  pub client_request_id : String
  pub text : String
  pub created_at_ms : ℕ

pub record SendResult : Type 0 where
  pub message : Message
  pub recipient_ids : List String
  pub wake_agent_ids : List String
  pub replayed : Bool

pub record RuntimeBinding : Type 0 where
  pub agent_id : String
  pub session_id : String
  pub generation : String
  pub provider : String
  pub model : String
  pub preset : String
  pub bound_at_ms : ℕ

pub record PendingWake : Type 0 where
  pub binding : RuntimeBinding
  pub pending_seq : String

pub record InboxEntry : Type 0 where
  pub delivery_id : String
  pub message : Message

pub record InboxBatch : Type 0 where
  pub id : Option String
  pub agent_id : String
  pub session_id : String
  pub generation : String
  pub messages : List InboxEntry
  pub contexts : List IdentityContext
  pub checked_at_ms : ℕ

pub data TaskStatus : Type 0 where
  todo in_progress in_review done : TaskStatus

pub record Task : Type 0 where
  pub message_id : String
  pub target_id : String
  pub number : String
  pub status : TaskStatus
  pub assignee_id : Option String
  pub version : String
  pub created_at_ms : ℕ
  pub updated_at_ms : ℕ
  pub anchor_text : Option String

pub data ChangeKind : Type 0 where
  actor_created agent_profile_changed target_created target_changed membership_changed : ChangeKind
  thread_follow_changed message_created task_created task_updated : ChangeKind
  activity_done_changed : ChangeKind

pub record ChangeEvent : Type 0 where
  pub seq : String
  pub kind : ChangeKind
  pub target_id : Option String
  pub entity_id : String
  pub created_at_ms : ℕ

pub record Snapshot : Type 0 where
  pub actor : Actor
  pub cursor : String
  pub targets : List Target
  pub followed_thread_ids : List String
  pub tasks : List Task

pub record MessageTail : Type 0 where
  pub count : String
  pub messages : List Message

-- One conversation of the Activity inbox; what the client only displays is left out.
pub record InboxItem : Type 0 where
  pub conversation_id : String
  pub target_kind : TargetKind
  pub title : String
  pub last_activity_at_ms : ℕ
  pub last_activity_seq : String
  pub is_done : Bool

pub record InboxPage : Type 0 where
  pub items : List InboxItem
  pub next_cursor : Option String
  pub active_count : String
