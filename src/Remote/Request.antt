-- ===== src/Remote/Request.antt =====
-- src/remote.ts: `CollabRemoteApi` as data, one constructor for each method with its arguments,
-- and the labels of the endpoint switch.
use dsh_chaos.Common.{ℕ, String, Bool, Option, List, [], ◌∷◌}
use dsh_chaos.Common.Maps.{Map}
use dsh_chaos.Wire.{TaskStatus}

pub data InboxFilter : Type 0 where
  all_items unread_items : InboxFilter

pub data Request : Type 0 where
  snapshot list_actors inbox_done_all agent_profiles : (actor_id : String) → Request
  list_agent_presets list_runtime_bindings : Request
  list_target_members list_target_memberships : (actor_id target_id : String) → Request
  list_changes : (actor_id after_seq : String) (limit : ℕ) → Request
  read_messages : (actor_id target_id after_seq : String) (limit : ℕ) → Request
  read_messages_tail : (actor_id target_id : String) (limit : ℕ) → Request
  inbox_list :
      (actor_id : String) (limit : ℕ) (cursor : Option String) (filter : Option InboxFilter)
      → Request
  inbox_done : (actor_id target_id through_seq : String) → Request
  list_tasks : (actor_id : String) (target_id : Option String) → Request
  agent_profile agent_memberships : (viewer_id agent_id : String) → Request
  update_agent_profile :
      (viewer_id agent_id display_name description expected_version : String) → Request
  update_agent_avatar :
      (viewer_id agent_id : String) (avatar : Option String) (expected_version : String) → Request
  replace_agent_runtime :
      (viewer_id agent_id provider model preset_id : String) (generation : Option String) → Request
  agent_workspace : (viewer_id agent_id dir_path : String) (include_hidden : Bool) → Request
  agent_workspace_file : (viewer_id agent_id path : String) → Request
  create_configured_agent : (display_name description provider model preset_id : String) → Request
  delete_agent : (agent_id : String) → Request
  create_channel : (name description creator_id : String) → Request
  update_channel : (target_id actor_id name description expected_version : String) → Request
  archive_channel restore_channel delete_channel :
      (target_id actor_id expected_version : String) → Request
  create_direct : (actor_id peer_id : String) → Request
  create_thread : (root_message_id actor_id : String) → Request
  thread_summaries : (actor_id : String) (root_message_ids : List String) → Request
  follow_thread unfollow_thread : (thread_target_id actor_id : String) → Request
  add_member : (target_id member_id added_by : String) → Request
  send_message : (target_id author_id client_request_id text : String) → Request
  create_task claim_task : (message_id actor_id : String) → Request
  unclaim_task : (message_id actor_id expected_version : String) → Request
  update_task_status :
      (message_id actor_id : String) (status : TaskStatus) (expected_version : String) → Request

pub data Endpoint : Type 0 where
  snapshot actors target_members target_memberships changes history history_tail : Endpoint
  inbox_list inbox_done_all inbox_done tasks agent_presets agent_profile agent_profiles : Endpoint
  agent_profile_update agent_avatar_update agent_runtime_replace agent_memberships : Endpoint
  agent_workspace_list agent_workspace_read agent_create agent_delete runtime_bindings : Endpoint
  channel_create channel_update channel_archive channel_restore channel_delete : Endpoint
  direct_create thread_create thread_summaries thread_follow thread_unfollow : Endpoint
  member_add message_send task_create task_claim task_unclaim task_update : Endpoint

abbrev pub endpoints : Map Endpoint
endpoints =
    ("snapshot", Endpoint.snapshot)
    ∷ ("actors", Endpoint.actors)
    ∷ ("target.members", Endpoint.target_members)
    ∷ ("target.memberships", Endpoint.target_memberships)
    ∷ ("changes", Endpoint.changes)
    ∷ ("history", Endpoint.history)
    ∷ ("history.tail", Endpoint.history_tail)
    ∷ ("inbox.list", Endpoint.inbox_list)
    ∷ ("inbox.doneAll", Endpoint.inbox_done_all)
    ∷ ("inbox.done", Endpoint.inbox_done)
    ∷ ("tasks", Endpoint.tasks)
    ∷ ("agent.presets", Endpoint.agent_presets)
    ∷ ("agent.profile", Endpoint.agent_profile)
    ∷ ("agent.profiles", Endpoint.agent_profiles)
    ∷ ("agent.profile.update", Endpoint.agent_profile_update)
    ∷ ("agent.avatar.update", Endpoint.agent_avatar_update)
    ∷ ("agent.runtime.replace", Endpoint.agent_runtime_replace)
    ∷ ("agent.memberships", Endpoint.agent_memberships)
    ∷ ("agent.workspace.list", Endpoint.agent_workspace_list)
    ∷ ("agent.workspace.read", Endpoint.agent_workspace_read)
    ∷ ("agent.create", Endpoint.agent_create)
    ∷ ("agent.delete", Endpoint.agent_delete)
    ∷ ("runtime.bindings", Endpoint.runtime_bindings)
    ∷ ("channel.create", Endpoint.channel_create)
    ∷ ("channel.update", Endpoint.channel_update)
    ∷ ("channel.archive", Endpoint.channel_archive)
    ∷ ("channel.restore", Endpoint.channel_restore)
    ∷ ("channel.delete", Endpoint.channel_delete)
    ∷ ("direct.create", Endpoint.direct_create)
    ∷ ("thread.create", Endpoint.thread_create)
    ∷ ("thread.summaries", Endpoint.thread_summaries)
    ∷ ("thread.follow", Endpoint.thread_follow)
    ∷ ("thread.unfollow", Endpoint.thread_unfollow)
    ∷ ("member.add", Endpoint.member_add)
    ∷ ("message.send", Endpoint.message_send)
    ∷ ("task.create", Endpoint.task_create)
    ∷ ("task.claim", Endpoint.task_claim)
    ∷ ("task.unclaim", Endpoint.task_unclaim)
    ∷ ("task.update", Endpoint.task_update)
    ∷ []
