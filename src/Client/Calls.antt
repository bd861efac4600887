-- ===== src/Client/Calls.antt =====
-- src/client/data/api.ts: `ChaosClient`, one constructor for each method with its arguments, the
-- endpoint and the payload that it posts, and the two envelopes that `call` unwraps.
use dsh_chaos.Common.{ℕ, String, Option, none, some, List, [], ◌∷◌, false}
use dsh_chaos.Common.Results.{Result, ok, throws}
use dsh_chaos.Wire.{TaskStatus, todo, in_progress, in_review, done}
use dsh_chaos.Remote.Payload.{bool, num, str, arr, obj, Items, nil, cons, Fields, end, field}
use dsh_chaos.Remote.Request.{Request, InboxFilter, all_items, unread_items}
use dsh_chaos.Remote.Handler.{Answer, cancelled, success, failure, handle}

pub data Method : Type 0 where
  snapshot actors inbox_done_all agent_presets agent_profiles runtime_bindings : Method
  target_members target_memberships : (target_id : String) → Method
  channel_create : (name description : String) → Method
  channel_update : (target_id name description expected_version : String) → Method
  channel_archive channel_restore channel_delete : (target_id expected_version : String) → Method
  member_add : (target_id member_id : String) → Method
  history : (target_id after_seq : String) (limit : ℕ) → Method
  history_tail : (target_id : String) (limit : ℕ) → Method
  message_send : (target_id request_id text : String) → Method
  thread_create : (root_message_id : String) → Method
  thread_summaries : (root_message_ids : List String) → Method
  inbox_list : (limit : ℕ) (cursor : Option String) (filter : Option InboxFilter) → Method
  inbox_done : (target_id through_seq : String) → Method
  task_create : (message_id : String) → Method
  tasks : (target_id : Option String) → Method
  task_claim : (message_id : String) (actor_id : Option String) → Method
  task_unclaim : (message_id expected_version : String) → Method
  task_update_status :
      (message_id : String) (status : TaskStatus) (expected_version : String) → Method
  agent_profile agent_memberships agent_delete : (agent_id : String) → Method
  update_agent_profile : (agent_id display_name description expected_version : String) → Method
  update_agent_avatar :
      (agent_id : String) (avatar : Option String) (expected_version : String) → Method
  replace_agent_runtime :
      (agent_id provider model preset_id : String) (generation : Option String) → Method
  agent_workspace : (agent_id dir_path : String) → Method
  agent_workspace_file : (agent_id path : String) → Method
  create_agent : (display_name description provider model preset_id : String) → Method

-- A field of the payload that is a text, or one that is left out where there is none.
abbrev pub text_field : String → String → Fields → Fields
text_field name s fs = field name (str s) fs

abbrev pub given_field : String → Option String → Fields → Fields
given_field name none fs = fs
given_field name (some s) fs = field name (str s) fs

abbrev pub filter_text : InboxFilter → String
filter_text all_items = "all"
filter_text unread_items = "unread"

abbrev pub filter_field : Option InboxFilter → Fields → Fields
filter_field none fs = fs
filter_field (some f) fs = field "filter" (str (filter_text f)) fs

abbrev pub status_text : TaskStatus → String
status_text todo = "todo"
status_text in_progress = "in_progress"
status_text in_review = "in_review"
status_text done = "done"

abbrev pub text_items : List String → Items
text_items [] = nil
text_items (s ∷ ss) = cons (str s) (text_items ss)

-- The endpoint of each method.
unfoldable pub endpoint_of : Method → String
endpoint_of Method.snapshot = "snapshot"
endpoint_of Method.actors = "actors"
endpoint_of Method.inbox_done_all = "inbox.doneAll"
endpoint_of Method.agent_presets = "agent.presets"
endpoint_of Method.agent_profiles = "agent.profiles"
endpoint_of Method.runtime_bindings = "runtime.bindings"
endpoint_of (Method.target_members t) = "target.members"
endpoint_of (Method.target_memberships t) = "target.memberships"
endpoint_of (Method.channel_create n d) = "channel.create"
endpoint_of (Method.channel_update t n d v) = "channel.update"
endpoint_of (Method.channel_archive t v) = "channel.archive"
endpoint_of (Method.channel_restore t v) = "channel.restore"
endpoint_of (Method.channel_delete t v) = "channel.delete"
endpoint_of (Method.member_add t m) = "member.add"
endpoint_of (Method.history t seq n) = "history"
endpoint_of (Method.history_tail t n) = "history.tail"
endpoint_of (Method.message_send t r s) = "message.send"
endpoint_of (Method.thread_create r) = "thread.create"
endpoint_of (Method.thread_summaries rs) = "thread.summaries"
endpoint_of (Method.inbox_list n cursor f) = "inbox.list"
endpoint_of (Method.inbox_done t seq) = "inbox.done"
endpoint_of (Method.task_create m) = "task.create"
endpoint_of (Method.tasks t) = "tasks"
endpoint_of (Method.task_claim m a) = "task.claim"
endpoint_of (Method.task_unclaim m v) = "task.unclaim"
endpoint_of (Method.task_update_status m s v) = "task.update"
endpoint_of (Method.agent_profile g) = "agent.profile"
endpoint_of (Method.agent_memberships g) = "agent.memberships"
endpoint_of (Method.agent_delete g) = "agent.delete"
endpoint_of (Method.update_agent_profile g n d v) = "agent.profile.update"
endpoint_of (Method.update_agent_avatar g u v) = "agent.avatar.update"
endpoint_of (Method.replace_agent_runtime g p m q e) = "agent.runtime.replace"
endpoint_of (Method.agent_workspace g d) = "agent.workspace.list"
endpoint_of (Method.agent_workspace_file g p) = "agent.workspace.read"
endpoint_of (Method.create_agent n d p m q) = "agent.create"

-- The payload of each method, its fields in the order of the source.
unfoldable pub payload_of : Method → Fields
payload_of (Method.target_members t) = text_field "targetId" t end
payload_of (Method.target_memberships t) = text_field "targetId" t end
payload_of (Method.channel_create n d) = text_field "name" n (text_field "description" d end)
payload_of (Method.channel_update t n d v) =
    text_field "targetId" t
      (text_field "name" n (text_field "description" d (text_field "expectedVersion" v end)))
payload_of (Method.channel_archive t v) =
    text_field "targetId" t (text_field "expectedVersion" v end)
payload_of (Method.channel_restore t v) =
    text_field "targetId" t (text_field "expectedVersion" v end)
payload_of (Method.channel_delete t v) =
    text_field "targetId" t (text_field "expectedVersion" v end)
payload_of (Method.member_add t m) = text_field "targetId" t (text_field "memberId" m end)
payload_of (Method.history t seq n) =
    text_field "targetId" t (text_field "afterSeq" seq (field "limit" (num n) end))
payload_of (Method.history_tail t n) = text_field "targetId" t (field "limit" (num n) end)
payload_of (Method.message_send t r s) =
    text_field "targetId" t (text_field "requestId" r (text_field "text" s end))
payload_of (Method.thread_create r) = text_field "rootMessageId" r end
payload_of (Method.thread_summaries rs) = field "rootMessageIds" (arr (text_items rs)) end
payload_of (Method.inbox_list n cursor f) =
    field "limit" (num n) (given_field "cursor" cursor (filter_field f end))
payload_of (Method.inbox_done t seq) = text_field "targetId" t (text_field "throughSeq" seq end)
payload_of (Method.task_create m) = text_field "messageId" m end
payload_of (Method.tasks t) = given_field "targetId" t end
payload_of (Method.task_claim m a) = text_field "messageId" m (given_field "actorId" a end)
payload_of (Method.task_unclaim m v) = text_field "messageId" m (text_field "expectedVersion" v end)
payload_of (Method.task_update_status m s v) =
    text_field "messageId" m
      (text_field "status" (status_text s) (text_field "expectedVersion" v end))
payload_of (Method.agent_profile g) = text_field "agentId" g end
payload_of (Method.agent_memberships g) = text_field "agentId" g end
payload_of (Method.agent_delete g) = text_field "agentId" g end
payload_of (Method.update_agent_profile g n d v) = text_field "agentId" g (
    text_field "displayName" n
      (text_field "description" d (text_field "expectedProfileVersion" v end)))
payload_of (Method.update_agent_avatar g u v) =
    text_field "agentId" g
      (given_field "avatarDataUrl" u (text_field "expectedProfileVersion" v end))
payload_of (Method.replace_agent_runtime g p m q e) = text_field "agentId" g (
    text_field "provider" p
      (text_field "model" m (text_field "presetId" q (given_field "expectedGeneration" e end))))
payload_of (Method.agent_workspace g d) =
    text_field "agentId" g (text_field "dirPath" d (field "includeHidden" (bool false) end))
payload_of (Method.agent_workspace_file g p) = text_field "agentId" g (text_field "path" p end)
payload_of (Method.create_agent n d p m q) = text_field "displayName" n (
    text_field "description" d
      (text_field "provider" p (text_field "model" m (text_field "presetId" q end))))
payload_of _ = end

-- `call`: the transport's envelope first, which a cancelled request fails, and then the domain's.
-- An error keeps its message and loses its code.
unfoldable pub unwrap : {R : Type 0} → Answer R → Result (Option R)
unwrap cancelled = throws "cancelled"
unwrap (success r) = ok r
unwrap (failure e) = throws e.message

-- A method of the client, over the host's handler on an API `api`, with a signal that is not aborted.
unfoldable pub post :
    {R S : Type 0} → (Request → S → Result R × S) → String → Method → S → Result (Option R) × S
post api actor_id m s =
    let (answer, after) = handle api actor_id (endpoint_of m) (obj (payload_of m)) false s in
    (unwrap answer, after)
