-- ===== src/Remote/Dispatch.antt =====
-- src/remote.ts: `dispatchRemote`, up to the one call that each endpoint makes.
use dsh_chaos.Common.{String, false, Option, none, some, [], ◌∷◌, if◌then◌else◌, or_else, ◌==◌}
use dsh_chaos.Common.Maps.{lookup}
use dsh_chaos.Common.Texts.{concat}
use dsh_chaos.Common.Results.{Result, ok, throws, ◌>>=◌}
use dsh_chaos.Remote.Payload.{
  Value, undefined, str, Fields, invalid, fields_of, required_string, optional_string, path_string,
  boolean_value, decimal_string, integer, string_array, task_status,
}
use dsh_chaos.Remote.Request.{Request, Endpoint, endpoints, InboxFilter, all_items, unread_items}

-- The check of `filter` in `inbox.list`.
unfoldable pub inbox_filter : Option String → Result (Option InboxFilter)
inbox_filter none = ok none
inbox_filter (some s) =
    if s == "all"
    then ok (some all_items)
    else if s == "unread"
    then ok (some unread_items)
    else throws (invalid ("filter must be 'unread' or 'all', got '" ∷ s ∷ "'" ∷ []))

-- One case of the switch: the arguments are read in the order of the source.
module _ (actor_id : String) (input : Fields) where
  abbrev text : String → Result String
  text = required_string input

  abbrev version : String → Result String
  version name = decimal_string input name undefined

  unfoldable pub dispatch_endpoint : Endpoint → Result Request
  dispatch_endpoint Endpoint.snapshot = ok (Request.snapshot actor_id)
  dispatch_endpoint Endpoint.actors = ok (Request.list_actors actor_id)
  dispatch_endpoint Endpoint.target_members = do
    target ← text "targetId"
    ok (Request.list_target_members actor_id target)
  dispatch_endpoint Endpoint.target_memberships = do
    target ← text "targetId"
    ok (Request.list_target_memberships actor_id target)
  dispatch_endpoint Endpoint.changes = do
    after ← decimal_string input "afterSeq" (str "0")
    limit ← integer input "limit" 100 500 "500"
    ok (Request.list_changes actor_id after limit)
  dispatch_endpoint Endpoint.history = do
    target ← text "targetId"
    after ← decimal_string input "afterSeq" (str "0")
    limit ← integer input "limit" 50 100 "100"
    ok (Request.read_messages actor_id target after limit)
  dispatch_endpoint Endpoint.history_tail = do
    target ← text "targetId"
    limit ← integer input "limit" 10 100 "100"
    ok (Request.read_messages_tail actor_id target limit)
  dispatch_endpoint Endpoint.inbox_list = do
    given ← optional_string input "filter"
    filter ← inbox_filter given
    limit ← integer input "limit" 20 50 "50"
    cursor ← optional_string input "cursor"
    ok (Request.inbox_list actor_id limit cursor filter)
  dispatch_endpoint Endpoint.inbox_done_all = ok (Request.inbox_done_all actor_id)
  dispatch_endpoint Endpoint.inbox_done = do
    target ← text "targetId"
    through ← version "throughSeq"
    ok (Request.inbox_done actor_id target through)
  dispatch_endpoint Endpoint.tasks = do
    target ← optional_string input "targetId"
    ok (Request.list_tasks actor_id target)
  dispatch_endpoint Endpoint.agent_presets = ok Request.list_agent_presets
  dispatch_endpoint Endpoint.agent_profile = do
    agent ← text "agentId"
    ok (Request.agent_profile actor_id agent)
  dispatch_endpoint Endpoint.agent_profiles = ok (Request.agent_profiles actor_id)
  dispatch_endpoint Endpoint.agent_profile_update = do
    agent ← text "agentId"
    display_name ← text "displayName"
    description ← text "description"
    expected ← version "expectedProfileVersion"
    ok (Request.update_agent_profile actor_id agent display_name description expected)
  dispatch_endpoint Endpoint.agent_avatar_update = do
    agent ← text "agentId"
    avatar ← optional_string input "avatarDataUrl"
    expected ← version "expectedProfileVersion"
    ok (Request.update_agent_avatar actor_id agent avatar expected)
  dispatch_endpoint Endpoint.agent_runtime_replace = do
    agent ← text "agentId"
    provider ← text "provider"
    model ← text "model"
    preset ← text "presetId"
    generation ← optional_string input "expectedGeneration"
    ok (Request.replace_agent_runtime actor_id agent provider model preset generation)
  dispatch_endpoint Endpoint.agent_memberships = do
    agent ← text "agentId"
    ok (Request.agent_memberships actor_id agent)
  dispatch_endpoint Endpoint.agent_workspace_list = do
    agent ← text "agentId"
    dir ← path_string input "dirPath"
    hidden ← boolean_value input "includeHidden" false
    ok (Request.agent_workspace actor_id agent dir hidden)
  dispatch_endpoint Endpoint.agent_workspace_read = do
    agent ← text "agentId"
    path ← text "path"
    ok (Request.agent_workspace_file actor_id agent path)
  dispatch_endpoint Endpoint.agent_create = do
    display_name ← text "displayName"
    description ← text "description"
    provider ← text "provider"
    model ← text "model"
    preset ← text "presetId"
    ok (Request.create_configured_agent display_name description provider model preset)
  dispatch_endpoint Endpoint.agent_delete = do
    agent ← text "agentId"
    ok (Request.delete_agent agent)
  dispatch_endpoint Endpoint.runtime_bindings = ok Request.list_runtime_bindings
  dispatch_endpoint Endpoint.channel_create = do
    name ← text "name"
    description ← text "description"
    ok (Request.create_channel name description actor_id)
  dispatch_endpoint Endpoint.channel_update = do
    target ← text "targetId"
    name ← text "name"
    description ← text "description"
    expected ← version "expectedVersion"
    ok (Request.update_channel target actor_id name description expected)
  dispatch_endpoint Endpoint.channel_archive = do
    target ← text "targetId"
    expected ← version "expectedVersion"
    ok (Request.archive_channel target actor_id expected)
  dispatch_endpoint Endpoint.channel_restore = do
    target ← text "targetId"
    expected ← version "expectedVersion"
    ok (Request.restore_channel target actor_id expected)
  dispatch_endpoint Endpoint.channel_delete = do
    target ← text "targetId"
    expected ← version "expectedVersion"
    ok (Request.delete_channel target actor_id expected)
  dispatch_endpoint Endpoint.direct_create = do
    peer ← text "peerId"
    ok (Request.create_direct actor_id peer)
  dispatch_endpoint Endpoint.thread_create = do
    root ← text "rootMessageId"
    ok (Request.create_thread root actor_id)
  dispatch_endpoint Endpoint.thread_summaries = do
    roots ← string_array input "rootMessageIds" 100 "100"
    ok (Request.thread_summaries actor_id roots)
  dispatch_endpoint Endpoint.thread_follow = do
    thread ← text "threadTargetId"
    ok (Request.follow_thread thread actor_id)
  dispatch_endpoint Endpoint.thread_unfollow = do
    thread ← text "threadTargetId"
    ok (Request.unfollow_thread thread actor_id)
  dispatch_endpoint Endpoint.member_add = do
    target ← text "targetId"
    member ← text "memberId"
    ok (Request.add_member target member actor_id)
  dispatch_endpoint Endpoint.message_send = do
    target ← text "targetId"
    request ← text "requestId"
    body ← text "text"
    ok (Request.send_message target actor_id request body)
  dispatch_endpoint Endpoint.task_create = do
    message ← text "messageId"
    ok (Request.create_task message actor_id)
  dispatch_endpoint Endpoint.task_claim = do
    message ← text "messageId"
    assignee ← optional_string input "actorId"
    ok (Request.claim_task message (or_else assignee actor_id))
  dispatch_endpoint Endpoint.task_unclaim = do
    message ← text "messageId"
    expected ← version "expectedVersion"
    ok (Request.unclaim_task message actor_id expected)
  dispatch_endpoint Endpoint.task_update = do
    message ← text "messageId"
    status ← task_status input
    expected ← version "expectedVersion"
    ok (Request.update_task_status message actor_id status expected)

-- `dispatchRemote`: the payload is checked before the endpoint is.
unfoldable pub dispatch : String → String → Value → Result Request
dispatch actor_id endpoint payload = do
  input ← fields_of payload
  elim (lookup endpoint endpoints) [
    | some e ↦ dispatch_endpoint actor_id input e
    | none ↦ throws (concat ("[not_found] unknown dsh-chaos endpoint '" ∷ endpoint ∷ "'" ∷ []))
  ]
