-- ===== src/Client/Meaning.antt =====
-- What a call of the browser stands for: the one method of the host's API, with the principal
-- filled in, and the arguments that the host accepts.
use dsh_chaos.Common.{
  ℕ, String, Bool, true, not, ◌&&◌, Option, none, some, List, [], ◌∷◌, leb, length, or_else, false,
}
use dsh_chaos.Common.Texts.{is_empty}
use dsh_chaos.Remote.Payload.{is_blank, is_decimal}
use dsh_chaos.Remote.Request.{Request}
use dsh_chaos.Client.Calls.{Method}

unfoldable pub request_of : String → Method → Request
request_of a Method.snapshot = Request.snapshot a
request_of a Method.actors = Request.list_actors a
request_of a Method.inbox_done_all = Request.inbox_done_all a
request_of a Method.agent_presets = Request.list_agent_presets
request_of a Method.agent_profiles = Request.agent_profiles a
request_of a Method.runtime_bindings = Request.list_runtime_bindings
request_of a (Method.target_members t) = Request.list_target_members a t
request_of a (Method.target_memberships t) = Request.list_target_memberships a t
request_of a (Method.channel_create n d) = Request.create_channel n d a
request_of a (Method.channel_update t n d v) = Request.update_channel t a n d v
request_of a (Method.channel_archive t v) = Request.archive_channel t a v
request_of a (Method.channel_restore t v) = Request.restore_channel t a v
request_of a (Method.channel_delete t v) = Request.delete_channel t a v
request_of a (Method.member_add t m) = Request.add_member t m a
request_of a (Method.history t seq n) = Request.read_messages a t seq n
request_of a (Method.history_tail t n) = Request.read_messages_tail a t n
request_of a (Method.message_send t r s) = Request.send_message t a r s
request_of a (Method.thread_create r) = Request.create_thread r a
request_of a (Method.thread_summaries rs) = Request.thread_summaries a rs
request_of a (Method.inbox_list n cursor f) = Request.inbox_list a n cursor f
request_of a (Method.inbox_done t seq) = Request.inbox_done a t seq
request_of a (Method.task_create m) = Request.create_task m a
request_of a (Method.tasks t) = Request.list_tasks a t
request_of a (Method.task_claim m b) = Request.claim_task m (or_else b a)
request_of a (Method.task_unclaim m v) = Request.unclaim_task m a v
request_of a (Method.task_update_status m s v) = Request.update_task_status m a s v
request_of a (Method.agent_profile g) = Request.agent_profile a g
request_of a (Method.agent_memberships g) = Request.agent_memberships a g
request_of a (Method.agent_delete g) = Request.delete_agent g
request_of a (Method.update_agent_profile g n d v) = Request.update_agent_profile a g n d v
request_of a (Method.update_agent_avatar g u v) = Request.update_agent_avatar a g u v
request_of a (Method.replace_agent_runtime g p m q e) = Request.replace_agent_runtime a g p m q e
request_of a (Method.agent_workspace g d) = Request.agent_workspace a g d false
request_of a (Method.agent_workspace_file g p) = Request.agent_workspace_file a g p
request_of a (Method.create_agent n d p m q) = Request.create_configured_agent n d p m q

abbrev pub is_text : String → Bool
is_text s = not (is_blank s)

abbrev pub is_text_or_none : Option String → Bool
is_text_or_none none = true
is_text_or_none (some s) = not (is_blank s)

abbrev pub is_limit : ℕ → ℕ → Bool
is_limit most n = leb 1 n && leb n most

abbrev pub are_ids : List String → Bool
are_ids [] = true
are_ids (s ∷ ss) = not (is_empty s) && are_ids ss

-- The arguments that the host accepts, for each method.
unfoldable pub is_accepted : Method → Bool
is_accepted (Method.target_members t) = is_text t
is_accepted (Method.target_memberships t) = is_text t
is_accepted (Method.channel_create n d) = is_text n && is_text d
is_accepted (Method.channel_update t n d v) = is_text t && is_text n && is_text d && is_decimal v
is_accepted (Method.channel_archive t v) = is_text t && is_decimal v
is_accepted (Method.channel_restore t v) = is_text t && is_decimal v
is_accepted (Method.channel_delete t v) = is_text t && is_decimal v
is_accepted (Method.member_add t m) = is_text t && is_text m
is_accepted (Method.history t seq n) = is_text t && is_decimal seq && is_limit 100 n
is_accepted (Method.history_tail t n) = is_text t && is_limit 100 n
is_accepted (Method.message_send t r s) = is_text t && is_text r && is_text s
is_accepted (Method.thread_create r) = is_text r
is_accepted (Method.thread_summaries rs) = is_limit 100 (length rs) && are_ids rs
is_accepted (Method.inbox_list n cursor f) = is_limit 50 n && is_text_or_none cursor
is_accepted (Method.inbox_done t seq) = is_text t && is_decimal seq
is_accepted (Method.task_create m) = is_text m
is_accepted (Method.tasks t) = is_text_or_none t
is_accepted (Method.task_claim m a) = is_text m && is_text_or_none a
is_accepted (Method.task_unclaim m v) = is_text m && is_decimal v
is_accepted (Method.task_update_status m s v) = is_text m && is_decimal v
is_accepted (Method.agent_profile g) = is_text g
is_accepted (Method.agent_memberships g) = is_text g
is_accepted (Method.agent_delete g) = is_text g
is_accepted (Method.update_agent_profile g n d v) =
    is_text g && is_text n && is_text d && is_decimal v
is_accepted (Method.update_agent_avatar g u v) = is_text g && is_text_or_none u && is_decimal v
is_accepted (Method.replace_agent_runtime g p m q e) =
    is_text g && is_text p && is_text m && is_text q && is_text_or_none e
is_accepted (Method.agent_workspace g d) = is_text g
is_accepted (Method.agent_workspace_file g p) = is_text g && is_text p
is_accepted (Method.create_agent n d p m q) =
    is_text n && is_text d && is_text p && is_text m && is_text q
is_accepted _ = true
