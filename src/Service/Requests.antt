-- ===== src/Service/Requests.antt =====
-- Which calls of the API publish a change.
use dsh_chaos.Common.{ℕ, ◌+◌, String, Bool, true, false, ◌≡◌, ◌⊎◌, inl, inr, Bool-cases}
use dsh_chaos.Common.Results.{ok, throws}
use dsh_chaos.Remote.Request.{Request}
use dsh_chaos.Workspace.Files.{Files}
use dsh_chaos.Service.Core.{Core, Platform}
use dsh_chaos.Service.State.{Service}
use dsh_chaos.Service.Writes
use dsh_chaos.Service.Reads
use dsh_chaos.Service.Serve.{Reply, serve}
use dsh_chaos.Service.Publication.{
  so_far, Quiet, Announces, require_handle-Quiet, published-Announces,
}
use dsh_chaos.Service.Operations.{
  as_reply-Quiet, as_reply-Announces, update_profile-Announces, update_avatar-Announces,
  replace_runtime-Announces, create_configured-Announces, delete_agent-Announces,
  send_message-Announces, agent_profile-Quiet, agent_profiles-Quiet, workspace-Quiet,
  workspace_file-Quiet, presets-Quiet,
}

-- The calls that change the core's ledger.
abbrev pub is_change : Request → Bool
is_change (Request.inbox_done_all _) = true
is_change (Request.inbox_done _ _ _) = true
is_change (Request.update_agent_profile _ _ _ _ _) = true
is_change (Request.update_agent_avatar _ _ _ _) = true
is_change (Request.replace_agent_runtime _ _ _ _ _ _) = true
is_change (Request.create_configured_agent _ _ _ _ _) = true
is_change (Request.delete_agent _) = true
is_change (Request.create_channel _ _ _) = true
is_change (Request.update_channel _ _ _ _ _) = true
is_change (Request.archive_channel _ _ _) = true
is_change (Request.restore_channel _ _ _) = true
is_change (Request.delete_channel _ _ _) = true
is_change (Request.create_direct _ _) = true
is_change (Request.create_thread _ _) = true
is_change (Request.follow_thread _ _) = true
is_change (Request.unfollow_thread _ _) = true
is_change (Request.add_member _ _ _) = true
is_change (Request.send_message _ _ _ _) = true
is_change (Request.create_task _ _) = true
is_change (Request.claim_task _ _) = true
is_change (Request.unclaim_task _ _ _) = true
is_change (Request.update_task_status _ _ _ _) = true
is_change _ = false

module _ {W Handle : Type 0} (core : Core W) (platform : Platform W) (files : Files W Handle)
    (instructions : String) (compare_names : String → String → Bool) (sep_char : ℕ) where
  serve-Announces :
      (req : Request)
      → is_change req ≡ true
      → Announces (serve core platform files instructions compare_names sep_char req)
  unfolding serve Writes.inbox_done_all Writes.inbox_done Writes.create_channel
      Writes.update_channel Writes.archive_channel Writes.restore_channel Writes.delete_channel
      Writes.create_direct Writes.create_thread Writes.follow_thread Writes.unfollow_thread
      Writes.add_member Writes.create_task Writes.claim_task Writes.unclaim_task
      Writes.update_task_status
  serve-Announces (Request.inbox_done_all a) k =
      as_reply-Announces _ _ (published-Announces platform _ (require_handle-Quiet _))
  serve-Announces (Request.inbox_done a t q) k =
      as_reply-Announces _ _ (published-Announces platform _ (require_handle-Quiet _))
  serve-Announces (Request.update_agent_profile v g n d x) k =
      as_reply-Announces _ _
        (update_profile-Announces core platform files instructions compare_names sep_char v g n d x)
  serve-Announces (Request.update_agent_avatar v g u x) k =
      as_reply-Announces _ _
        (update_avatar-Announces core platform files instructions compare_names sep_char v g u x)
  serve-Announces (Request.replace_agent_runtime v g p m q e) k = as_reply-Announces _ _ (
      replace_runtime-Announces core platform files instructions compare_names sep_char v g p m q e)
  serve-Announces (Request.create_configured_agent n d p m q) k = as_reply-Announces _ _ (
      create_configured-Announces core platform files instructions compare_names sep_char n d p m q)
  serve-Announces (Request.delete_agent g) k =
      as_reply-Announces _ _
        (delete_agent-Announces core platform files instructions compare_names sep_char g)
  serve-Announces (Request.create_channel n d a) k =
      as_reply-Announces _ _ (published-Announces platform _ (require_handle-Quiet _))
  serve-Announces (Request.update_channel t a n d v) k =
      as_reply-Announces _ _ (published-Announces platform _ (require_handle-Quiet _))
  serve-Announces (Request.archive_channel t a v) k =
      as_reply-Announces _ _ (published-Announces platform _ (require_handle-Quiet _))
  serve-Announces (Request.restore_channel t a v) k =
      as_reply-Announces _ _ (published-Announces platform _ (require_handle-Quiet _))
  serve-Announces (Request.delete_channel t a v) k =
      as_reply-Announces _ _ (published-Announces platform _ (require_handle-Quiet _))
  serve-Announces (Request.create_direct a p) k =
      as_reply-Announces _ _ (published-Announces platform _ (require_handle-Quiet _))
  serve-Announces (Request.create_thread r a) k =
      as_reply-Announces _ _ (published-Announces platform _ (require_handle-Quiet _))
  serve-Announces (Request.follow_thread t a) k =
      as_reply-Announces _ _ (published-Announces platform _ (require_handle-Quiet _))
  serve-Announces (Request.unfollow_thread t a) k =
      as_reply-Announces _ _ (published-Announces platform _ (require_handle-Quiet _))
  serve-Announces (Request.add_member t m b) k =
      as_reply-Announces _ _ (published-Announces platform _ (require_handle-Quiet _))
  serve-Announces (Request.send_message t a r x) k =
      as_reply-Announces _ _
        (send_message-Announces core platform files instructions compare_names sep_char t a r x)
  serve-Announces (Request.create_task m a) k =
      as_reply-Announces _ _ (published-Announces platform _ (require_handle-Quiet _))
  serve-Announces (Request.claim_task m a) k =
      as_reply-Announces _ _ (published-Announces platform _ (require_handle-Quiet _))
  serve-Announces (Request.unclaim_task m a v) k =
      as_reply-Announces _ _ (published-Announces platform _ (require_handle-Quiet _))
  serve-Announces (Request.update_task_status m a st v) k =
      as_reply-Announces _ _ (published-Announces platform _ (require_handle-Quiet _))
  serve-Announces (Request.snapshot a) k = cc
  serve-Announces (Request.list_actors a) k = cc
  serve-Announces (Request.agent_profiles v) k = cc
  serve-Announces Request.list_agent_presets k = cc
  serve-Announces Request.list_runtime_bindings k = cc
  serve-Announces (Request.list_target_members a t) k = cc
  serve-Announces (Request.list_target_memberships a t) k = cc
  serve-Announces (Request.list_changes a q n) k = cc
  serve-Announces (Request.read_messages a t q n) k = cc
  serve-Announces (Request.read_messages_tail a t n) k = cc
  serve-Announces (Request.inbox_list a n c f) k = cc
  serve-Announces (Request.list_tasks a t) k = cc
  serve-Announces (Request.agent_profile v g) k = cc
  serve-Announces (Request.agent_memberships v g) k = cc
  serve-Announces (Request.agent_workspace v g d h) k = cc
  serve-Announces (Request.agent_workspace_file v g p) k = cc
  serve-Announces (Request.thread_summaries a rs) k = cc

  serve-Quiet :
      (req : Request)
      → is_change req ≡ false
      → Quiet (serve core platform files instructions compare_names sep_char req)
  unfolding serve Reads.snapshot Reads.list_actors Reads.list_runtime_bindings
      Reads.list_target_members Reads.list_target_memberships Reads.list_changes Reads.read_messages
      Reads.read_messages_tail Reads.inbox_list Reads.list_tasks Reads.agent_memberships
      Reads.thread_summaries
  serve-Quiet (Request.snapshot a) k = as_reply-Quiet _ _ (require_handle-Quiet _)
  serve-Quiet (Request.list_actors a) k = as_reply-Quiet _ _ (require_handle-Quiet _)
  serve-Quiet (Request.agent_profiles v) k =
      as_reply-Quiet _ _
        (agent_profiles-Quiet core platform files instructions compare_names sep_char v)
  serve-Quiet Request.list_agent_presets k =
      as_reply-Quiet _ _ (presets-Quiet core platform files instructions compare_names sep_char)
  serve-Quiet Request.list_runtime_bindings k = as_reply-Quiet _ _ (require_handle-Quiet _)
  serve-Quiet (Request.list_target_members a t) k = as_reply-Quiet _ _ (require_handle-Quiet _)
  serve-Quiet (Request.list_target_memberships a t) k = as_reply-Quiet _ _ (require_handle-Quiet _)
  serve-Quiet (Request.list_changes a q n) k = as_reply-Quiet _ _ (require_handle-Quiet _)
  serve-Quiet (Request.read_messages a t q n) k = as_reply-Quiet _ _ (require_handle-Quiet _)
  serve-Quiet (Request.read_messages_tail a t n) k = as_reply-Quiet _ _ (require_handle-Quiet _)
  serve-Quiet (Request.inbox_list a n c f) k = as_reply-Quiet _ _ (require_handle-Quiet _)
  serve-Quiet (Request.list_tasks a t) k = as_reply-Quiet _ _ (require_handle-Quiet _)
  serve-Quiet (Request.agent_profile v g) k =
      as_reply-Quiet _ _
        (agent_profile-Quiet core platform files instructions compare_names sep_char v g)
  serve-Quiet (Request.agent_memberships v g) k = as_reply-Quiet _ _ (require_handle-Quiet _)
  serve-Quiet (Request.agent_workspace v g d h) k =
      as_reply-Quiet _ _
        (workspace-Quiet core platform files instructions compare_names sep_char v g d h)
  serve-Quiet (Request.agent_workspace_file v g p) k =
      as_reply-Quiet _ _
        (workspace_file-Quiet core platform files instructions compare_names sep_char v g p)
  serve-Quiet (Request.thread_summaries a rs) k = as_reply-Quiet _ _ (require_handle-Quiet _)
  serve-Quiet (Request.inbox_done_all a) k = cc
  serve-Quiet (Request.inbox_done a t q) k = cc
  serve-Quiet (Request.update_agent_profile v g n d x) k = cc
  serve-Quiet (Request.update_agent_avatar v g u x) k = cc
  serve-Quiet (Request.replace_agent_runtime v g p m q e) k = cc
  serve-Quiet (Request.create_configured_agent n d p m q) k = cc
  serve-Quiet (Request.delete_agent g) k = cc
  serve-Quiet (Request.create_channel n d a) k = cc
  serve-Quiet (Request.update_channel t a n d v) k = cc
  serve-Quiet (Request.archive_channel t a v) k = cc
  serve-Quiet (Request.restore_channel t a v) k = cc
  serve-Quiet (Request.delete_channel t a v) k = cc
  serve-Quiet (Request.create_direct a p) k = cc
  serve-Quiet (Request.create_thread r a) k = cc
  serve-Quiet (Request.follow_thread t a) k = cc
  serve-Quiet (Request.unfollow_thread t a) k = cc
  serve-Quiet (Request.add_member t m b) k = cc
  serve-Quiet (Request.send_message t a r x) k = cc
  serve-Quiet (Request.create_task m a) k = cc
  serve-Quiet (Request.claim_task m a) k = cc
  serve-Quiet (Request.unclaim_task m a v) k = cc
  serve-Quiet (Request.update_task_status m a st v) k = cc

  -- A call of the API that changes the ledger publishes once where it returns, and not at all where
  -- it throws; a call that only reads publishes nothing.
  pub serve-publishes :
      (req : Request) (s : Service W)
      → let r = serve core platform files instructions compare_names sep_char req s in
        ((is_change req ≡ true) × (a : Reply) × (r.0 ≡ ok a) × (so_far r.1 ≡ so_far s + 1))
        ⊎ ((is_change req ≡ true) × (e : String) × (r.0 ≡ throws e) × (so_far r.1 ≡ so_far s))
        ⊎ ((is_change req ≡ false) × (so_far r.1 ≡ so_far s))
  serve-publishes req s = elim (Bool-cases (is_change req)) [
    | inl h ↦ elim ((serve-Announces req h).announces s) [
      | inl (a, done, more) ↦ inl (h, a, done, more)
      | inr (e, failed, same) ↦ inr (inl (h, e, failed, same))
    ]
    | inr h ↦ inr (inr (h, (serve-Quiet req h).quiet s))
  ]
