-- ===== src/Service/Shutdown.antt =====
-- What the service does once it is closed.
use dsh_chaos.Common.{
  ℕ, String, Bool, true, false, Option, none, some, [], ◌≡◌, refl, ◌⊎◌, inl, inr, arith,
}
use dsh_chaos.Common.Results.{throws, Result-cases}
use dsh_chaos.Common.Acts.{Act, give, ◌>>=◌, ◌>>◌, acting}
use dsh_chaos.Remote.Request.{Request}
use dsh_chaos.Runtime.Host.{Host, M, Manager}
use dsh_chaos.Workspace.Files.{Files}
use dsh_chaos.Service.Core.{Core, Platform, Preset}
use dsh_chaos.Service.State.{
  Service, require_handle, require_runtimes, outside, get_state, published,
}
use dsh_chaos.Service.Writes
use dsh_chaos.Service.Reads
use dsh_chaos.Service.Agents
use dsh_chaos.Service.Serve.{Reply, as_reply, serve}
use dsh_chaos.Service.Lifetime.{close_runtime_stack, close_manager, stop_delivery}
use dsh_chaos.Delivery.Bridge.{Bridge}

-- Neither a handle nor a manager.
pub record IsClosed {W : Type 0} (s : Service W) : Type 0 where
  pub inactive : s.active ≡ false
  pub unmanaged : s.runtimes ≡ none

-- The run throws.
abbrev pub Fails : {W A : Type 0} → Act W A → W → Type 0
Fails m w = (e : String) × ((m w).0 ≡ throws e)

module _ {W A B : Type 0} where
  bind-Fails : (m : Act W A) (f : A → Act W B) (w : W) → Fails m w → Fails (m >>= f) w
  unfolding acting
  bind-Fails m f w (e, h) = (e, ground arith)

  -- The second step throws wherever the first one ends.
  then-Fails :
      (m : Act W A) (f : A → Act W B) (w : W) → ((a : A) → Fails (f a) (m w).1) → Fails (m >>= f) w
  unfolding acting
  then-Fails m f w h = elim (Result-cases (m w).0) [
    | inl (a, e) ↦ let (x, failed) = h a in (x, ground arith)
    | inr (e, failed) ↦ (e, ground arith)
  ]

module _ {W Handle : Type 0} (core : Core W) (platform : Platform W) (files : Files W Handle)
    (instructions : String) where
  close_manager-only :
      (o : Option Manager) (s : Service W)
      → let t = (close_manager core platform files instructions o s).1 in
        (t.runtimes ≡ s.runtimes)
        × (t.delivery ≡ s.delivery)
        × (t.retention_timer ≡ s.retention_timer)
  unfolding close_manager
  close_manager-only none s = (refl, refl, refl)
  close_manager-only (some m) s = (refl, refl, refl)

  stop_delivery-only :
      (o : Option Bridge) (s : Service W)
      → let t = (stop_delivery core platform files instructions o s).1 in
        (t.delivery ≡ s.delivery) × (t.retention_timer ≡ s.retention_timer)
  unfolding stop_delivery outside give
  stop_delivery-only none s = (refl, refl)
  stop_delivery-only (some b) s = (ground arith, ground arith)

  -- However its parts end, the cleanup leaves the service with no handle, no manager, no bridge and
  -- no listener.
  pub close_runtime_stack-IsClosed :
      (s : Service W)
      → let t = (close_runtime_stack core platform files instructions s).1 in
        IsClosed t × (t.delivery ≡ none) × (t.listeners ≡ []) × (t.retention_timer ≡ false)
  unfolding close_runtime_stack Agents.attempt get_state outside acting
  close_runtime_stack-IsClosed s =
      let silent = record s {
        retention_stopped = true;
        retention_timer = false;
        delivery = none;
      } in
      let (quiet, ticking) = stop_delivery-only s.delivery silent in
      let m = (stop_delivery core platform files instructions s.delivery silent).1 in
      let (unmanaged, undelivered, timer) =
        close_manager-only m.runtimes (record m { runtimes = none }) in
      (
        record { inactive = ground arith; unmanaged = ground arith },
        ground arith,
        ground arith,
        ground arith,
      )

module _ {W Handle : Type 0} (core : Core W) (platform : Platform W) (files : Files W Handle)
    (instructions : String) (compare_names : String → String → Bool) (sep_char : ℕ) where
  module _ (s : Service W) (closed : IsClosed s) where
    handle-Fails : {A : Type 0} (c : Act W A) → Fails (require_handle c) s
    unfolding require_handle
    handle-Fails c =
        ("dsh-chaos collab service is not active", let h = closed.inactive in ground arith)

    managed-Fails :
        {A : Type 0} (run : Host W → M W A)
        → Fails (Agents.managed core platform files instructions compare_names sep_char run) s
    unfolding Agents.managed require_runtimes
    managed-Fails run =
        ("dsh-chaos RuntimeManager is not active", let h = closed.unmanaged in ground arith)

    visible-Fails :
        (v g : String)
        → Fails
            (Agents.require_visible_agent core platform files instructions compare_names sep_char v
              g)
            s
    unfolding Agents.require_visible_agent
    visible-Fails v g = bind-Fails _ _ s (handle-Fails (core.list_actors v))

    guard-Fails :
        {A : Type 0} (v g : String) (m : Act (Service W) A)
        → Fails
            (Agents.require_visible_agent core platform files instructions compare_names sep_char v
                g
              >>= (λ _. give tt)
              >> m)
            s
    guard-Fails v g m = bind-Fails _ _ s (bind-Fails _ _ s (visible-Fails v g))

    profile-Fails :
        (v g : String)
        → Fails (Agents.agent_profile core platform files instructions compare_names sep_char v g) s
    unfolding Agents.agent_profile
    profile-Fails v g = guard-Fails v g _

    profiles-Fails :
        (v : String)
        → Fails (Agents.agent_profiles core platform files instructions compare_names sep_char v) s
    unfolding Agents.agent_profiles Agents.both Agents.attempt acting
    profiles-Fails v = let (e, h) = handle-Fails (core.list_agent_profiles v) in (e, ground arith)

  -- The Preset's lookup leaves the service closed.
  unless_broken-IsClosed :
      (p : Preset) (o : Option String) (s : Service W)
      → (Agents.unless_broken core platform files instructions compare_names sep_char p o s).1 ≡ s
  unfolding Agents.unless_broken acting
  unless_broken-IsClosed p none s = refl
  unless_broken-IsClosed p (some e) s = refl

  usable-IsClosed :
      (p : String) (s : Service W)
      → IsClosed s
      → IsClosed
          (Agents.usable_preset core platform files instructions compare_names sep_char p s).1
  unfolding Agents.usable_preset Agents.unless_broken outside acting
  usable-IsClosed p s closed =
      let h = closed.inactive in
      let k = closed.unmanaged in record { inactive = ground arith; unmanaged = ground arith }

  reply-Fails :
      {A : Type 0} (f : A → Reply) (m : Act (Service W) A) (s : Service W)
      → Fails m s
      → Fails (as_reply f m) s
  unfolding as_reply
  reply-Fails f m s h = bind-Fails m _ s h

  -- A closed service throws on every call of the API but one, the list of Presets, which does not
  -- ask it.
  pub closed_refuses :
      (s : Service W)
      → IsClosed s
      → (req : Request)
      → (req ≡ Request.list_agent_presets)
        ⊎ ((e : String) × ((serve core platform files instructions compare_names sep_char req s).0
              ≡ throws e))
  unfolding serve published Reads.agent_memberships Reads.inbox_list Reads.list_actors
      Reads.list_changes Reads.list_runtime_bindings Reads.list_target_members
      Reads.list_target_memberships Reads.list_tasks Reads.read_messages Reads.read_messages_tail
      Reads.snapshot Reads.thread_summaries Writes.add_member Writes.archive_channel
      Writes.claim_task Writes.create_channel Writes.create_direct Writes.create_task
      Writes.create_thread Writes.delete_channel Writes.follow_thread Writes.inbox_done
      Writes.inbox_done_all Writes.restore_channel Writes.unclaim_task Writes.unfollow_thread
      Writes.update_channel Writes.update_task_status Agents.update_agent_profile
      Agents.update_agent_avatar Agents.replace_agent_runtime Agents.agent_workspace
      Agents.agent_workspace_file Agents.create_configured_agent Agents.delete_agent
      Agents.stop_runtime Agents.send_message
  closed_refuses s closed (Request.snapshot a) = inr (reply-Fails _ _ s (handle-Fails s closed _))
  closed_refuses s closed (Request.list_actors a) =
      inr (reply-Fails _ _ s (handle-Fails s closed _))
  closed_refuses s closed (Request.inbox_done_all a) =
      inr (reply-Fails _ _ s (bind-Fails _ _ s (handle-Fails s closed _)))
  closed_refuses s closed (Request.agent_profiles v) =
      inr (reply-Fails _ _ s (profiles-Fails s closed v))
  closed_refuses s closed Request.list_agent_presets = inl refl
  closed_refuses s closed Request.list_runtime_bindings =
      inr (reply-Fails _ _ s (handle-Fails s closed _))
  closed_refuses s closed (Request.list_target_members a t) =
      inr (reply-Fails _ _ s (handle-Fails s closed _))
  closed_refuses s closed (Request.list_target_memberships a t) =
      inr (reply-Fails _ _ s (handle-Fails s closed _))
  closed_refuses s closed (Request.list_changes a q n) =
      inr (reply-Fails _ _ s (handle-Fails s closed _))
  closed_refuses s closed (Request.read_messages a t q n) =
      inr (reply-Fails _ _ s (handle-Fails s closed _))
  closed_refuses s closed (Request.read_messages_tail a t n) =
      inr (reply-Fails _ _ s (handle-Fails s closed _))
  closed_refuses s closed (Request.inbox_list a n c f) =
      inr (reply-Fails _ _ s (handle-Fails s closed _))
  closed_refuses s closed (Request.inbox_done a t q) =
      inr (reply-Fails _ _ s (bind-Fails _ _ s (handle-Fails s closed _)))
  closed_refuses s closed (Request.list_tasks a t) =
      inr (reply-Fails _ _ s (handle-Fails s closed _))
  closed_refuses s closed (Request.agent_profile v g) =
      inr (reply-Fails _ _ s (profile-Fails s closed v g))
  closed_refuses s closed (Request.agent_memberships v g) =
      inr (reply-Fails _ _ s (handle-Fails s closed _))
  closed_refuses s closed (Request.update_agent_profile v g n d x) =
      inr (reply-Fails _ _ s (guard-Fails s closed v g _))
  closed_refuses s closed (Request.update_agent_avatar v g u x) =
      inr (reply-Fails _ _ s (guard-Fails s closed v g _))
  closed_refuses s closed (Request.replace_agent_runtime v g p m q e) =
      inr (reply-Fails _ _ s (bind-Fails _ _ s (profile-Fails s closed v g)))
  closed_refuses s closed (Request.agent_workspace v g d h) =
      inr (reply-Fails _ _ s (bind-Fails _ _ s (profile-Fails s closed v g)))
  closed_refuses s closed (Request.agent_workspace_file v g p) =
      inr (reply-Fails _ _ s (bind-Fails _ _ s (profile-Fails s closed v g)))
  closed_refuses s closed (Request.create_configured_agent n d p m q) = inr (
      reply-Fails _ _ s (
        then-Fails _ _ s
          λ preset. bind-Fails _ _ _ (handle-Fails _ (usable-IsClosed q s closed) _)))
  closed_refuses s closed (Request.delete_agent g) =
      inr (reply-Fails _ _ s (bind-Fails _ _ s (managed-Fails s closed _)))
  closed_refuses s closed (Request.create_channel n d a) =
      inr (reply-Fails _ _ s (bind-Fails _ _ s (handle-Fails s closed _)))
  closed_refuses s closed (Request.update_channel t a n d v) =
      inr (reply-Fails _ _ s (bind-Fails _ _ s (handle-Fails s closed _)))
  closed_refuses s closed (Request.archive_channel t a v) =
      inr (reply-Fails _ _ s (bind-Fails _ _ s (handle-Fails s closed _)))
  closed_refuses s closed (Request.restore_channel t a v) =
      inr (reply-Fails _ _ s (bind-Fails _ _ s (handle-Fails s closed _)))
  closed_refuses s closed (Request.delete_channel t a v) =
      inr (reply-Fails _ _ s (bind-Fails _ _ s (handle-Fails s closed _)))
  closed_refuses s closed (Request.create_direct a p) =
      inr (reply-Fails _ _ s (bind-Fails _ _ s (handle-Fails s closed _)))
  closed_refuses s closed (Request.create_thread r a) =
      inr (reply-Fails _ _ s (bind-Fails _ _ s (handle-Fails s closed _)))
  closed_refuses s closed (Request.thread_summaries a rs) =
      inr (reply-Fails _ _ s (handle-Fails s closed _))
  closed_refuses s closed (Request.follow_thread t a) =
      inr (reply-Fails _ _ s (bind-Fails _ _ s (handle-Fails s closed _)))
  closed_refuses s closed (Request.unfollow_thread t a) =
      inr (reply-Fails _ _ s (bind-Fails _ _ s (handle-Fails s closed _)))
  closed_refuses s closed (Request.add_member t m b) =
      inr (reply-Fails _ _ s (bind-Fails _ _ s (handle-Fails s closed _)))
  closed_refuses s closed (Request.send_message t a r x) =
      inr (reply-Fails _ _ s (bind-Fails _ _ s (handle-Fails s closed _)))
  closed_refuses s closed (Request.create_task m a) =
      inr (reply-Fails _ _ s (bind-Fails _ _ s (handle-Fails s closed _)))
  closed_refuses s closed (Request.claim_task m a) =
      inr (reply-Fails _ _ s (bind-Fails _ _ s (handle-Fails s closed _)))
  closed_refuses s closed (Request.unclaim_task m a v) =
      inr (reply-Fails _ _ s (bind-Fails _ _ s (handle-Fails s closed _)))
  closed_refuses s closed (Request.update_task_status m a st v) =
      inr (reply-Fails _ _ s (bind-Fails _ _ s (handle-Fails s closed _)))
