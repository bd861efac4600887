-- ===== src/Service/Operations.antt =====
-- Which operations publish a change, by the calls they are made of.
use dsh_chaos.Common.{ℕ, String, Bool, Option, none, some, refl, inl, inr, arith, find, ◌==◌, ◌&&◌}
use dsh_chaos.Common.Results.{Result, ok, throws}
use dsh_chaos.Common.Acts.{Act, give, ◌>>=◌, ◌>>◌, acting}
use dsh_chaos.Wire.{Profile, RuntimeBinding, Actor}
use dsh_chaos.Runtime.Host.{Host, Manager, M}
use dsh_chaos.Runtime.Policy.{require_supported_agent_preset}
use dsh_chaos.Workspace.Files.{Files}
use dsh_chaos.Service.Core.{Core, Platform, Preset}
use dsh_chaos.Service.State.{Service, host_of}
use dsh_chaos.Service.Agents
use dsh_chaos.Service.Serve.{Reply, as_reply}
use dsh_chaos.Service.Publication.{
  Quiet, Announces, give-Quiet, refuse-Quiet, of_result-Quiet, require_handle-Quiet, outside-Quiet,
  warn-Quiet, require_runtimes-Quiet, bind-Quiet, bind-Announces, publish-Announces,
  publish_change-Announces,
}

module _ {W : Type 0} where
  attempt-Quiet : {A : Type 0} (m : Act (Service W) A) → Quiet m → Quiet (Agents.attempt m)
  unfolding Agents.attempt
  attempt-Quiet m h = record { quiet = λ s. h.quiet s }

  both-Quiet :
      {A B : Type 0} (m : Act (Service W) A) (n : Act (Service W) B)
      → Quiet m
      → Quiet n
      → Quiet (Agents.both m n)
  unfolding Agents.both
  both-Quiet m n h k = bind-Quiet _ _ (attempt-Quiet m h) λ a.
      bind-Quiet _ _ (attempt-Quiet n k) λ b.
        bind-Quiet _ _ (of_result-Quiet a)
          λ x. bind-Quiet _ _ (of_result-Quiet b) λ y. give-Quiet (x, y)

  pub as_reply-Quiet :
      {A : Type 0} (f : A → Reply) (m : Act (Service W) A) → Quiet m → Quiet (as_reply f m)
  unfolding as_reply
  as_reply-Quiet f m h = bind-Quiet m _ h (λ a. give-Quiet (f a))

  pub as_reply-Announces :
      {A : Type 0} (f : A → Reply) (m : Act (Service W) A) → Announces m → Announces (as_reply f m)
  unfolding as_reply acting
  as_reply-Announces f m h = record {
    announces = λ s. elim (h.announces s) [
      | inl (a, done, more) ↦ inl (f a, ground arith, ground arith)
      | inr (e, failed, same) ↦ inr (e, ground arith, ground arith)
    ];
  }

module _ {W Handle : Type 0} (core : Core W) (platform : Platform W) (files : Files W Handle)
    (instructions : String) (compare_names : String → String → Bool) (sep_char : ℕ) where
  managed-Quiet :
      {A : Type 0} (run : Host W → M W A)
      → Quiet (Agents.managed core platform files instructions compare_names sep_char run)
  unfolding Agents.managed
  managed-Quiet run = record {
    quiet = λ s.
        (require_runtimes-Quiet (run (host_of core platform files instructions s.active))).quiet s;
  }

  found_agent-Quiet :
      (g : String) (o : Option Actor)
      → Quiet (Agents.found_agent core platform files instructions compare_names sep_char g o)
  unfolding Agents.found_agent
  found_agent-Quiet g none = refuse-Quiet _
  found_agent-Quiet g (some a) = give-Quiet a

  unless_broken-Quiet :
      (p : Preset) (o : Option String)
      → Quiet (Agents.unless_broken core platform files instructions compare_names sep_char p o)
  unfolding Agents.unless_broken
  unless_broken-Quiet p none = give-Quiet p
  unless_broken-Quiet p (some e) = refuse-Quiet _

  set_up-Quiet :
      (g : String) (r : Result RuntimeBinding)
      → Quiet (Agents.set_up core platform files instructions compare_names sep_char g r)
  unfolding Agents.set_up
  set_up-Quiet g (ok b) = give-Quiet _
  set_up-Quiet g (throws e) =
      bind-Quiet _ _ (warn-Quiet _) λ _. bind-Quiet _ _ (warn-Quiet e) λ _. give-Quiet _

  update_runtimes-Quiet :
      (f : Manager → Manager)
      → Quiet (Agents.update_runtimes core platform files instructions compare_names sep_char f)
  unfolding Agents.update_runtimes
  update_runtimes-Quiet f = record { quiet = λ s. refl }

  kick_delivery-Quiet :
      Quiet (Agents.kick_delivery core platform files instructions compare_names sep_char)
  unfolding Agents.kick_delivery
  kick_delivery-Quiet = record { quiet = λ s. refl }

  pub visible-Quiet :
      (v g : String)
      → Quiet
          (Agents.require_visible_agent core platform files instructions compare_names sep_char v g)
  unfolding Agents.require_visible_agent
  visible-Quiet v g =
      bind-Quiet _ _ (require_handle-Quiet (core.list_actors v))
        λ actors. found_agent-Quiet g (find (λ a. a.id == g && Agents.is_agent a.kind) actors)

  pub usable-Quiet :
      (p : String)
      → Quiet (Agents.usable_preset core platform files instructions compare_names sep_char p)
  unfolding Agents.usable_preset
  usable-Quiet p = bind-Quiet _ _ (of_result-Quiet (require_supported_agent_preset p)) λ id.
      bind-Quiet _ _ (outside-Quiet (platform.resolve_preset id))
        λ preset. unless_broken-Quiet preset preset.broken

  pub agent_profile-Quiet :
      (v g : String)
      → Quiet (Agents.agent_profile core platform files instructions compare_names sep_char v g)
  unfolding Agents.agent_profile
  agent_profile-Quiet v g =
      bind-Quiet _ _ (bind-Quiet _ _ (visible-Quiet v g) λ _. give-Quiet tt) λ _.
        bind-Quiet _ _ (require_handle-Quiet (core.agent_profile g)) λ profile.
          bind-Quiet _ _ (require_handle-Quiet (core.runtime_binding g)) λ binding. give-Quiet _

  visible_first :
      {A : Type 0} (v g : String) (m : Act (Service W) A)
      → Announces m
      → Announces (
          Agents.require_visible_agent core platform files instructions compare_names sep_char v g
          >>= (λ _. give tt)
          >> m)
  visible_first v g m h =
      bind-Announces _ _ (bind-Quiet _ _ (visible-Quiet v g) λ _. give-Quiet tt) λ _. h

  pub agent_profiles-Quiet :
      (v : String)
      → Quiet (Agents.agent_profiles core platform files instructions compare_names sep_char v)
  unfolding Agents.agent_profiles
  agent_profiles-Quiet v =
      bind-Quiet _ _
        (both-Quiet _ _ (require_handle-Quiet (core.list_agent_profiles v))
          (require_handle-Quiet core.list_runtime_bindings))
        λ found. give-Quiet _

  pub workspace-Quiet :
      (v g d : String) (hidden : Bool)
      → Quiet (
          Agents.agent_workspace core platform files instructions compare_names sep_char v g d
            hidden)
  unfolding Agents.agent_workspace
  workspace-Quiet v g d hidden = bind-Quiet _ _ (agent_profile-Quiet v g) λ profile. outside-Quiet _

  pub workspace_file-Quiet :
      (v g p : String)
      → Quiet (
          Agents.agent_workspace_file core platform files instructions compare_names sep_char v g p)
  unfolding Agents.agent_workspace_file
  workspace_file-Quiet v g p = bind-Quiet _ _ (agent_profile-Quiet v g) λ profile. outside-Quiet _

  pub presets-Quiet :
      Quiet (Agents.list_agent_presets core platform files instructions compare_names sep_char)
  unfolding Agents.list_agent_presets
  presets-Quiet = bind-Quiet _ _ (outside-Quiet platform.list_presets) λ presets. give-Quiet _

  project_profile-Announces :
      (u : Profile) (g : String)
      → Announces
          (Agents.project_profile core platform files instructions compare_names sep_char u g)
  unfolding Agents.project_profile
  project_profile-Announces u g = bind-Announces _ _ (update_runtimes-Quiet _) λ _.
      bind-Announces _ _ (require_handle-Quiet (core.runtime_binding g))
        λ binding. publish-Announces platform _

  pub update_profile-Announces :
      (v g n d x : String)
      → Announces (
          Agents.update_agent_profile core platform files instructions compare_names sep_char v g n
            d x)
  unfolding Agents.update_agent_profile
  update_profile-Announces v g n d x = visible_first v g _ (
      bind-Announces _ _ (require_handle-Quiet (core.agent_profile g)) λ profile.
        bind-Announces _ _ (require_handle-Quiet _) λ updated. project_profile-Announces updated g)

  pub update_avatar-Announces :
      (v g : String) (u : Option String) (x : String)
      → Announces (
          Agents.update_agent_avatar core platform files instructions compare_names sep_char v g u
            x)
  unfolding Agents.update_agent_avatar
  update_avatar-Announces v g u x =
      visible_first v g _
        (bind-Announces _ _ (require_handle-Quiet _) λ updated. project_profile-Announces updated g)

  pub replace_runtime-Announces :
      (v g p m q : String) (e : Option String)
      → Announces (
          Agents.replace_agent_runtime core platform files instructions compare_names sep_char v g p
            m q e)
  unfolding Agents.replace_agent_runtime Agents.reset_runtime
  replace_runtime-Announces v g p m q e = bind-Announces _ _ (agent_profile-Quiet v g) λ profile.
      bind-Announces _ _ (usable-Quiet q)
        λ preset. bind-Announces _ _ (managed-Quiet _) λ binding. publish-Announces platform binding

  pub create_configured-Announces :
      (n d p m q : String)
      → Announces (
          Agents.create_configured_agent core platform files instructions compare_names sep_char n d
            p m q)
  unfolding Agents.create_configured_agent Agents.create_runtime
  create_configured-Announces n d p m q = bind-Announces _ _ (usable-Quiet q) λ preset.
      bind-Announces _ _ (require_handle-Quiet _) λ native.
        bind-Announces _ _ (attempt-Quiet _ (managed-Quiet _)) λ made.
          bind-Announces _ _ (set_up-Quiet native.actor.id made)
            λ ended. publish-Announces platform _

  pub delete_agent-Announces :
      (g : String)
      → Announces (Agents.delete_agent core platform files instructions compare_names sep_char g)
  unfolding Agents.delete_agent Agents.stop_runtime
  delete_agent-Announces g = bind-Announces _ _ (managed-Quiet _) λ _.
      bind-Announces _ _ (require_handle-Quiet _)
        λ _. bind-Announces _ _ (update_runtimes-Quiet _) λ _. publish_change-Announces platform

  pub send_message-Announces :
      (t a r x : String)
      → Announces
          (Agents.send_message core platform files instructions compare_names sep_char t a r x)
  unfolding Agents.send_message
  send_message-Announces t a r x =
      bind-Announces _ _ (require_handle-Quiet _)
        λ result. bind-Announces _ _ kick_delivery-Quiet λ _. publish-Announces platform result
