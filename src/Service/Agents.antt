-- ===== src/Service/Agents.antt =====
-- src/index.ts: the operations on Agents: creation, deletion, the profile, its runtime and its
-- workspace, and `sendMessage`.
use dsh_chaos.Common.{
  ℕ, String, Bool, true, false, ◌&&◌, Option, none, some, List, [], ◌∷◌, map, filter, find, ◌==◌,
}
use dsh_chaos.Common.Maps.{Map, lookup, insert}
use dsh_chaos.Common.Texts.{concat, trim}
use dsh_chaos.Common.Results.{Result, ok, throws}
use dsh_chaos.Common.Acts.{Act, give, refuse, ◌>>=◌, ◌>>◌, of_result}
use dsh_chaos.Wire.{
  Actor, ActorKind, Profile, ProfileLifecycle, Charter, RuntimeBinding, SendResult,
}
use dsh_chaos.Runtime.Policy.{require_supported_agent_preset, is_supported_agent_preset}
use dsh_chaos.Runtime.Host.{Host, M, Manager}
use dsh_chaos.Runtime.Manager.{update_identity_projection, forget_identity}
use dsh_chaos.Runtime.Lifecycle.{CreateInput, create, reset, resume, stop}
use dsh_chaos.Delivery.Bridge.{kick}
use dsh_chaos.Workspace.Files.{Files}
use dsh_chaos.Workspace.Paths.{Entry, list_agent_workspace}
use dsh_chaos.Workspace.Preview.{Preview, read_agent_workspace_file}
use dsh_chaos.Service.Core.{Core, Platform, Preset, Trust}
use dsh_chaos.Service.State.{
  Service, require_handle, require_runtimes, outside, warn, host_of, publish_change,
}

pub record AgentProfile : Type 0 where
  pub actor : Actor
  pub workspace_path : String
  pub lifecycle : ProfileLifecycle
  pub charter : Charter
  pub profile_version : String
  pub binding : Option RuntimeBinding

pub record CreatedAgent : Type 0 where
  pub profile : AgentProfile
  pub setup_error : Option String

pub record PresetSummary : Type 0 where
  pub id : String
  pub trust : Trust
  pub is_default : Bool
  pub name : Option String
  pub description : Option String
  pub broken : Option String

abbrev pub is_agent : ActorKind → Bool
is_agent ActorKind.user = false
is_agent ActorKind.agent = true

unfoldable pub profile_view : Profile → Option RuntimeBinding → AgentProfile
profile_view profile binding = record {
  actor = profile.actor;
  workspace_path = profile.workspace_path;
  lifecycle = profile.lifecycle;
  charter = profile.charter;
  profile_version = profile.version;
  binding = binding;
}

-- `new Map(bindings.map(binding => [binding.agentId, binding]))`, where a later one replaces.
unfoldable pub bindings_by_agent : List RuntimeBinding → Map RuntimeBinding → Map RuntimeBinding
bindings_by_agent [] m = m
bindings_by_agent (b ∷ bs) m = bindings_by_agent bs (insert b.agent_id b m)

unfoldable pub preset_summary : String → Preset → PresetSummary
preset_summary default_id preset = record {
  id = preset.id;
  trust = preset.trust;
  is_default = preset.id == default_id;
  name = preset.name;
  description = preset.description;
  broken = preset.broken;
}

-- `try { return { value } } catch (error) { return { error } }`.
unfoldable pub attempt : {S A : Type 0} → Act S A → Act S (Result A)
attempt m s = (ok (m s).0, (m s).1)

-- `Promise.all` of two calls: both run, and the first failure is the outcome.
unfoldable pub both : {S A B : Type 0} → Act S A → Act S B → Act S (A × B)
both m n = do a ← attempt m; b ← attempt n; x ← of_result a; y ← of_result b; give (x, y)

module _ {W Handle : Type 0} (core : Core W) (platform : Platform W) (files : Files W Handle)
    (instructions : String) (compare_names : String → String → Bool) (sep_char : ℕ) where
  -- An operation of the manager, on the host that the service is to it.
  unfoldable pub managed : {A : Type 0} → (Host W → M W A) → Act (Service W) A
  managed run s = require_runtimes (run (host_of core platform files instructions s.active)) s

  unfoldable pub create_runtime : CreateInput → Act (Service W) RuntimeBinding
  create_runtime input = managed (λ host. create host input)

  unfoldable pub reset_runtime : CreateInput → Option String → Act (Service W) RuntimeBinding
  reset_runtime input generation = managed (λ host. reset host input generation)

  unfoldable pub resume_runtime : String → Act (Service W) RuntimeBinding
  resume_runtime agent_id = managed (λ host. resume host agent_id)

  unfoldable pub stop_runtime : String → Act (Service W) (Unit {0})
  stop_runtime agent_id = managed (λ host. stop host agent_id)

  -- `this.runtimes?.…`.
  unfoldable pub update_runtimes : (Manager → Manager) → Act (Service W) (Unit {0})
  update_runtimes f s =
      (ok tt, record s { runtimes = elim s.runtimes [ none ↦ none | some m ↦ some (f m) ] })

  -- `this.delivery?.kick()`.
  unfoldable pub kick_delivery : Act (Service W) (Unit {0})
  kick_delivery s =
      (ok tt, record s { delivery = elim s.delivery [ none ↦ none | some b ↦ some (kick b) ] })

  unfoldable pub send_message :
      (target_id author_id client_request_id text : String) → Act (Service W) SendResult
  send_message target author request text = do
    result ← require_handle (core.send_message target author request text)
    kick_delivery
    publish_change platform
    give result

  unfoldable pub found_agent : String → Option Actor → Act (Service W) Actor
  found_agent agent_id none =
      refuse (concat ("[not_found] Agent " ∷ agent_id ∷ " is not visible" ∷ []))
  found_agent agent_id (some actor) = give actor

  unfoldable pub require_visible_agent : (viewer_id agent_id : String) → Act (Service W) Actor
  require_visible_agent viewer_id agent_id = do
    actors ← require_handle (core.list_actors viewer_id)
    found_agent agent_id (find (λ a. a.id == agent_id && is_agent a.kind) actors)

  unfoldable pub unless_broken : Preset → Option String → Act (Service W) Preset
  unless_broken preset none = give preset
  unless_broken preset (some reason) = refuse (concat ("[invalid_argument] " ∷ reason ∷ []))

  -- A Preset that is broken is refused.
  unfoldable pub usable_preset : String → Act (Service W) Preset
  usable_preset preset_id = do
    id ← of_result (require_supported_agent_preset preset_id)
    preset ← outside (platform.resolve_preset id)
    unless_broken preset preset.broken

  abbrev pub agent_place : String → String
  agent_place id = platform.join (platform.join platform.home "agents") id

  -- How the Session's setup ended: the binding, or the error, which is logged.
  unfoldable pub set_up :
      String → Result RuntimeBinding → Act (Service W) (Option RuntimeBinding × Option String)
  set_up agent_id (ok binding) = give (some binding, none)
  set_up agent_id (throws e) = do
    warn (concat ("dsh-chaos: created Agent " ∷ agent_id ∷ " without a Session" ∷ []))
    warn e
    give (none, some e)

  unfoldable pub create_configured_agent :
      (display_name description provider model preset_id : String) → Act (Service W) CreatedAgent
  create_configured_agent display_name description provider model preset_id = do
    preset ← usable_preset preset_id
    native ← require_handle (
        core.create_agent_profile (trim display_name) (trim display_name) (agent_place "{id}")
          (record {
            schema_version = 1;
            summary = trim description;
            capabilities = [];
            constraints = [];
          }))
    let place = agent_place native.actor.id
    made ← attempt (
        create_runtime (record {
          agent_id = native.actor.id;
          workspace_path = place;
          provider = provider;
          model = model;
          preset = preset.id;
          session_id = none;
        }))
    (binding, setup_error) ← set_up native.actor.id made
    publish_change platform
    give (record {
      profile = record (profile_view native binding) { workspace_path = place };
      setup_error = setup_error;
    })

  -- The Session stops first.
  unfoldable pub delete_agent : String → Act (Service W) (Unit {0})
  delete_agent agent_id = do
    stop_runtime agent_id
    require_handle (core.delete_agent agent_id)
    update_runtimes (forget_identity agent_id)
    publish_change platform

  unfoldable pub list_agent_presets : Act (Service W) (List PresetSummary)
  list_agent_presets = do
    presets ← outside platform.list_presets
    give (
        map (preset_summary platform.default_preset)
          (filter (λ p. is_supported_agent_preset p.id) presets))

  unfoldable pub agent_profile : (viewer_id agent_id : String) → Act (Service W) AgentProfile
  agent_profile viewer_id agent_id = do
    require_visible_agent viewer_id agent_id >>= λ _. give tt
    profile ← require_handle (core.agent_profile agent_id)
    binding ← require_handle (core.runtime_binding agent_id)
    give (profile_view profile binding)

  unfoldable pub agent_profiles : (viewer_id : String) → Act (Service W) (List AgentProfile)
  agent_profiles viewer_id = do
    (profiles, bindings) ←
        both (require_handle (core.list_agent_profiles viewer_id))
          (require_handle core.list_runtime_bindings)
    let by_agent = bindings_by_agent bindings []
    give (map (λ p. profile_view p (lookup p.actor.id by_agent)) profiles)

  -- The end of both updates of a profile.
  unfoldable pub project_profile : Profile → String → Act (Service W) AgentProfile
  project_profile updated agent_id = do
    update_runtimes (update_identity_projection updated)
    binding ← require_handle (core.runtime_binding agent_id)
    publish_change platform
    give (profile_view updated binding)

  unfoldable pub update_agent_profile :
      (viewer_id agent_id display_name description expected_version : String)
      → Act (Service W) AgentProfile
  update_agent_profile viewer_id agent_id display_name description expected_version = do
    require_visible_agent viewer_id agent_id >>= λ _. give tt
    profile ← require_handle (core.agent_profile agent_id)
    updated ← require_handle (
        core.update_agent_profile agent_id display_name
          (record profile.charter { schema_version = 1; summary = description }) expected_version)
    project_profile updated agent_id

  unfoldable pub update_agent_avatar :
      (viewer_id agent_id : String)
      → Option String
      → (expected_version : String) → Act (Service W) AgentProfile
  update_agent_avatar viewer_id agent_id avatar expected_version = do
    require_visible_agent viewer_id agent_id >>= λ _. give tt
    updated ← require_handle (core.update_agent_avatar agent_id avatar expected_version)
    project_profile updated agent_id

  unfoldable pub replace_agent_runtime :
      (viewer_id agent_id provider model preset_id : String)
      → Option String
      → Act (Service W) RuntimeBinding
  replace_agent_runtime viewer_id agent_id provider model preset_id generation = do
    profile ← agent_profile viewer_id agent_id
    preset ← usable_preset preset_id
    binding ←
        reset_runtime
          (record {
            agent_id = agent_id;
            workspace_path = profile.workspace_path;
            provider = provider;
            model = model;
            preset = preset.id;
            session_id = none;
          })
          generation
    publish_change platform
    give binding

  unfoldable pub agent_workspace :
      (viewer_id agent_id dir_path : String) → Bool → Act (Service W) (List Entry)
  agent_workspace viewer_id agent_id dir_path include_hidden = do
    profile ← agent_profile viewer_id agent_id
    outside (
        list_agent_workspace files compare_names sep_char profile.workspace_path dir_path
          include_hidden)

  unfoldable pub agent_workspace_file : (viewer_id agent_id path : String) → Act (Service W) Preview
  agent_workspace_file viewer_id agent_id path = do
    profile ← agent_profile viewer_id agent_id
    outside (read_agent_workspace_file files profile.workspace_path path)
