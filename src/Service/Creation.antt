-- ===== src/Service/Creation.antt =====
-- A created Agent keeps its identity where its Session fails, and its files are read in its workspace.
use dsh_chaos.Common.{ℕ, String, Bool, Option, none, some, [], ◌≡◌, refl, ap, ◌∙◌, ◌⊎◌, inl, inr}
use dsh_chaos.Common.Texts.{trim}
use dsh_chaos.Common.Results.{Result, ok, throws}
use dsh_chaos.Common.Acts.{give, bind_ok, bind-eq-ok, acting}
use dsh_chaos.Wire.{Profile, RuntimeBinding, Charter}
use dsh_chaos.Runtime.Lifecycle.{CreateInput}
use dsh_chaos.Workspace.Files.{Files}
use dsh_chaos.Workspace.Paths.{SafePath, safe_workspace_path}
use dsh_chaos.Workspace.Confinement.{IsConfined, safe_workspace_path-IsConfined}
use dsh_chaos.Workspace.Preview.{Preview, read_agent_workspace_file}
use dsh_chaos.Service.Core.{Core, Platform, Preset}
use dsh_chaos.Service.State.{Service, require_handle, outside, publish_change, warn}
use dsh_chaos.Service.Agents.{
  CreatedAgent, AgentProfile, usable_preset, agent_place, create_runtime, create_configured_agent,
  attempt, set_up, profile_view, agent_profile, agent_workspace_file,
}

module _ {W Handle : Type 0} (core : Core W) (platform : Platform W) (files : Files W Handle)
    (instructions : String) (compare_names : String → String → Bool) (sep_char : ℕ) where
  -- The charter and the runtime that are asked for.
  abbrev pub charter_of : String → Charter
  charter_of description = record {
    schema_version = 1;
    summary = trim description;
    capabilities = [];
    constraints = [];
  }

  abbrev pub input_of : Profile → (provider model preset : String) → CreateInput
  input_of native provider model preset = record {
    agent_id = native.actor.id;
    workspace_path =
        agent_place core platform files instructions compare_names sep_char native.actor.id;
    provider = provider;
    model = model;
    preset = preset;
    session_id = none;
  }

  -- How the setup of the Session shows in the answer.
  abbrev pub Reports : Result RuntimeBinding → CreatedAgent → Type 0
  Reports made c =
      ((b : RuntimeBinding) × (made ≡ ok b) × (c.profile.binding ≡ some b) × (c.setup_error ≡ none))
      ⊎ ((e : String) × (made ≡ throws e) × (c.profile.binding ≡ none) × (c.setup_error ≡ some e))

  set_up_lem :
      (g : String) (made : Result RuntimeBinding) (s : Service W)
      → (b : Option RuntimeBinding) × (e : Option String) × (v : Service W) × (set_up core platform
            files instructions compare_names sep_char g made s
          ≡ (ok (b, e), v))
        × (((x : RuntimeBinding) × (made ≡ ok x) × (b ≡ some x) × (e ≡ none))
            ⊎ ((x : String) × (made ≡ throws x) × (b ≡ none) × (e ≡ some x)))
  unfolding set_up warn acting
  set_up_lem g (ok x) s = (some x, none, s, refl, inl (x, refl, refl, refl))
  set_up_lem g (throws x) s = (none, some x, _, refl, inr (x, refl, refl, refl))

  -- Where the Preset is usable and the core creates the identity, `createConfiguredAgent` returns
  -- that identity, in its own folder, whether its Session could be set up or not: with the binding
  -- that was made, or without one and with the error.
  pub create_configured_agent-keeps :
      (name description provider model preset_id : String) (s t u : Service W) (preset : Preset)
      (native : Profile)
      → usable_preset core platform files instructions compare_names sep_char preset_id s
        ≡ (ok preset, t)
      → require_handle
          (core.create_agent_profile
            (trim name)
            (trim name)
            (agent_place core platform files instructions compare_names sep_char "{id}")
            (charter_of description))
          t
        ≡ (ok native, u)
      → (c : CreatedAgent) × ((create_configured_agent core platform files instructions
            compare_names sep_char name description provider model preset_id s).0
          ≡ ok c)
        × (c.profile.actor ≡ native.actor)
        × (c.profile.workspace_path
            ≡ agent_place core platform files instructions compare_names sep_char native.actor.id)
        × Reports
            (create_runtime core platform files instructions compare_names sep_char
              (input_of native provider model preset.id)
              u).0
            c
  unfolding create_configured_agent attempt publish_change give profile_view
  create_configured_agent-keeps name description provider model preset_id s t u preset native h k =
      let made =
        create_runtime core platform files instructions compare_names sep_char
          (input_of native provider model preset.id) u in
      let (b, e, v, ended, reported) = set_up_lem native.actor.id made.0 made.1 in
      let place =
        agent_place core platform files instructions compare_names sep_char native.actor.id in
      let c : CreatedAgent = record {
        profile = record (profile_view native b) { workspace_path = place };
        setup_error = e;
      } in
      let chain =
        bind_ok _ _ s t preset h
        ∙ bind_ok _ _ t u native k
        ∙ bind_ok _ _ u made.1 made.0 refl
        ∙ bind_ok _ _ made.1 v (b, e) ended
        ∙ bind_ok (publish_change platform) (λ _. give c) v _ tt refl in
      (c, ap (λ r. r.0) chain, refl, refl, reported)

  -- A file that is shown is read in the workspace that the core has for the Agent: its path was
  -- found safe there.
  pub agent_workspace_file-IsConfined :
      (viewer agent path : String) (s : Service W) (p : Preview)
      → (agent_workspace_file core platform files instructions compare_names sep_char viewer agent
          path s).0
        ≡ ok p
      → (profile : AgentProfile) × (place : SafePath) × (w : W) × ((agent_profile core platform
            files instructions compare_names sep_char viewer agent s).0
          ≡ ok profile)
        × ((safe_workspace_path files profile.workspace_path path w).0 ≡ ok place)
        × IsConfined files profile.workspace_path path w place
  unfolding agent_workspace_file read_agent_workspace_file outside
  agent_workspace_file-IsConfined viewer agent path s p h =
      let (profile, shown, h1) = bind-eq-ok _ _ s p h in
      let w =
        (agent_profile core platform files instructions compare_names sep_char viewer agent
          s).1.world in
      let (place, safe, h2) = bind-eq-ok _ _ w p h1 in
      (
        profile,
        place,
        w,
        shown,
        safe,
        safe_workspace_path-IsConfined files profile.workspace_path path w place safe,
      )
