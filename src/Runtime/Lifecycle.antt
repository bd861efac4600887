-- ===== src/Runtime/Lifecycle.antt =====
-- src/runtime.ts: how Sessions are created, replaced, resumed, stopped and closed. Each operation
-- runs under its Agent's lock, which orders the operations on one Agent; here they run in turn.
use dsh_chaos.Common.{
  String, Bool, true, false, ◌&&◌, Option, none, some, List, [], ◌∷◌, nat_eq, if◌then◌else◌, ◌==◌,
}
use dsh_chaos.Common.Maps.{lookup, insert, delete, values}
use dsh_chaos.Common.Texts.{concat, trim}
use dsh_chaos.Common.Results.{Result, ok, throws}
use dsh_chaos.Wire.{Profile, RuntimeBinding}
use dsh_chaos.Runtime.Policy.{require_supported_agent_preset, is_supported_agent_preset}
use dsh_chaos.Runtime.Host.{
  Agent, AgentOptions, Host, Lease, Manager, M, pure, fail, ◌>>=◌, ◌>>◌, try_catch, require, call,
  throw_of, manager_of, set_manager, warn, monad,
}
use dsh_chaos.Runtime.Manager.{
  same_binding, require_text, assert_active, update_identity_projection, dispose_lease, resolve,
  binding_for_execution,
}

pub record CreateInput : Type 0 where
  pub agent_id : String
  pub workspace_path : String
  pub provider : String
  pub model : String
  pub preset : String
  pub session_id : Option String

pub record Prepared : Type 0 where
  pub preset : String
  pub session_id : String

abbrev pub chaos_permission_preset : String
chaos_permission_preset = "danger-full-access"

module _ {W : Type 0} (host : Host W) where
  unfoldable pub resolve_preset : String → M W String
  resolve_preset requested = do
    id ← throw_of (require_supported_agent_preset requested)
    call (host.resolve_preset id)

  -- The projection, then the files of the workspace.
  unfoldable pub prepare_identity : String → Profile → M W (Unit {0})
  prepare_identity path identity = do
    m ← manager_of
    set_manager (update_identity_projection identity m)
    call (host.initialize_workspace path identity)

  unfoldable pub session_id_of : Option String → M W String
  session_id_of none = call host.random_uuid
  session_id_of (some id) = pure id

  unfoldable pub prepare_runtime : CreateInput → M W Prepared
  prepare_runtime input = do
    assert_active
    require_text "agentId" input.agent_id
    require_text "workspacePath" input.workspace_path
    require_text "provider" input.provider
    require_text "model" input.model
    require_text "preset" input.preset
    require (host.is_absolute input.workspace_path) "workspacePath must be absolute"
    session_id ← session_id_of input.session_id
    require_text "sessionId" session_id
    preset ← resolve_preset input.preset
    identity ← call (host.identity_of input.agent_id)
    require (input.workspace_path == identity.workspace_path)
        "workspacePath must match the durable Agent Profile"
    prepare_identity input.workspace_path identity
    pure (record { preset = preset; session_id = session_id })

  -- `active.set(agentId, { binding, handle })`.
  unfoldable pub activate : String → RuntimeBinding → Agent → M W RuntimeBinding
  activate agent_id binding agent = do
    m ← manager_of
    set_manager (record m {
      active = insert agent_id (record { binding = binding; agent = agent }) m.active;
    })
    pure binding

  -- The handler of both publications: dispose the new handle, then throw.
  unfoldable pub dispose_failed : Agent → String → String → M W RuntimeBinding
  dispose_failed agent text error = do
    try_catch (call (host.dispose agent)) λ _. fail text
    fail error

  unfoldable pub publish : CreateInput → Prepared → Agent → M W RuntimeBinding
  publish input prepared agent = do
    call (host.set_permission agent chaos_permission_preset)
    binding ← call (
        host.bind_runtime input.agent_id prepared.session_id input.provider input.model
          prepared.preset)
    activate input.agent_id binding agent

  abbrev create_options : CreateInput → Option AgentOptions
  create_options input =
      if input.provider == "default"
      then none
      else some (record { provider = input.provider; model = input.model })

  unfoldable pub create_prepared : CreateInput → Prepared → M W RuntimeBinding
  create_prepared input prepared = do
    dispose_lease host input.agent_id
    agent ← call (
        host.create_agent prepared.session_id input.workspace_path prepared.preset
          (create_options input))
    try_catch (publish input prepared agent)
        (dispose_failed agent (concat ("failed to bind and dispose Agent " ∷ input.agent_id ∷ [])))

  -- The Preset that the binding names may be an alias: the resolved one is recorded.
  unfoldable pub repin_preset : RuntimeBinding → Agent → String → M W RuntimeBinding
  repin_preset binding agent preset = if preset == binding.preset then pure binding else (do
    call (host.append_preset_selected agent preset)
    call (host.update_runtime_preset binding.agent_id binding.generation binding.session_id preset))

  unfoldable pub require_current : String → RuntimeBinding → M W (Unit {0})
  require_current agent_id binding = do
    current ← call (host.runtime_binding agent_id)
    require (elim current [ none ↦ false | some c ↦ same_binding c binding ])
        (concat ("runtime binding changed while resuming Agent " ∷ agent_id ∷ []))

  unfoldable pub republish : String → RuntimeBinding → String → Agent → M W RuntimeBinding
  republish agent_id found preset agent = do
    binding ← repin_preset found agent preset
    require_current agent_id binding
    call (host.rearm_runtime_wake binding.agent_id binding.generation binding.session_id)
    activate agent_id binding agent

  -- The binding to resume, which must be the expected one where one is given.
  unfoldable pub binding_to_resume : String → Option RuntimeBinding → M W RuntimeBinding
  binding_to_resume agent_id expected = do
    found ← call (host.runtime_binding agent_id)
    elim found [
      | none ↦ fail (concat ("no runtime binding for Agent " ∷ agent_id ∷ []))
      | some binding ↦ do
        require (elim expected [ none ↦ true | some e ↦ same_binding binding e ])
            (concat ("runtime binding changed before recovering Agent " ∷ agent_id ∷ []))
        pure binding
    ]

  unfoldable pub resume_locked : String → Option RuntimeBinding → M W RuntimeBinding
  resume_locked agent_id expected = do
    assert_active
    binding ← binding_to_resume agent_id expected
    preset ← resolve_preset binding.preset
    identity ← call (host.identity_of agent_id)
    prepare_identity identity.workspace_path identity
    dispose_lease host agent_id
    agent ← call (
        host.resume_agent binding.session_id preset
          (record { provider = binding.provider; model = binding.model }))
    try_catch (republish agent_id binding preset agent)
        (dispose_failed agent (concat ("failed to resume and dispose Agent " ∷ agent_id ∷ [])))

  unfoldable pub create : CreateInput → M W RuntimeBinding
  create input = do
    require_text "agentId" input.agent_id
    prepared ← prepare_runtime input
    create_prepared input prepared

  -- The fence of `reset`: nothing bound where no generation is expected, or exactly that one.
  unfoldable pub check_generation :
      String → Option RuntimeBinding → Option String → Result (Unit {0})
  check_generation agent_id none none = ok tt
  check_generation agent_id (some current) none = throws (
      concat (
        "[runtime_generation_mismatch] Agent " ∷ agent_id ∷ " already has generation "
        ∷ current.generation ∷ []))
  check_generation agent_id none (some expected) = throws (
      concat (
        "[runtime_generation_mismatch] Agent " ∷ agent_id ∷ " expected generation " ∷ expected
        ∷ ", current generation is none" ∷ []))
  check_generation agent_id (some current) (some expected) =
      if current.generation == expected
      then ok tt
      else throws (
          concat (
            "[runtime_generation_mismatch] Agent " ∷ agent_id ∷ " expected generation " ∷ expected
            ∷ ", current generation is " ∷ current.generation ∷ []))

  -- What `reset` does where the replacement failed.
  unfoldable pub recover : String → Option RuntimeBinding → String → M W RuntimeBinding
  recover agent_id none error = fail error
  recover agent_id (some current) error =
      try_catch (resume_locked agent_id (some current))
        (λ _. fail (concat ("failed to replace and recover Agent " ∷ agent_id ∷ [])))
      >>= λ _. fail error

  unfoldable pub reset : CreateInput → Option String → M W RuntimeBinding
  reset input expected_generation = do
    require_text "agentId" input.agent_id
    assert_active
    current ← call (host.runtime_binding input.agent_id)
    throw_of (check_generation input.agent_id current expected_generation)
    prepared ← prepare_runtime input
    try_catch (create_prepared input prepared) (recover input.agent_id current)

  unfoldable pub resume : String → M W RuntimeBinding
  resume agent_id = do require_text "agentId" agent_id; resume_locked agent_id none

  unfoldable pub stop : String → M W (Unit {0})
  stop agent_id = do require_text "agentId" agent_id; dispose_lease host agent_id

  -- The loop of `restore`: a Session that does not resume is logged.
  unfoldable pub resume_each : List RuntimeBinding → M W (Unit {0})
  resume_each [] = pure tt
  resume_each (b ∷ bs) = do
    try_catch (resume b.agent_id >>= λ _. pure tt)
        λ _. warn (concat ("dsh-chaos: failed to resume Agent " ∷ b.agent_id ∷ []))
    resume_each bs

  unfoldable pub restore : M W (Unit {0})
  restore = do bindings ← call host.list_runtime_bindings; resume_each bindings

  -- `active.delete`, if the map still holds this very lease.
  unfoldable pub drop_lease : Lease → Manager → Manager
  drop_lease lease m = elim (lookup lease.binding.agent_id m.active) [
    | none ↦ m
    | some held ↦
        if nat_eq held.agent.key lease.agent.key
        then record m { active = delete lease.binding.agent_id m.active }
        else m
  ]

  -- The leases that `close` disposes; whether all went well.
  unfoldable pub dispose_each : List Lease → M W Bool
  dispose_each [] = pure true
  dispose_each (l ∷ ls) = do
    gone ←
        try_catch
          (do call (host.dispose l.agent); m ← manager_of; set_manager (drop_lease l m); pure true)
          λ _. pure false
    rest ← dispose_each ls
    pure (gone && rest)

  unfoldable pub close_open : Manager → M W (Unit {0})
  close_open m = do
    set_manager (record m { closing = true; pending_receipts = [] })
    all_gone ← dispose_each (values m.active)
    require all_gone "failed to dispose one or more DSH Agents"
    after ← manager_of
    set_manager (record after { identities = [] })

  unfoldable pub close : M W (Unit {0})
  close = do m ← manager_of; if m.closing then pure tt else close_open m

-- The manager's operations together, for the tests.
unfoldable pub running : Unit {0}
unfolding monad same_binding require_text assert_active update_identity_projection resolve
    dispose_lease binding_for_execution resolve_preset prepare_identity session_id_of
    prepare_runtime activate dispose_failed publish create_prepared repin_preset require_current
    republish binding_to_resume resume_locked create check_generation recover reset resume stop
    require_supported_agent_preset is_supported_agent_preset lookup insert delete trim
running = tt
