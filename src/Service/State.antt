-- ===== src/Service/State.antt =====
-- src/index.ts: the state of `CollabService`, the guards on its handle and its manager, and
-- `publishChange`.
use dsh_chaos.Common.{ℕ, ◌+◌, String, Bool, Option, none, some, List, [], ◌∷◌, ◌++◌, if◌then◌else◌}
use dsh_chaos.Common.Results.{Result, ok, throws}
use dsh_chaos.Common.Acts.{Act, give, ◌>>=◌, ◌>>◌}
use dsh_chaos.Runtime.Host.{Host, Manager, Machine, M}
use dsh_chaos.Delivery.Bridge.{Bridge}
use dsh_chaos.Workspace.Files.{Files}
use dsh_chaos.Workspace.Seeds.{initialize_agent_workspace}
use dsh_chaos.Service.Core.{Core, Platform}

pub record Service (W : Type 0) : Type 0 where
  -- Whether `handle` is set.
  pub active : Bool
  pub runtimes : Option Manager
  pub delivery : Option Bridge
  -- The retention of changes: whether its timer is set, and `retentionStopped`.
  pub retention_timer : Bool
  pub retention_stopped : Bool
  -- `changeListeners`, each listener by its number.
  pub listeners : List ℕ
  -- How often `publishChange` has run.
  pub publications : ℕ
  pub world : W
  pub warnings : List String

unfoldable pub get_state : {S : Type 0} → Act S S
get_state s = (ok s, s)

unfoldable pub set_state : {S : Type 0} → S → Act S (Unit {0})
set_state t s = (ok tt, t)

-- `this.requireHandle()`, and then one call of the handle.
unfoldable pub require_handle : {W A : Type 0} → Act W A → Act (Service W) A
require_handle c s =
    if s.active
    then ((c s.world).0, record s { world = (c s.world).1 })
    else (throws "dsh-chaos collab service is not active", s)

-- A call of the platform.
unfoldable pub outside : {W A : Type 0} → Act W A → Act (Service W) A
outside c s = ((c s.world).0, record s { world = (c s.world).1 })

unfoldable pub warn : {W : Type 0} → String → Act (Service W) (Unit {0})
warn text s = (ok tt, record s { warnings = s.warnings ++ text ∷ [] })

-- What a run of the manager leaves.
abbrev pub keep_run : {W A : Type 0} → Service W → Result A × Machine W → Result A × Service W
keep_run s (r, machine) = (
  r,
  record s { runtimes = some machine.manager; world = machine.world; warnings = machine.warnings },
)

-- `this.requireRuntimes()`, and then one operation of the manager.
unfoldable pub require_runtimes : {W A : Type 0} → M W A → Act (Service W) A
require_runtimes m s = elim s.runtimes [
  | none ↦ (throws "dsh-chaos RuntimeManager is not active", s)
  | some manager ↦
      keep_run s (m (record { manager = manager; world = s.world; warnings = s.warnings }))
]

-- The core's operation as the manager calls it, through the service.
abbrev pub through : {W A : Type 0} → Bool → Act W A → Act W A
through active c w = if active then c w else (throws "dsh-chaos collab service is not active", w)

module _ {W Handle : Type 0} where
  -- The manager's `collab` is the service, and its Preset roster and registry are the platform's.
  unfoldable pub host_of :
      Core W → Platform W → Files W Handle → (instructions : String) → Bool → Host W
  host_of core platform files instructions active = record {
    runtime_binding = λ id. through active (core.runtime_binding id);
    runtime_binding_for_session = λ id. through active (core.runtime_binding_for_session id);
    list_runtime_bindings = through active core.list_runtime_bindings;
    bind_runtime = λ a s p m q. through active (core.bind_runtime a s p m q);
    update_runtime_preset = λ a g s p. through active (core.update_runtime_preset a g s p);
    rearm_runtime_wake = λ a g s. through active (core.rearm_runtime_wake a g s);
    mark_model_seen = λ b a g s. through active (core.mark_model_seen b a g s);
    identity_of =
        λ id. through active (core.identity_context id none >>= λ context. give context.agent);
    create_agent = platform.create_agent;
    resume_agent = platform.resume_agent;
    dispose = platform.dispose;
    set_permission = platform.set_permission;
    append_preset_selected = platform.append_preset_selected;
    resolve_preset = λ id. platform.resolve_preset id >>= λ preset. give preset.id;
    initialize_workspace = initialize_agent_workspace files instructions;
    is_absolute = files.is_absolute;
    random_uuid = platform.random_uuid;
  }

module _ {W : Type 0} (platform : Platform W) where
  abbrev pub heard : Service W → (Result (Unit {0}) × List ℕ) × W → Service W
  heard s ((ok u, listeners), w) = record s { listeners = listeners; world = w }
  heard s ((throws e, listeners), w) = record s {
    listeners = listeners;
    world = w;
    warnings = s.warnings ++ "dsh-chaos change listener threw" ∷ e ∷ [];
  }

  -- The loop over the copy of the listeners; one that throws is logged.
  unfoldable pub notify_each : List ℕ → Service W → Service W
  notify_each [] s = s
  notify_each (l ∷ ls) s = notify_each ls (heard s (platform.notify l s.listeners s.world))

  unfoldable pub publish_change : Act (Service W) (Unit {0})
  publish_change s =
      (ok tt, notify_each s.listeners (record s { publications = s.publications + 1 }))

  -- `const result = await call; this.publishChange(); return result`.
  unfoldable pub published : {A : Type 0} → Act (Service W) A → Act (Service W) A
  published m = do a ← m; publish_change; give a
