-- ===== src/Runtime/Tests.antt =====
-- Runs of the runtime manager, and its theorems over a concrete host.
use dsh_chaos.Common.{String, Bool, true, false, Option, none, some, [], ◌∷◌, ◌≡◌, ◌≢◌, ◌⊎◌, refl}
use dsh_chaos.Common.Maps.{lookup, ne_of_test}
use dsh_chaos.Common.Results.{ok, throws}
use dsh_chaos.Wire.{agent, Profile, ProfileLifecycle, RuntimeBinding}
use dsh_chaos.Common.{List, length, ◌≤◌, ◌++◌}
use dsh_chaos.Common.Maps.{insert, delete}
use dsh_chaos.Common.Texts.{trim}
use dsh_chaos.Runtime.Locks.{
  waiting, running as under_way, no_locks, op_at, acquire, begin, finish, Event, called, resumed,
  ended, lock_step, lock_run,
}
use dsh_chaos.Runtime.Queue.{AllReleased}
use dsh_chaos.Runtime.Turns.{
  runs_on, before, Proceeds, lock_run-one_runs, lock_run-in_order, lock_run-Proceeds,
}
use dsh_chaos.Runtime.Host.{Agent, Host, Machine}
use dsh_chaos.Runtime.Manager.{resolve}
use dsh_chaos.Runtime.Lifecycle.{CreateInput, Prepared, create, reset, resume, stop, running}
use dsh_chaos.Runtime.Isolation.{operations_isolated}
use dsh_chaos.Runtime.Outcomes.{reset-leases}
use dsh_chaos.Runtime.Fences.{reset_fence, binding_for_execution-is_current}

abbrev bound : String → String → RuntimeBinding
bound session generation = record {
  agent_id = "a";
  session_id = session;
  generation = generation;
  provider = "default";
  model = "m";
  preset = "code";
  bound_at_ms = 0;
}

abbrev profile : Profile
profile = record {
  actor = record {
    id = "a";
    kind = agent;
    handle = "a";
    display_name = "A";
    created_at_ms = 0;
    avatar_data_url = none;
  };
  workspace_path = "/w";
  lifecycle = ProfileLifecycle.active;
  charter = record { schema_version = 1; summary = ""; capabilities = []; constraints = [] };
  version = "1";
  created_at_ms = 0;
  updated_at_ms = 0;
}

-- A core that knows one binding of the Agent, and binds a new Session as generation 2. Disposing an
-- Agent works where `disposes` says so.
abbrev host : Bool → Host (Unit {0})
host disposes = record {
  runtime_binding = λ id w. (ok (some (bound "s" "1")), w);
  runtime_binding_for_session = λ id w. (ok (some (bound "s" "1")), w);
  list_runtime_bindings = λ w. (ok [], w);
  bind_runtime = λ id session provider model preset w. (ok (bound session "2"), w);
  update_runtime_preset = λ id generation session preset w. (ok (bound session generation), w);
  rearm_runtime_wake = λ id generation session w. (ok tt, w);
  mark_model_seen = λ batch id generation session w. (ok tt, w);
  identity_of = λ id w. (ok profile, w);
  create_agent = λ session cwd preset options w. (ok (record { key = 2; id = session }), w);
  resume_agent = λ session preset options w. (ok (record { key = 3; id = session }), w);
  dispose = λ a w. (elim disposes [ true ↦ ok tt | false ↦ throws "stuck" ], w);
  set_permission = λ a p w. (ok tt, w);
  append_preset_selected = λ a p w. (ok tt, w);
  resolve_preset = λ p w. (ok p, w);
  initialize_workspace = λ path p w. (ok tt, w);
  is_absolute = λ path. true;
  random_uuid = λ w. (ok "t", w);
}

abbrev machine : Bool → Machine (Unit {0})
machine closing = record {
  manager = record {
    active = ("a", record { binding = bound "s" "1"; agent = record { key = 1; id = "s" } }) ∷ [];
    identities = [];
    pending_receipts = [];
    closing = closing;
  };
  world = tt;
  warnings = [];
}

abbrev input : CreateInput
input = record {
  agent_id = "a";
  workspace_path = "/w";
  provider = "default";
  model = "m";
  preset = "code";
  session_id = none;
}

abbrev blank_input : CreateInput
blank_input = record input { model = " " }

operations_isolated_example :
    let s = machine false in
    (lookup "b" (create (host true) input s).1.active ≡ none)
    × (lookup "b" (reset (host true) input (some "1") s).1.active ≡ none)
    × (lookup "b" (resume (host true) "a" s).1.active ≡ none)
    × (lookup "b" (stop (host true) "a" s).1.active ≡ none)
unfolding lookup
operations_isolated_example =
    operations_isolated (host true) input (some "1") "b" (machine false) (ne_of_test "a" "b" refl)

reset-leases_example :
    (a : Agent) × (lookup "a" (reset (host true) input (some "1") (machine false)).1.active
      ≡ some (record { binding = bound "t" "2"; agent = a }))
unfolding running
reset-leases_example =
    reset-leases (host true) input (some "1") (bound "t" "2") (machine false) refl

abbrev prepared : Prepared
prepared = record { preset = "code"; session_id = "t" }

reset_fence_example :
    (((host true).runtime_binding "a" tt).0 ≡ ok none × (◌≡◌ {A = Option String} (some "1") none))
    ⊎ ((current : RuntimeBinding) × (((host true).runtime_binding "a" tt).0 ≡ ok (some current))
        × (◌≡◌ {A = Option String} (some "1") (some current.generation)))
unfolding running
reset_fence_example = reset_fence (host true) input (some "1") (bound "t" "2") (machine false) refl

binding_for_execution-is_current_example :
    (((host true).runtime_binding_for_session "s" tt).0 ≡ ok (some (bound "s" "1")))
    × ((a : Agent) × (resolve (bound "s" "1") (machine false).manager ≡ some a) × (a.key ≡ 1))
unfolding running
binding_for_execution-is_current_example =
    binding_for_execution-is_current (host true) (record { key = 1; id = "s" }) (bound "s" "1")
      (machine false) refl

-- Two operations on one Agent and one on another: the second waits for the first.
abbrev calls : List Event
calls = called "a" ∷ called "a" ∷ called "b" ∷ resumed 0 ∷ resumed 1 ∷ resumed 2 ∷ []

second_waits :
    op_at 1 (lock_run calls no_locks).ops
    ≡ some (record { agent = "a"; predecessor = some 0; phase = waiting })
unfolding lock_run lock_step acquire begin finish lookup insert delete trim
second_waits = refl

lock_run-one_runs_example : length (runs_on "a" (lock_run calls no_locks).ops) ≤ 1
lock_run-one_runs_example = lock_run-one_runs calls "a"

running_begun : under_way ≢ waiting
running_begun e = cc

lock_run-in_order_example :
    AllReleased "a" (before 1 (lock_run (calls ++ ended 0 ∷ resumed 1 ∷ []) no_locks).ops)
unfolding lock_run lock_step acquire begin finish lookup insert delete trim
lock_run-in_order_example =
    lock_run-in_order (calls ++ ended 0 ∷ resumed 1 ∷ []) 1
      (record { agent = "a"; predecessor = some 0; phase = under_way }) refl running_begun

lock_run-Proceeds_example :
    let s = lock_run calls no_locks in
    Proceeds "a" s.ops ⊎ (AllReleased "a" s.ops × (lookup "a" s.locks ≡ none))
lock_run-Proceeds_example = lock_run-Proceeds calls "a"
