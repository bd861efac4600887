-- ===== src/Service/Tests.antt =====
-- Runs of the service over a concrete core.
use dsh_chaos.Common.{
  ◌+◌, String, Bool, true, false, none, some, List, [], ◌∷◌, ◌≡◌, ◌⊎◌, refl, inl,
}
use dsh_chaos.Common.Maps.{ne_of_test}
use dsh_chaos.Common.Splits.{join_with}
use dsh_chaos.Common.Results.{ok, throws}
use dsh_chaos.Common.Acts.{Act, acting}
use dsh_chaos.Wire
use dsh_chaos.Wire.{Actor, ActorKind, Profile, RuntimeBinding, Target, Task}
use dsh_chaos.Runtime.Lifecycle.{running}
use dsh_chaos.Remote.Request.{Request}
use dsh_chaos.Workspace.Files.{Files, file, exists}
use dsh_chaos.Workspace.Preview.{Preview}
use dsh_chaos.Service.Core.{Core, Platform, Preset, Trust}
use dsh_chaos.Service.State.{
  Service, require_handle, require_runtimes, outside, publish_change, notify_each, host_of,
}
use dsh_chaos.Service.Agents.{
  CreatedAgent, usable_preset, create_runtime, create_configured_agent, delete_agent, agent_place,
  unless_broken, stop_runtime, managed, update_runtimes,
}
use dsh_chaos.Service.Serve.{Reply, serve}
use dsh_chaos.Service.Publication.{so_far}
use dsh_chaos.Service.Requests.{is_change, serve-publishes}
use dsh_chaos.Service.Visibility.{refused, serve-hides}
use dsh_chaos.Service.Creation.{Reports, input_of, create_configured_agent-keeps}
use dsh_chaos.Service.Lifetime.{close_runtime_stack}
use dsh_chaos.Service.Shutdown.{IsClosed, close_runtime_stack-IsClosed, closed_refuses}
use dsh_chaos.Service.Deletion.{Forgotten, delete_agent-Forgotten}

abbrev actor : Actor
actor = record {
  id = "a";
  kind = ActorKind.agent;
  handle = "a";
  display_name = "A";
  created_at_ms = 0;
  avatar_data_url = none;
}

abbrev profile : Profile
profile = record {
  actor = actor;
  workspace_path = "/w";
  lifecycle = Wire.ProfileLifecycle.active;
  charter = record { schema_version = 1; summary = ""; capabilities = []; constraints = [] };
  version = "1";
  created_at_ms = 0;
  updated_at_ms = 0;
}

abbrev target : Target
target = record {
  id = "t";
  kind = Wire.TargetKind.channel;
  name = "n";
  description = "d";
  lifecycle = Wire.Lifecycle.active;
  version = "1";
  parent_target_id = none;
  root_message_id = none;
  created_by = "u";
  created_at_ms = 0;
  updated_at_ms = 0;
  archived_at_ms = none;
  deleted_at_ms = none;
}

abbrev task : Task
task = record {
  message_id = "m";
  target_id = "t";
  number = "1";
  status = Wire.TaskStatus.todo;
  assignee_id = none;
  version = "1";
  created_at_ms = 0;
  updated_at_ms = 0;
  anchor_text = none;
}

abbrev binding : RuntimeBinding
binding = record {
  agent_id = "a";
  session_id = "s";
  generation = "1";
  provider = "default";
  model = "m";
  preset = "code";
  bound_at_ms = 0;
}

abbrev message : Wire.Message
message = record {
  seq = "1";
  id = "m";
  target_id = "t";
  author_id = "u";
  client_request_id = "r";
  text = "x";
  created_at_ms = 0;
}

abbrev a_reply : {A : Type 0} → A → Act (List String) A
a_reply a w = (ok a, w)

-- A core with one Agent `a`, which logs the calls that change it.
abbrev core : Core (List String)
core = record {
  close = λ w. (throws "stuck", w);
  create_user = λ h d. a_reply actor;
  ensure_user = λ h d. a_reply actor;
  create_agent = λ h d p. a_reply actor;
  create_agent_profile = λ h d p c. a_reply profile;
  agent_profile = λ g. a_reply profile;
  list_agent_profiles = λ v. a_reply (profile ∷ []);
  update_agent_profile = λ g d c v. a_reply profile;
  update_agent_avatar = λ g u v. a_reply profile;
  identity_context = λ g t.
      a_reply (record { agent = profile; target = none; membership_target = none; members = [] });
  delete_agent = λ g w. (ok tt, "delete" ∷ w);
  create_channel = λ n d c. a_reply target;
  update_channel = λ t a n d v w. (ok target, "update" ∷ w);
  archive_channel = λ t a v. a_reply target;
  restore_channel = λ t a v. a_reply target;
  delete_channel = λ t a v. a_reply target;
  create_direct = λ a p. a_reply target;
  create_thread = λ r a. a_reply target;
  thread_summaries = λ a rs. a_reply [];
  follow_thread = λ t a. a_reply tt;
  unfollow_thread = λ t a. a_reply tt;
  add_member = λ t a b. a_reply tt;
  send_message = λ t a r x.
      a_reply
        (record { message = message; recipient_ids = []; wake_agent_ids = []; replayed = false });
  bind_runtime = λ a s p m q w. (throws "no room", w);
  runtime_binding = λ a. a_reply none;
  update_runtime_preset = λ a g s p. a_reply binding;
  runtime_binding_for_session = λ s. a_reply none;
  list_runtime_bindings = a_reply [];
  list_pending_wakes = λ n. a_reply [];
  mark_notified = λ a g s q. a_reply tt;
  rearm_runtime_wake = λ a g s. a_reply tt;
  check_inbox = λ a g s n. a_reply (record {
    id = none;
    agent_id = a;
    session_id = s;
    generation = g;
    messages = [];
    contexts = [];
    checked_at_ms = 0;
  });
  mark_model_seen = λ b a g s. a_reply tt;
  read_message = λ a t m. a_reply message;
  read_messages = λ a t q n. a_reply [];
  read_messages_tail = λ a t n. a_reply (record { count = "0"; messages = [] });
  inbox_list = λ a n c f. a_reply (record { items = []; next_cursor = none; active_count = "0" });
  inbox_done = λ a t q. a_reply tt;
  inbox_done_all = λ a. a_reply 0;
  list_actors = λ a. a_reply (actor ∷ []);
  list_target_members = λ a t. a_reply [];
  list_target_memberships = λ a t. a_reply [];
  list_agent_memberships = λ v a. a_reply [];
  snapshot = λ a.
      a_reply (record {
        actor = actor;
        cursor = "0";
        targets = [];
        followed_thread_ids = [];
        tasks = [];
      });
  list_changes = λ a q n. a_reply [];
  prune_changes_before = λ n. a_reply "0";
  create_task = λ m a. a_reply task;
  claim_task = λ m a. a_reply task;
  list_tasks = λ a t. a_reply [];
  unclaim_task = λ m a v. a_reply task;
  update_task_status = λ m a s v. a_reply task;
}

abbrev code_preset : Preset
code_preset = record {
  id = "code";
  trust = Trust.system;
  name = none;
  description = none;
  broken = none;
}

abbrev platform : Platform (List String)
platform = record {
  resolve_preset = λ p. a_reply code_preset;
  list_presets = a_reply (code_preset ∷ []);
  default_preset = "code";
  create_agent = λ s c p o. a_reply (record { key = 2; id = s });
  resume_agent = λ s p o. a_reply (record { key = 3; id = s });
  dispose = λ a. a_reply tt;
  set_permission = λ a p. a_reply tt;
  append_preset_selected = λ a p. a_reply tt;
  home = "/h";
  join = λ a b. join_with "/" (a ∷ b ∷ []);
  random_uuid = a_reply "u";
  now_ms = a_reply 0;
  open_collab = λ p. a_reply tt;
  user_name = none;
  to_lower_case = λ s. s;
  drain_ended = λ w. (ok tt, w);
  notify = λ l ls w. ((ok tt, ls), w);
}

abbrev disk : Files (List String) (Unit {0})
disk = record {
  sep = "/";
  is_absolute = λ path. false;
  resolve = λ root segments. join_with "/" (root ∷ segments);
  join = λ place name. join_with "/" (place ∷ name ∷ []);
  relative = λ from path. path;
  lstat = λ path. a_reply (record { kind = file; size = 0; modified_at_ms = 0 });
  realpath = λ path. a_reply path;
  readdir = λ path. a_reply [];
  open_read = λ path. a_reply tt;
  read = λ handle asked position. a_reply [];
  close = λ handle. a_reply tt;
  make_directory = λ path. a_reply tt;
  open_new = λ path. a_reply tt;
  write = λ handle content. a_reply tt;
  link = λ from path. a_reply exists;
  remove = λ path. a_reply tt;
  random_uuid = a_reply "u";
  is_utf8 = λ bytes. true;
  text_of = λ bytes. "";
}

abbrev shorter : String → String → Bool
shorter a b = true

abbrev service : Service (List String)
service = record {
  active = true;
  runtimes = some (record {
    active = ("a", record { binding = binding; agent = record { key = 1; id = "s" } }) ∷ [];
    identities = ("a", profile) ∷ [];
    pending_receipts = [];
    closing = false;
  });
  delivery = none;
  retention_timer = true;
  retention_stopped = false;
  listeners = 7 ∷ [];
  publications = 3;
  world = [];
  warnings = [];
}

abbrev rename : Request
rename = Request.update_channel "t" "u" "n" "d" "1"

serve-publishes_example :
    let r = serve core platform disk "i" shorter 47 rename service in
    ((is_change rename ≡ true) × (a : Reply) × (r.0 ≡ ok a) × (so_far r.1 ≡ so_far service + 1))
    ⊎ ((is_change rename ≡ true) × (e : String) × (r.0 ≡ throws e) × (so_far r.1 ≡ so_far service))
    ⊎ ((is_change rename ≡ false) × (so_far r.1 ≡ so_far service))
serve-publishes_example = serve-publishes core platform disk "i" shorter 47 rename service

abbrev stranger : Request
stranger = Request.replace_agent_runtime "u" "b" "p" "m" "code" none

serve-hides_example :
    serve core platform disk "i" shorter 47 stranger service
    ≡ refused core platform disk "i" shorter 47 "u" "b" service
serve-hides_example =
    serve-hides core platform disk "i" shorter 47 "u" "b" service (actor ∷ []) refl refl
      (inl (ne_of_test "a" "b" refl), tt) stranger refl

abbrev closed : Service (List String)
closed = record service { active = false; runtimes = none }

closed_refuses_example :
    (rename ≡ Request.list_agent_presets)
    ⊎ ((e : String) × ((serve core platform disk "i" shorter 47 rename closed).0 ≡ throws e))
closed_refuses_example =
    closed_refuses core platform disk "i" shorter 47 closed
      (record { inactive = refl; unmanaged = refl }) rename

close_runtime_stack-IsClosed_example :
    let t = (close_runtime_stack core platform disk "i" service).1 in
    IsClosed t × (t.delivery ≡ none) × (t.listeners ≡ []) × (t.retention_timer ≡ false)
close_runtime_stack-IsClosed_example = close_runtime_stack-IsClosed core platform disk "i" service

create_configured_agent-keeps_example :
    (c : CreatedAgent) × ((create_configured_agent core platform disk "i" shorter 47 "A" "d"
        "default" "m" "code" service).0
      ≡ ok c)
    × (c.profile.actor ≡ actor)
    × (c.profile.workspace_path ≡ agent_place core platform disk "i" shorter 47 "a")
    × Reports core platform disk "i" shorter 47
        (create_runtime core platform disk "i" shorter 47
          (input_of core platform disk "i" shorter 47 profile "default" "m" "code")
          service).0
        c
unfolding usable_preset unless_broken outside require_handle running acting
create_configured_agent-keeps_example =
    create_configured_agent-keeps core platform disk "i" shorter 47 "A" "d" "default" "m" "code"
      service service service code_preset profile refl refl

delete_agent-Forgotten_example :
    Forgotten "a" (delete_agent core platform disk "i" shorter 47 "a" service).1
unfolding delete_agent stop_runtime managed require_runtimes require_handle update_runtimes
    publish_change notify_each host_of running acting
delete_agent-Forgotten_example =
    delete_agent-Forgotten core platform disk "i" shorter 47 "a" service refl

abbrev empty_file : Preview
empty_file = record {
  path = "n";
  size = 0;
  modified_at_ms = 0;
  binary = false;
  truncated = false;
  content = some "";
}
