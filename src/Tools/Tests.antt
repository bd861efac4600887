-- ===== src/Tools/Tests.antt =====
-- Target references, and the theorems of the tools at concrete texts.
use dsh_chaos.Common.{ℕ, ◌+◌, true, false, none, some, ◌≡◌, refl}
use dsh_chaos.Common.Texts.{trim, strip_prefix}
use dsh_chaos.Common.Results.{ok, throws}
use dsh_chaos.Common.{String, ◌≤◌, All, Option, List, [], ◌∷◌}
use dsh_chaos.Common.Acts.{acting}
use dsh_chaos.Wire.{RuntimeBinding, Profile, ProfileLifecycle, ActorKind, InboxBatch, InboxEntry}
use dsh_chaos.Tools.Reading.{
  Inbox, message_check, record_batch, identity_context_for_model, actor_for_model,
}
use dsh_chaos.Tools.Inbox.{IsBare, Records, message_check-Records}
use dsh_chaos.Tools.Target.{
  to_channel, parse_target_text, is_uuid, is_short_id, is_grouped, hex_between,
}
use dsh_chaos.Tools.Resolve.{Core, message_send}
use dsh_chaos.Tools.Reference.{parse_target_text-print, message_send-refused, is_refused, has_colon}

parse_target_text-print_example :
    parse_target_text "#general:ab12"
    ≡ ok (record {
      kind = to_channel;
      name = "general";
      root_short = some "ab12";
      raw = "#general:ab12";
    })
unfolding trim has_colon
parse_target_text-print_example =
    parse_target_text-print to_channel "general" (some "ab12") refl refl refl

-- A core that counts its calls, each of which fails.
abbrev counting : Core ℕ
counting = record {
  targets = λ a n. (throws "no", n + 1);
  read_messages = λ a t s l n. (throws "no", n + 1);
  read_message = λ a t m n. (throws "no", n + 1);
  create_thread = λ r a n. (throws "no", n + 1);
  send_message = λ t a c x n. (throws "no", n + 1);
  create_task = λ m a n. (throws "no", n + 1);
  claim_task = λ m a n. (throws "no", n + 1);
  unclaim_task = λ m a v n. (throws "no", n + 1);
  update_task_status = λ m a s v n. (throws "no", n + 1);
  list_tasks = λ a t n. (throws "no", n + 1);
}

message_send-refused_example :
    let r = message_send counting "agent" "call" none (some " #:ab12") (some "root") "hello" 5 in
    (is_refused r.0 ≡ true) × (r.1 ≡ 5)
unfolding trim is_grouped strip_prefix
message_send-refused_example =
    message_send-refused counting "agent" "call" none (some " #:ab12") (some "root") "hello" 5 refl

uuid_is_read : is_uuid "01234567-89ab-cdef-0123-456789abcDEF" ≡ true
unfolding is_grouped
uuid_is_read = refl

short_id_bounds : (is_short_id "ab12" ≡ true) × (is_short_id "ab1" ≡ false)
unfolding hex_between
short_id_bounds = (refl, refl)

abbrev bound : RuntimeBinding
bound = record {
  agent_id = "a";
  session_id = "s";
  generation = "1";
  provider = "default";
  model = "m";
  preset = "code";
  bound_at_ms = 0;
}

abbrev a_profile : Option String → Profile
a_profile avatar = record {
  actor = record {
    id = "a";
    kind = ActorKind.agent;
    handle = "a";
    display_name = "A";
    created_at_ms = 0;
    avatar_data_url = avatar;
  };
  workspace_path = "/w";
  lifecycle = ProfileLifecycle.active;
  charter = record { schema_version = 1; summary = ""; capabilities = []; constraints = [] };
  version = "1";
  created_at_ms = 0;
  updated_at_ms = 0;
}

abbrev batch_of : Option String → InboxBatch
batch_of avatar = record {
  id = some "b1";
  agent_id = "a";
  session_id = "s";
  generation = "1";
  messages = [];
  contexts =
      record { agent = a_profile avatar; target = none; membership_target = none; members = [] }
      ∷ [];
  checked_at_ms = 0;
}

-- An inbox with one batch, whose context has an avatar.
abbrev pending : Inbox ℕ
pending = record {
  check_inbox = λ a g s limit n. (ok (batch_of (some "data:")), n + 1);
  identity_context = λ a t n. (throws "no", n);
  record_inbox_batch = λ b id n. (ok tt, n + 1);
}

message_check-Records_example :
    (read : InboxBatch) × (v : ℕ) × ((1 ≤ 50) × (50 ≤ 100))
    × ((pending.check_inbox "a" "1" "s" 50 5).0 ≡ ok read)
    × (◌≡◌ {A = List InboxEntry} [] read.messages)
    × All IsBare (batch_of none).contexts
    × Records pending bound read.id v
unfolding message_check record_batch identity_context_for_model actor_for_model acting
message_check-Records_example =
    message_check-Records counting pending bound none 5 (batch_of none) refl
