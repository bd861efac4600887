-- ===== src/Store/State.antt =====
-- src/client/data/store.ts: the snapshot that the panel renders, the store's other fields, and the
-- read markers. The listeners, which only re-render, are left out. A marker is kept as the number
-- whose decimal text `writeMarker` stores; without storage a read is 0 and a write is lost.
use dsh_chaos.Common.{
  ℕ, ◌+◌, ◌-◌, ◌*◌, String, Bool, true, false, Option, none, some, List, [], ◌∷◌, if◌then◌else◌,
  or_else, any, ◌==◌,
}
use Prim.Native.Char.{code}
use dsh_chaos.Common.Maps.{Map, lookup, insert}
use dsh_chaos.Common.Texts.{trim_start, is_digit}
use dsh_chaos.Wire.{
  Actor, InboxItem, Membership, Message, RuntimeBinding, Target, channel, direct, thread, Lifecycle,
  Task, ThreadSummary,
}
use dsh_chaos.Remote.Request.{InboxFilter, unread_items}

pub data Connection : Type 0 where
  live down resyncing : Connection

pub record Snapshot : Type 0 where
  pub bootstrapped : Bool
  pub bootstrap_error : Option String
  pub self_id : Option String
  pub channels : List Target
  pub threads : List Target
  pub thread_summaries_by_root : Map ThreadSummary
  pub activity_items : List InboxItem
  pub activity_count : ℕ
  pub activity_filter : InboxFilter
  pub actors : List Actor
  pub active_channel_id : Option String
  pub removed_notice : Bool
  pub messages_by_channel : Map (List Message)
  pub total_by_channel : Map ℕ
  pub head_cursor_by_channel : Map String
  pub head_done_by_channel : Map Bool
  pub unread_by_channel : Map ℕ
  pub members_by_channel : Map (List Actor)
  pub memberships_by_channel : Map (List Membership)
  pub tasks_by_message : Map Task
  pub bindings_by_agent : Map RuntimeBinding
  pub connection : Connection
  pub history_loading : Bool
  pub older_loading : Bool
  pub history_error : Option String

pub record Store : Type 0 where
  pub snapshot : Snapshot
  pub open snapshot use *
  pub started : Bool
  pub load_generation : ℕ
  -- The timer that ends the removal notice, with the `selectActiveFallback` of its reload.
  pub removed_timer : Option Bool
  pub activity_timer : Bool
  -- The attempts made for each target that the catalog does not know yet.
  pub unknown_timers : Map ℕ
  -- The cursor of the open change stream.
  pub stream : Option String
  pub storage : Option (Map ℕ)

-- The calls that an operation sends to the host; each answer comes back by an operation of its own.
pub data Call : Type 0 where
  snapshot actors tasks runtime_bindings : Call
  -- The snapshot that `reloadTargets` reads, with its `selectActiveFallback`.
  reload_targets : Bool → Call
  history_tail : (target_id : String) (limit : ℕ) → Call
  history : (target_id after_seq : String) (limit : ℕ) → Call
  target_memberships : (target_id : String) → Call
  thread_summaries : (root_message_ids : List String) → Call
  inbox_list : (filter : InboxFilter) → Call
  thread_create : (root_message_id : String) → Call

abbrev pub set : (Snapshot → Snapshot) → Store → Store
set patch s = record s { snapshot = patch s.snapshot }

abbrev pub initial_tail : ℕ
initial_tail = 50

abbrev pub head_chunk : ℕ
head_chunk = 100

unfoldable pub digits_from : ℕ → String → ℕ
digits_from acc String.[] = acc
digits_from acc (String.◌∷◌ c s) =
    let rest = digits_from (acc * 10 + (code c - b'0')) s in if is_digit (code c) then rest else acc

-- `decimalToNumber`: `Number.parseInt` of a count, and 0 for what has no digits.
unfoldable pub decimal_to_number : String → ℕ
unfolding digits_from trim_start
decimal_to_number value = digits_from 0 (trim_start value)

unfoldable pub read_marker : String → Store → ℕ
read_marker target_id s = elim s.storage [ none ↦ 0 | some m ↦ or_else (lookup target_id m) 0 ]

unfoldable pub write_marker : String → ℕ → Store → Store
write_marker target_id total s = elim s.storage [
  | none ↦ s
  | some m ↦ record s { storage = some (insert target_id total m) }
]

-- `mapByMessage`.
unfoldable pub map_by_message : Map Task → List Task → Map Task
map_by_message mapped [] = mapped
map_by_message mapped (t ∷ ts) = map_by_message (insert t.message_id t mapped) ts

unfoldable pub map_by_agent : Map RuntimeBinding → List RuntimeBinding → Map RuntimeBinding
map_by_agent mapped [] = mapped
map_by_agent mapped (b ∷ bs) = map_by_agent (insert b.agent_id b mapped) bs

abbrev pub is_channel : Target → Bool
is_channel t = elim t.kind [ channel ↦ true | direct ↦ false | thread ↦ false ]

abbrev pub is_thread : Target → Bool
is_thread t = elim t.kind [ channel ↦ false | direct ↦ false | thread ↦ true ]

abbrev pub is_active : Target → Bool
is_active t = elim t.lifecycle [
  | Lifecycle.active ↦ true
  | Lifecycle.archived ↦ false
  | Lifecycle.deleted ↦ false
]

abbrev pub has_id : String → Target → Bool
has_id id t = t.id == id

abbrev pub contains_id : String → List Target → Bool
contains_id id ts = any (has_id id) ts

-- `activeChannelId === targetId`.
abbrev pub is_selected : String → Option String → Bool
is_selected id none = false
is_selected id (some active) = active == id

unfoldable pub mark_read : String → Store → Store
unfolding write_marker
mark_read target_id s =
    let total = or_else (lookup target_id s.total_by_channel) 0 in
    set (λ p. record p { unread_by_channel = insert target_id 0 p.unread_by_channel })
      (write_marker target_id total s)

unfoldable pub unread_for : String → Store → ℕ
unfolding read_marker
unread_for target_id s = elim (lookup target_id s.total_by_channel) [
  | none ↦ 0
  | some total ↦ total - read_marker target_id s
]

-- The store that the constructor makes.
abbrev pub initial : Option (Map ℕ) → Store
initial storage = record {
  snapshot = record {
    bootstrapped = false;
    bootstrap_error = none;
    self_id = none;
    channels = [];
    threads = [];
    thread_summaries_by_root = [];
    activity_items = [];
    activity_count = 0;
    activity_filter = unread_items;
    actors = [];
    active_channel_id = none;
    removed_notice = false;
    messages_by_channel = [];
    total_by_channel = [];
    head_cursor_by_channel = [];
    head_done_by_channel = [];
    unread_by_channel = [];
    members_by_channel = [];
    memberships_by_channel = [];
    tasks_by_message = [];
    bindings_by_agent = [];
    connection = live;
    history_loading = false;
    older_loading = false;
    history_error = none;
  };
  started = false;
  load_generation = 0;
  removed_timer = none;
  activity_timer = false;
  unknown_timers = [];
  stream = none;
  storage = storage;
}
