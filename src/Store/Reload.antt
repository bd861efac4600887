-- ===== src/Store/Reload.antt =====
-- src/client/data/store.ts: `start`, `dispose`, `bootstrap`, `reloadTargets` and `resync`, with the
-- answers of the calls that each sends.
use dsh_chaos.Common.{
  ℕ, ◌+◌, ◌-◌, String, Bool, true, false, not, ◌&&◌, Option, none, some, List, [], ◌∷◌, ◌++◌,
  nat_eq, is_some, if◌then◌else◌, or_else, find, filter, first,
}
use dsh_chaos.Common.Maps.{Map, lookup, insert}
use dsh_chaos.Wire as Wire
use dsh_chaos.Wire.{Actor, Membership, MessageTail, RuntimeBinding, Target, Task}
use dsh_chaos.Store.State.{
  Connection, live, down, resyncing, Store, Call, set, decimal_to_number, map_by_message,
  map_by_agent, read_marker, unread_for, contains_id, is_channel, is_thread, is_active, is_selected,
}
use dsh_chaos.Store.Activation.{activate_channel, put_memberships}
use dsh_chaos.Store.Changes.{refresh_thread_summaries}

-- `seedTotals`, with the answer of each tail read, which may have failed.
unfoldable pub seed_totals : (String → Option MessageTail) → List Target → Map ℕ → Map ℕ
seed_totals answers [] totals = totals
seed_totals answers (c ∷ cs) totals = seed_totals answers cs (
    if is_some (lookup c.id totals) then totals else elim (answers c.id) [
      | none ↦ totals
      | some tail ↦ insert c.id (decimal_to_number tail.count) totals
    ])

-- The tail reads of `seedTotals`: one for each Channel without a known total.
unfoldable pub total_reads : List Target → Map ℕ → List Call
total_reads [] known = []
total_reads (c ∷ cs) known =
    let rest = total_reads cs known in
    if is_some (lookup c.id known) then rest else Call.history_tail c.id 1 ∷ rest

abbrev pub root_ids : List Target → List String
root_ids [] = []
root_ids (t ∷ ts) = elim t.root_message_id [ none ↦ root_ids ts | some r ↦ r ∷ root_ids ts ]

-- The unread counts of a fresh start, from the markers alone.
unfoldable pub fresh_unread : Map ℕ → List Target → Store → Map ℕ
fresh_unread totals [] s = []
fresh_unread totals (c ∷ cs) s =
    insert c.id (or_else (lookup c.id totals) 0 - read_marker c.id s) (fresh_unread totals cs s)

unfoldable pub start : Store → Store × List Call
start s =
    if s.started
    then (s, [])
    else (record s { started = true; load_generation = s.load_generation + 1 }, Call.snapshot ∷ [])

unfoldable pub dispose : Store → Store
dispose s = record s {
  load_generation = s.load_generation + 1;
  stream = none;
  removed_timer = none;
}

-- The first active Channel, or the first of all.
unfoldable pub default_channel : List Target → Option Target
default_channel cs = elim (find is_active cs) [ none ↦ first cs | some c ↦ some c ]

unfoldable pub select_after_bootstrap : List Target → Store → Store × List Call
select_after_bootstrap channels s =
    let otherwise : Store × List Call = elim (default_channel channels) [
      | none ↦ (s, [])
      | some c ↦
          activate_channel c.id true (set (λ p. record p { active_channel_id = some c.id }) s)
    ] in
    elim s.active_channel_id [
      | none ↦ otherwise
      | some active ↦
          if contains_id active channels then activate_channel active true s else otherwise
    ]

-- The snapshot that `bootstrap` or `resync` waited for: three reads follow. The source does not
-- compare the generation before it sends them.
unfoldable pub snapshot_loaded : Store → Store × List Call
snapshot_loaded s = (s, Call.actors ∷ Call.tasks ∷ Call.runtime_bindings ∷ [])

-- `bootstrap`, once the three reads are in.
unfoldable pub bootstrap_lists_loaded : ℕ → Wire.Snapshot → Store → Store × List Call
bootstrap_lists_loaded generation wire s =
    if nat_eq s.load_generation generation
    then (s, total_reads (filter is_channel wire.targets) [])
    else (s, [])

-- `bootstrap`, once the totals are in. The source does not compare the generation here either, and
-- `refreshThreadSummaries` reads the one that is current by now.
unfoldable pub bootstrap_totals_loaded : Wire.Snapshot → Store → Store × List Call
bootstrap_totals_loaded wire s =
    (s, refresh_thread_summaries (root_ids (filter is_thread wire.targets)))

-- `bootstrap`, behind its `refreshThreadSummaries`; `answers` are those of the tail reads.
unfoldable pub bootstrap_loaded :
    ℕ
    → Wire.Snapshot
    → List Actor
    → List Task
    → List RuntimeBinding
    → (String → Option MessageTail)
    → Store
    → Store × List Call
bootstrap_loaded generation wire actors tasks bindings answers s =
    let channels = filter is_channel wire.targets in
    let totals = seed_totals answers channels [] in
    let projected : Store = record s {
      snapshot = record s.snapshot {
        bootstrapped = true;
        bootstrap_error = none;
        self_id = some wire.actor.id;
        channels = channels;
        threads = filter is_thread wire.targets;
        actors = actors;
        total_by_channel = totals;
        unread_by_channel = fresh_unread totals channels s;
        tasks_by_message = map_by_message [] tasks;
        bindings_by_agent = map_by_agent [] bindings;
        history_error = none;
        connection = live;
      };
      stream = some wire.cursor;
    } in
    let (selected, calls) = select_after_bootstrap channels projected in
    if nat_eq s.load_generation generation
    then (selected, Call.inbox_list s.activity_filter ∷ calls)
    else (s, [])

unfoldable pub bootstrap_failed : ℕ → String → Store → Store
bootstrap_failed generation reason s =
    if nat_eq s.load_generation generation
    then set (λ p. record p { bootstrap_error = some reason }) (record s { started = false })
    else s

-- The unread counts after a reload: 0 for the selected Channel, the markers for a new one.
unfoldable pub reload_unread : Map ℕ → List Target → Store → Map ℕ → Map ℕ
reload_unread totals [] s unread = unread
reload_unread totals (c ∷ cs) s unread = reload_unread totals cs s (
    if is_selected c.id s.active_channel_id
    then insert c.id 0 unread
    else if is_some (lookup c.id unread)
    then unread
    else insert c.id (or_else (lookup c.id totals) 0 - read_marker c.id s) unread)

-- The selected Channel is gone: the notice appears, and a timer will end it.
unfoldable pub notice_removal : Bool → List Target → Store → Store
notice_removal fallback channels s = elim s.active_channel_id [
  | none ↦ s
  | some active ↦
      if not (contains_id active channels) && not s.removed_notice
      then set (λ p. record p { removed_notice = true })
          (record s { removed_timer = some fallback })
      else s
]

-- `reloadTargets`, once the snapshot is in. The totals that are known now are those that
-- `reload_loaded` starts from.
unfoldable pub reload_snapshot_loaded : ℕ → Wire.Snapshot → Store → Store × List Call
reload_snapshot_loaded generation wire s =
    if nat_eq s.load_generation generation
    then (s, total_reads (filter is_channel wire.targets) s.total_by_channel)
    else (s, [])

-- `reloadTargets`, once the tail reads are in; `known` are the totals at the snapshot's arrival.
unfoldable pub reload_loaded :
    ℕ → Bool → Wire.Snapshot → Map ℕ → (String → Option MessageTail) → Store → Store × List Call
reload_loaded generation fallback wire known answers s =
    let channels = filter is_channel wire.targets in
    let threads = filter is_thread wire.targets in
    let totals = seed_totals answers channels known in
    let projected : Store =
      set
        (λ p. record p {
          channels = channels;
          threads = threads;
          total_by_channel = totals;
          unread_by_channel = reload_unread totals channels s p.unread_by_channel;
        })
        s in
    if nat_eq s.load_generation generation
    then (
      notice_removal fallback channels projected,
      refresh_thread_summaries (root_ids threads)
          ++ elim s.active_channel_id [ none ↦ [] | some a ↦ Call.target_memberships a ∷ [] ],
    )
    else (s, [])

unfoldable pub active_members_loaded : ℕ → String → List Membership → Store → Store
active_members_loaded generation active ms s =
    if nat_eq s.load_generation generation then put_memberships active (some ms) s else s

-- The removal notice ends: the first active Channel is selected where the reload asked for it.
unfoldable pub removed_timer_fired : Store → Store × List Call
removed_timer_fired s =
    let fallback : Option Target = elim s.removed_timer [
      | none ↦ none
      | some wanted ↦ if wanted then find is_active s.channels else none
    ] in
    let ended : Store = record s {
      snapshot = record s.snapshot {
        removed_notice = false;
        active_channel_id = elim fallback [ none ↦ none | some c ↦ some c.id ];
      };
      removed_timer = none;
    } in
    elim s.removed_timer [
      | none ↦ (s, [])
      | some _ ↦ elim fallback [ none ↦ (ended, []) | some c ↦ activate_channel c.id false ended ]
    ]

-- `onConnection`: a socket event does not touch a resync.
unfoldable pub connection_changed : Connection → Store → Store
connection_changed state s = elim s.connection [
  | live ↦ set (λ p. record p { connection = state }) s
  | down ↦ set (λ p. record p { connection = state }) s
  | resyncing ↦ s
]

-- The `resync_required` frame closes the stream, and `resync` begins.
unfoldable pub resync : Store → Store × List Call
resync s = (
  record s {
    snapshot = record s.snapshot {
      connection = resyncing;
      history_loading = is_some s.active_channel_id;
    };
    load_generation = s.load_generation + 1;
    stream = none;
  },
  Call.snapshot ∷ [],
)

unfoldable pub resync_active : List Target → Option String → Option String
resync_active channels active =
    let otherwise : Option String = elim (default_channel channels) [
      | none ↦ none
      | some c ↦ some c.id
    ] in
    elim active [ none ↦ otherwise | some a ↦ if contains_id a channels then some a else otherwise ]

-- `resync`, once its three reads are in, and once the totals are in.
unfoldable pub resync_lists_loaded : ℕ → Wire.Snapshot → Store → Store × List Call
resync_lists_loaded generation wire s =
    if nat_eq s.load_generation generation
    then (s, total_reads (filter is_channel wire.targets) [])
    else (s, [])

unfoldable pub resync_totals_loaded : ℕ → Wire.Snapshot → Store → Store × List Call
resync_totals_loaded generation wire s =
    if nat_eq s.load_generation generation
    then (s, refresh_thread_summaries (root_ids (filter is_thread wire.targets)))
    else (s, [])

-- `resync`, behind its first `refreshThreadSummaries`; `answers` are those of the tail reads.
unfoldable pub resync_loaded :
    ℕ
    → Wire.Snapshot
    → List Actor
    → List Task
    → List RuntimeBinding
    → (String → Option MessageTail)
    → Store
    → Store × List Call
resync_loaded generation wire actors tasks bindings answers s =
    let channels = filter is_channel wire.targets in
    let threads = filter is_thread wire.targets in
    let active = resync_active channels s.active_channel_id in
    let projected : Store =
      set
        (λ p. record p {
          bootstrapped = true;
          self_id = some wire.actor.id;
          channels = channels;
          threads = threads;
          actors = actors;
          active_channel_id = active;
          removed_notice = false;
          messages_by_channel = [];
          head_cursor_by_channel = [];
          head_done_by_channel = [];
          members_by_channel = [];
          memberships_by_channel = [];
          total_by_channel = seed_totals answers channels [];
          tasks_by_message = map_by_message [] tasks;
          bindings_by_agent = map_by_agent [] bindings;
          history_error = none;
        })
        s in
    let summaries = refresh_thread_summaries (root_ids threads) in
    let activated : Store × List Call = elim active [
      | none ↦ (projected, [])
      | some a ↦ activate_channel a true projected
    ] in
    if nat_eq s.load_generation generation then (activated.0, summaries ++ activated.1) else (s, [])

unfoldable pub unread_of_all : List Target → Store → Map ℕ
unread_of_all [] s = []
unread_of_all (c ∷ cs) s = insert c.id (unread_for c.id s) (unread_of_all cs s)

-- The end of `resync`, behind the activation of the selected Channel. The source does not compare
-- the generation again here.
unfoldable pub resync_finished : Wire.Snapshot → Store → Store
resync_finished wire s = record s {
  snapshot = record s.snapshot {
    unread_by_channel = unread_of_all (filter is_channel wire.targets) s;
    connection = live;
    history_loading = false;
  };
  stream = some wire.cursor;
}

unfoldable pub resync_failed : ℕ → Store → Store
resync_failed generation s =
    if nat_eq s.load_generation generation
    then set (λ p. record p { connection = down; history_loading = false }) s
    else s
