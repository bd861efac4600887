-- ===== src/Store/Changes.antt =====
-- src/client/data/store.ts: the frames of the change stream, which only invalidate: `handleChange`,
-- `handleMessageCreated`, the retries for unknown targets, Thread summaries and Activity.
use dsh_chaos.Common.{
  ℕ, zero, suc, ◌+◌, String, Bool, true, false, not, ◌||◌, Option, none, some, List, [], ◌∷◌, map,
  ltb, nat_eq, is_some, if◌then◌else◌, find, filter, any, take, drop, last, length, ◌==◌,
}
use dsh_chaos.Common.Maps.{Map, lookup, insert, delete}
use dsh_chaos.Wire.{Actor, ChangeEvent, ChangeKind, InboxPage, Message, Task, ThreadSummary}
use dsh_chaos.Remote.Request.{InboxFilter, all_items, unread_items}
use dsh_chaos.Store.Merge.{MergeResult, merge_messages}
use dsh_chaos.Store.State.{
  Store, Call, set, head_chunk, decimal_to_number, map_by_message, mark_read, unread_for,
  contains_id, has_id, is_selected,
}
use dsh_chaos.Store.Activation.{known_messages, put_messages, next_cursor}

unfoldable pub schedule_activity_refresh : Store → Store
schedule_activity_refresh s = record s { activity_timer = true }

-- `refreshActivity` and the timer that calls it.
unfoldable pub refresh_activity : Store → Store × List Call
refresh_activity s = (s, Call.inbox_list s.activity_filter ∷ [])

unfoldable pub activity_timer_fired : Store → Store × List Call
activity_timer_fired s = refresh_activity (record s { activity_timer = false })

unfoldable pub activity_loaded : ℕ → InboxPage → Store → Store
activity_loaded generation page s =
    if nat_eq s.load_generation generation
    then set
        (λ p. record p {
          activity_items = page.items;
          activity_count = decimal_to_number page.active_count;
        })
        s
    else s

abbrev pub same_filter : InboxFilter → InboxFilter → Bool
same_filter all_items all_items = true
same_filter unread_items unread_items = true
same_filter _ _ = false

unfoldable pub set_activity_filter : InboxFilter → Store → Store × List Call
set_activity_filter filter s =
    if same_filter s.activity_filter filter
    then (s, [])
    else refresh_activity (set (λ p. record p { activity_filter = filter }) s)

abbrev pub is_known : String → Store → Bool
is_known target_id s = contains_id target_id s.channels || contains_id target_id s.threads

-- The retries of `UNKNOWN_TARGET_RETRY_MS`.
abbrev pub unknown_target_retries : ℕ
unknown_target_retries = 5

unfoldable pub schedule_unknown_target_reload : String → Store → Store
schedule_unknown_target_reload target_id s =
    if is_some (lookup target_id s.unknown_timers)
    then s
    else record s { unknown_timers = insert target_id 0 s.unknown_timers }

-- `tick`, when the timer of a target fires that has been tried `attempt` times.
unfoldable pub unknown_target_tick : String → Store → Store × List Call
unknown_target_tick target_id s =
    let fired : Store = record s { unknown_timers = delete target_id s.unknown_timers } in
    elim (lookup target_id s.unknown_timers) [
      | none ↦ (s, [])
      | some attempt ↦
          if is_known target_id s
          then (fired, [])
          else if ltb (attempt + 1) unknown_target_retries
          then (
            record fired { unknown_timers = insert target_id (attempt + 1) fired.unknown_timers },
            Call.reload_targets false ∷ [],
          )
          else (fired, Call.reload_targets false ∷ [])
    ]

-- `threads.find(t => t.id === targetId)?.rootMessageId` and its summary.
unfoldable pub thread_root : String → Store → Option String
thread_root target_id s = elim (find (has_id target_id) s.threads) [
  | none ↦ none
  | some t ↦ t.root_message_id
]

unfoldable pub thread_summary : String → Store → Option ThreadSummary
thread_summary target_id s = elim (thread_root target_id s) [
  | none ↦ none
  | some root ↦ lookup root s.thread_summaries_by_root
]

unfoldable pub put_summary : String → ThreadSummary → Store → Store
put_summary target_id summary s = elim (thread_root target_id s) [
  | none ↦ s
  | some root ↦
      set
        (λ p. record p {
          thread_summaries_by_root = insert root summary p.thread_summaries_by_root;
        })
        s
]

-- A reply by `author`: he comes first among the last three repliers.
unfoldable pub replied_by : String → ℕ → ThreadSummary → ThreadSummary
replied_by author count summary = record summary {
  reply_count = summary.reply_count + count;
  recent_replier_ids =
      take 3 (author ∷ filter (λ id. not (id == author)) summary.recent_replier_ids);
}

-- The summary of a Thread that messages were appended to.
unfoldable pub count_replies : String → MergeResult → Store → Store
count_replies target_id merged s = elim (thread_summary target_id s) [
  | none ↦ s
  | some summary ↦ elim (last merged.messages) [
    | none ↦ s
    | some message ↦
        if ltb 0 merged.appended
        then put_summary target_id (replied_by message.author_id merged.appended summary) s
        else s
  ]
]

-- A frame for a target whose messages are not loaded: only the counters move.
unfoldable pub count_message : String → Store → Store
count_message target_id s =
    let totalled : Store = elim (lookup target_id s.total_by_channel) [
      | none ↦ s
      | some total ↦
          set (λ p. record p { total_by_channel = insert target_id (total + 1) p.total_by_channel })
            s
    ] in
    let summed : Store = elim (thread_summary target_id totalled) [
      | none ↦ totalled
      | some summary ↦
          put_summary target_id (record summary { reply_count = summary.reply_count + 1 }) totalled
    ] in
    set
      (λ p. record p {
        unread_by_channel = insert target_id (unread_for target_id summed) p.unread_by_channel;
      })
      summed

unfoldable pub handle_message_created : Option String → Store → Store × List Call
handle_message_created none s = (s, [])
handle_message_created (some target_id) s =
    if is_known target_id s
    then (if is_selected target_id s.active_channel_id
          || is_some (lookup target_id s.messages_by_channel)
        then (
          s,
          Call.history target_id (next_cursor (known_messages target_id s) "0") head_chunk ∷ [],
        )
        else (count_message target_id s, []))
    else (schedule_unknown_target_reload target_id s, [])

-- The page behind the last known message, as it comes in.
unfoldable pub message_page_loaded : ℕ → String → List Message → Store → Store
message_page_loaded generation target_id page s =
    let merged = merge_messages (known_messages target_id s) page in
    if nat_eq s.load_generation generation
    then mark_read target_id (count_replies target_id merged (put_messages target_id merged s))
    else s

unfoldable pub handle_change : ChangeEvent → Store → Store × List Call
handle_change change s =
    let scheduled = schedule_activity_refresh s in
    elim change.kind [
      | ChangeKind.message_created ↦ handle_message_created change.target_id scheduled
      | ChangeKind.target_created ↦ (scheduled, Call.reload_targets false ∷ [])
      | ChangeKind.membership_changed ↦ (scheduled, Call.reload_targets false ∷ [])
      | ChangeKind.target_changed ↦ (scheduled, Call.reload_targets true ∷ [])
      | ChangeKind.actor_created ↦ (scheduled, Call.actors ∷ [])
      | ChangeKind.agent_profile_changed ↦ (scheduled, Call.actors ∷ [])
      | ChangeKind.task_created ↦ (scheduled, Call.tasks ∷ [])
      | ChangeKind.task_updated ↦ (scheduled, Call.tasks ∷ [])
      | ChangeKind.thread_follow_changed ↦ (scheduled, [])
      | ChangeKind.activity_done_changed ↦ (scheduled, [])
    ]

unfoldable pub actors_loaded : List Actor → Store → Store
actors_loaded actors = set (λ p. record p { actors = actors })

unfoldable pub tasks_loaded : List Task → Store → Store
tasks_loaded tasks = set (λ p. record p { tasks_by_message = map_by_message [] tasks })

-- `[...new Set(ids)]`, behind those already seen.
unfoldable pub unique_behind : List String → List String → List String
unique_behind seen [] = []
unique_behind seen (id ∷ ids) =
    if any (λ k. k == id) seen then unique_behind seen ids else id ∷ unique_behind (id ∷ seen) ids

-- Slices of at most a hundred; `fuel` bounds the number of slices.
unfoldable pub chunks : ℕ → List String → List (List String)
chunks fuel [] = []
chunks zero (id ∷ ids) = []
chunks (suc fuel) (id ∷ ids) = take 100 (id ∷ ids) ∷ chunks fuel (drop 100 (id ∷ ids))

-- The calls of `refreshThreadSummaries`, in their order. In the source each waits for the one before
-- it; here they are sent together, and their rows come in together.
unfoldable pub refresh_thread_summaries : List String → List Call
refresh_thread_summaries roots =
    let ids = unique_behind [] roots in
    map (λ chunk. Call.thread_summaries chunk) (chunks (length ids) ids)

abbrev pub delete_all {ℓ} : {V : Type ℓ} → List String → Map V → Map V
delete_all [] m = m
delete_all (k ∷ ks) m = delete_all ks (delete k m)

abbrev pub put_rows : List ThreadSummary → Map ThreadSummary → Map ThreadSummary
put_rows [] m = m
put_rows (row ∷ rows) m = put_rows rows (insert row.root_message_id row m)

-- The rows of all slices: a root without a row loses its summary.
unfoldable pub summaries_loaded : ℕ → List String → List ThreadSummary → Store → Store
summaries_loaded generation roots rows s =
    if nat_eq s.load_generation generation
    then set
        (λ p. record p {
          thread_summaries_by_root = put_rows rows (delete_all roots p.thread_summaries_by_root);
        })
        s
    else s
