-- ===== src/Store/Tests.antt =====
-- Runs of the store, and its theorems at concrete messages and events.
use dsh_chaos.Common.{
  String, true, false, none, some, List, [], ◌∷◌, ◌≡◌, ◌<◌, refl, or_else, any, arith,
}
use dsh_chaos.Common.Maps.{lookup, insert, ne_of_test}
use dsh_chaos.Common.Texts.{big_int}
use dsh_chaos.Wire as Wire
use dsh_chaos.Wire.{Actor, user, Message, Target, channel, Lifecycle}
use dsh_chaos.Store.Merge.{merge_messages, merging}
use dsh_chaos.Store.Merge.Order.{IsHistory, merge_messages-IsHistory}
use dsh_chaos.Store.Merge.Content.{message_of, first_some, message_of-merge_messages}
use dsh_chaos.Store.Merge.Replay.{merge_messages_idem}
use dsh_chaos.Store.State.{Store, Connection, initial, set, contains_id}
use dsh_chaos.Store.Channels.{channel_deleted, is_under}
use dsh_chaos.Store.Changes.{unknown_target_retries}
use dsh_chaos.Store.Changes as Changes
use dsh_chaos.Store.Reload as Reload
use dsh_chaos.Store.Reload.{resync_active}
use dsh_chaos.Store.Events.{Event, step, run}
use dsh_chaos.Store.Histories.{IsOrdered, histories-IsOrdered}
use dsh_chaos.Store.Fences.{superseded_answer_ignored, disposed_store_reopens}
use dsh_chaos.Store.Activation as Activation
use dsh_chaos.Store.Paging.{older_page_stuck}
use dsh_chaos.Store.Retries.{ticks, retries_end}
use dsh_chaos.Store.Removal.{selects_listed, channel_deleted-removes}

abbrev message : String → String → Message
message seq id = record {
  seq = seq;
  id = id;
  target_id = "c";
  author_id = "u";
  client_request_id = "r";
  text = "hello";
  created_at_ms = 0;
}

abbrev history : List Message
history = message "2" "a" ∷ message "10" "b" ∷ []

abbrev page : List Message
page = message "11" "c" ∷ message "2" "a" ∷ message "9" "d" ∷ []

abbrev merged : List Message
merged = message "2" "a" ∷ message "9" "d" ∷ message "10" "b" ∷ message "11" "c" ∷ []

-- The page's new message behind the tail counts, and the late one does not.
merge_messages-page : merge_messages history page ≡ record { messages = merged; appended = 1 }
unfolding merging lookup insert big_int
merge_messages-page = refl

history-IsHistory : IsHistory history
unfolding big_int
history-IsHistory = (((omega arith, tt), (tt, tt)), ((ne_of_test "a" "b" refl, tt), (tt, tt)))

merge_messages-IsHistory_example : IsHistory (merge_messages history page).messages
merge_messages-IsHistory_example = merge_messages-IsHistory history page history-IsHistory

message_of-merge_messages_example :
    message_of "d" (merge_messages history page).messages
    ≡ first_some (message_of "d" history) (message_of "d" page)
message_of-merge_messages_example = message_of-merge_messages "d" history page history-IsHistory.1

merge_messages_idem_example :
    merge_messages (merge_messages history page).messages page
    ≡ record { messages = (merge_messages history page).messages; appended = 0 }
merge_messages_idem_example = merge_messages_idem history page history-IsHistory

abbrev target : String → Target
target id = record {
  id = id;
  kind = channel;
  name = id;
  description = "";
  lifecycle = Lifecycle.active;
  version = "1";
  parent_target_id = none;
  root_message_id = none;
  created_by = "u";
  created_at_ms = 0;
  updated_at_ms = 0;
  archived_at_ms = none;
  deleted_at_ms = none;
}

abbrev store : Store
store =
    set (λ p. record p { channels = target "c" ∷ target "d" ∷ []; active_channel_id = some "c" })
      (initial (some []))

abbrev events : List Event
events =
    Event.start
    ∷ Event.set_active_channel "c"
    ∷ Event.message_page_loaded 1 "c" page
    ∷ Event.older_loaded 1 "c" "0" history
    ∷ []

histories-IsOrdered_example : IsOrdered (run events (initial (some [])))
histories-IsOrdered_example = histories-IsOrdered (some []) events

superseded_answer_ignored_example :
    step (Event.message_page_loaded 0 "c" page) (run (Event.dispose ∷ events) store)
    ≡ (run (Event.dispose ∷ events) store, [])
superseded_answer_ignored_example =
    superseded_answer_ignored Event.dispose (Event.message_page_loaded 0 "c" page) events store refl
      refl

abbrev listed : Wire.Snapshot
listed = record {
  actor = record {
    id = "u";
    kind = user;
    handle = "u";
    display_name = "U";
    created_at_ms = 0;
    avatar_data_url = none;
  };
  cursor = "12";
  targets = target "c" ∷ [];
  followed_thread_ids = [];
  tasks = [];
}

abbrev heard : Wire.ChangeEvent
heard = record {
  seq = "13";
  kind = Wire.ChangeKind.task_updated;
  target_id = none;
  entity_id = "m";
  created_at_ms = 0;
}

-- What happens while a resync waits for its reads, and after the disposal.
abbrev reads_in : List Event
reads_in = Event.snapshot_loaded ∷ Event.resync_lists_loaded 1 listed ∷ Event.change heard ∷ []

abbrev after_disposal : List Event
after_disposal = Event.activation_loaded 1 "c" none none ∷ Event.resync_failed 1 ∷ []

disposed_store_reopens_example :
    let r = run (Event.resync ∷ reads_in) store in
    let waiting = (step (Event.resync_loaded 1 listed [] [] [] (λ id. none)) r).0 in
    let disposed = run (Event.dispose ∷ after_disposal) waiting in
    let t = (step (Event.resync_finished listed) disposed).0 in
    (waiting.active_channel_id ≡ some "c")
    × (waiting.history_loading ≡ true)
    × (disposed.stream ≡ none)
    × (1 < disposed.load_generation)
    × (t.stream ≡ some "12")
    × (t.connection ≡ Connection.live)
unfolding run step resync_active Reload.resync Reload.snapshot_loaded Reload.resync_lists_loaded
    Changes.handle_change Changes.schedule_activity_refresh
disposed_store_reopens_example =
    disposed_store_reopens reads_in after_disposal listed [] [] [] (λ id. none) "c" store refl refl
      refl refl

retries_end_example :
    let s = run events (initial none) in
    (or_else (lookup "x" s.unknown_timers) 0 < 5)
    × (lookup "x" (run (ticks unknown_target_retries "x") s).unknown_timers ≡ none)
retries_end_example = retries_end none events "x"

channel_deleted-removes_example :
    let t = (channel_deleted "c" store).0 in
    (contains_id "c" t.channels ≡ false)
    × (any (is_under "c") t.threads ≡ false)
    × (selects_listed t.active_channel_id t.channels ≡ true)
channel_deleted-removes_example = channel_deleted-removes "c" store

abbrev paging : Store
paging = set (λ p. record p { older_loading = true }) store

older_page_stuck_example :
    let t = run (Event.resync ∷ Event.older_loaded 0 "c" "0" page ∷ []) paging in
    (t.older_loading ≡ true) × (Activation.load_older t ≡ (t, []))
older_page_stuck_example =
    older_page_stuck (Event.older_loaded 0 "c" "0" page ∷ []) paging refl refl
