-- ===== src/Store/Events.antt =====
-- The store as a state machine: what the user does, what the change stream brings, what the timers
-- do, and how the calls that were sent end, in any order and with any content.
use dsh_chaos.Common.{ℕ, String, Bool, false, Option, List, [], ◌∷◌}
use dsh_chaos.Common.Maps.{Map}
use dsh_chaos.Wire as Wire
use dsh_chaos.Wire.{
  Actor, ChangeEvent, InboxPage, Membership, Message, MessageTail, RuntimeBinding, SendResult,
  Target, Task, ThreadSummary,
}
use dsh_chaos.Remote.Request.{InboxFilter}
use dsh_chaos.Store.State.{Connection, Store, Call, write_marker}
use dsh_chaos.Store.Activation.{put_memberships}
use dsh_chaos.Store.Activation as Activation
use dsh_chaos.Store.Channels as Channels
use dsh_chaos.Store.Changes as Changes
use dsh_chaos.Store.Reload as Reload

pub data Event : Type 0 where
  start dispose resync load_older retry_active_history activity_timer_fired : Event
  removed_timer_fired snapshot_loaded : Event
  set_active_channel hydrate_target channel_deleted member_added unknown_target_tick :
      String → Event
  set_activity_filter : InboxFilter → Event
  connection_changed : Connection → Event
  change : ChangeEvent → Event
  activation_loaded : ℕ → String → Option MessageTail → Option (List Membership) → Event
  activation_failed : ℕ → (target_id reason : String) → Event
  older_loaded : ℕ → (target_id cursor : String) → List Message → Event
  older_failed resync_failed : ℕ → Event
  message_sent : String → SendResult → Event
  message_page_loaded : ℕ → String → List Message → Event
  task_received : Task → Event
  thread_ready : String → Target → Event
  channel_created channel_replaced : Target → Event
  actor_upserted : Actor → Event
  members_reloaded : String → List Membership → Event
  active_members_loaded : ℕ → String → List Membership → Event
  actors_loaded : List Actor → Event
  tasks_loaded : List Task → Event
  summaries_loaded : ℕ → List String → List ThreadSummary → Event
  activity_loaded : ℕ → InboxPage → Event
  bootstrap_loaded resync_loaded :
      ℕ
      → Wire.Snapshot
      → List Actor
      → List Task
      → List RuntimeBinding
      → (String → Option MessageTail)
      → Event
  bootstrap_failed : ℕ → String → Event
  bootstrap_totals_loaded : Wire.Snapshot → Event
  bootstrap_lists_loaded resync_lists_loaded resync_totals_loaded reload_snapshot_loaded :
      ℕ → Wire.Snapshot → Event
  reload_loaded : ℕ → Bool → Wire.Snapshot → Map ℕ → (String → Option MessageTail) → Event
  resync_finished : Wire.Snapshot → Event

-- One event, with the calls that it sends.
unfoldable pub step : Event → Store → Store × List Call
step Event.start s = Reload.start s
step Event.dispose s = (Reload.dispose s, [])
step Event.resync s = Reload.resync s
step Event.load_older s = Activation.load_older s
step Event.retry_active_history s = Activation.retry_active_history s
step Event.activity_timer_fired s = Changes.activity_timer_fired s
step Event.removed_timer_fired s = Reload.removed_timer_fired s
step (Event.set_active_channel id) s = Activation.set_active_channel id s
step (Event.hydrate_target id) s = Activation.activate_channel id false s
step (Event.channel_deleted id) s = Channels.channel_deleted id s
step (Event.member_added id) s = Channels.member_added id s
step (Event.unknown_target_tick id) s = Changes.unknown_target_tick id s
step (Event.set_activity_filter f) s = Changes.set_activity_filter f s
step (Event.connection_changed c) s = (Reload.connection_changed c s, [])
step (Event.change c) s = Changes.handle_change c s
step (Event.activation_loaded g id tail ms) s = (Activation.activation_loaded g id tail ms s, [])
step (Event.activation_failed g id reason) s = (Activation.activation_failed g id reason s, [])
step (Event.older_loaded g id cursor page) s = (Activation.older_loaded g id cursor page s, [])
step (Event.older_failed g) s = (Activation.older_failed g s, [])
step (Event.resync_failed g) s = (Reload.resync_failed g s, [])
step (Event.message_sent id r) s = (Activation.message_sent id r s, [])
step (Event.message_page_loaded g id page) s = (Changes.message_page_loaded g id page s, [])
step (Event.task_received t) s = (Channels.put_task t s, [])
step (Event.thread_ready root t) s = Channels.thread_ready root t s
step (Event.channel_created t) s = (Channels.channel_created t s, [])
step (Event.channel_replaced t) s = (Channels.replace_channel t s, [])
step (Event.actor_upserted a) s = (Channels.upsert_actor a s, [])
step (Event.members_reloaded id ms) s = (Channels.members_reloaded id ms s, [])
step (Event.active_members_loaded g id ms) s = (Reload.active_members_loaded g id ms s, [])
step (Event.actors_loaded as_) s = (Changes.actors_loaded as_ s, [])
step (Event.tasks_loaded ts) s = (Changes.tasks_loaded ts s, [])
step (Event.summaries_loaded g roots rows) s = (Changes.summaries_loaded g roots rows s, [])
step (Event.activity_loaded g page) s = (Changes.activity_loaded g page s, [])
step (Event.bootstrap_loaded g w as_ ts bs answers) s =
    Reload.bootstrap_loaded g w as_ ts bs answers s
step (Event.resync_loaded g w as_ ts bs answers) s = Reload.resync_loaded g w as_ ts bs answers s
step (Event.bootstrap_failed g reason) s = (Reload.bootstrap_failed g reason s, [])
step Event.snapshot_loaded s = Reload.snapshot_loaded s
step (Event.bootstrap_lists_loaded g w) s = Reload.bootstrap_lists_loaded g w s
step (Event.bootstrap_totals_loaded w) s = Reload.bootstrap_totals_loaded w s
step (Event.resync_lists_loaded g w) s = Reload.resync_lists_loaded g w s
step (Event.resync_totals_loaded g w) s = Reload.resync_totals_loaded g w s
step (Event.reload_snapshot_loaded g w) s = Reload.reload_snapshot_loaded g w s
step (Event.reload_loaded g fallback w known answers) s =
    Reload.reload_loaded g fallback w known answers s
step (Event.resync_finished w) s = (Reload.resync_finished w s, [])

unfoldable pub run : List Event → Store → Store
run [] s = s
run (e ∷ es) s = run es (step e s).0

-- The step of an event with what it calls, for the proofs by cases on the event; the merges of
-- messages stay shut.
unfoldable pub stepping : Unit {0}
unfolding step Reload.start Reload.dispose Reload.resync Activation.load_older
    Activation.retry_active_history Changes.activity_timer_fired Changes.refresh_activity
    Reload.removed_timer_fired Activation.set_active_channel Activation.activate_channel
    Channels.channel_deleted Channels.member_added Changes.unknown_target_tick
    Changes.set_activity_filter Reload.connection_changed Changes.handle_change
    Changes.handle_message_created Changes.schedule_activity_refresh
    Changes.schedule_unknown_target_reload Changes.count_message Changes.put_summary
    Activation.activation_failed Activation.older_failed Reload.resync_failed Channels.put_task
    Channels.thread_ready Channels.channel_created Channels.replace_channel Channels.upsert_actor
    Channels.members_reloaded put_memberships Reload.active_members_loaded Changes.actors_loaded
    Changes.tasks_loaded Changes.summaries_loaded Changes.activity_loaded Reload.bootstrap_loaded
    Reload.select_after_bootstrap Reload.resync_loaded Reload.bootstrap_failed Reload.reload_loaded
    Reload.snapshot_loaded Reload.bootstrap_lists_loaded Reload.bootstrap_totals_loaded
    Reload.resync_lists_loaded Reload.resync_totals_loaded Reload.reload_snapshot_loaded
    Reload.notice_removal Reload.resync_finished write_marker
stepping = tt
