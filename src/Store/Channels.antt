-- ===== src/Store/Channels.antt =====
-- src/client/data/store.ts: Tasks, Threads, Channels and members, as the answers of their calls
-- are put into the snapshot.
use dsh_chaos.Common.{
  String, Bool, false, not, none, some, List, [], ◌∷◌, ◌++◌, map, is_some, if◌then◌else◌, find,
  filter, ◌==◌,
}
use dsh_chaos.Common.Maps.{lookup, insert, delete}
use dsh_chaos.Common.Texts.{concat}
use dsh_chaos.Common.Results.{Result, ok, throws}
use dsh_chaos.Wire.{Actor, Membership, Target, Task}
use dsh_chaos.Store.State.{Store, Call, set, write_marker, contains_id, has_id, is_active}
use dsh_chaos.Store.Activation.{activate_channel, put_memberships}

-- The answer of `taskCreate`, `taskClaim`, `taskUnclaim` and `taskUpdateStatus`.
unfoldable pub put_task : Task → Store → Store
put_task task =
    set (λ p. record p { tasks_by_message = insert task.message_id task p.tasks_by_message })

-- The expected version that `unclaimTask` and `updateTaskStatus` send.
unfoldable pub expected_task_version : String → Store → Result String
expected_task_version message_id s = elim (lookup message_id s.tasks_by_message) [
  | none ↦ throws (concat ("task for " ∷ message_id ∷ " is not loaded" ∷ []))
  | some current ↦ ok current.version
]

-- The expected version that `archiveChannel`, `restoreChannel` and `deleteChannel` send.
unfoldable pub expected_channel_version : String → Store → Result String
expected_channel_version target_id s = elim (find (has_id target_id) s.channels) [
  | none ↦ throws (concat ("channel " ∷ target_id ∷ " is not loaded" ∷ []))
  | some current ↦ ok current.version
]

abbrev pub is_thread_of : String → Target → Bool
is_thread_of root t = elim t.root_message_id [ none ↦ false | some r ↦ r == root ]

-- `openThread`: what it returns at once, or the call and the Thread that it knows.
pub data Opening : Type 0 where
  opened : Target → Opening
  found : Target → Opening
  missing : Opening

unfoldable pub open_thread : String → Store → Opening
open_thread root s = elim (find (is_thread_of root) s.threads) [
  | none ↦ missing
  | some existing ↦
      if is_some (lookup existing.id s.messages_by_channel) then opened existing else found existing
]

-- The rest of `openThread`, with the Thread found or created.
unfoldable pub thread_ready : String → Target → Store → Store × List Call
thread_ready root thread s =
    let listed : Store =
      if contains_id thread.id s.threads
      then s
      else set (λ p. record p { threads = p.threads ++ thread ∷ [] }) s in
    let (activated, calls) = activate_channel thread.id false listed in
    (activated, calls ++ Call.thread_summaries (root ∷ []) ∷ [])

unfoldable pub channel_created : Target → Store → Store
channel_created target s =
    if contains_id target.id s.channels
    then s
    else write_marker target.id 0 (
        set
          (λ p. record p {
            channels = p.channels ++ target ∷ [];
            total_by_channel = insert target.id 0 p.total_by_channel;
            unread_by_channel = insert target.id 0 p.unread_by_channel;
          })
          s)

-- `replaceChannel`, after an update, an archive or a restore.
unfoldable pub replace_channel : Target → Store → Store
replace_channel target =
    set
      (λ p. record p { channels = map (λ c. if has_id target.id c then target else c) p.channels })

abbrev pub is_under : String → Target → Bool
is_under parent t = elim t.parent_target_id [ none ↦ false | some p ↦ p == parent ]

unfoldable pub channel_deleted : String → Store → Store × List Call
channel_deleted target_id s =
    let rest = filter (λ c. not (has_id target_id c)) s.channels in
    let next = find is_active rest in
    let selected : Store =
      set
        (λ p. record p {
          channels = rest;
          threads = filter (λ t. not (is_under target_id t)) p.threads;
          active_channel_id = elim next [ none ↦ none | some c ↦ some c.id ];
          removed_notice = false;
        })
        s in
    elim next [ none ↦ (selected, []) | some c ↦ activate_channel c.id false selected ]

unfoldable pub upsert_actor : Actor → Store → Store
upsert_actor actor =
    set (λ p. record p { actors = filter (λ a. not (a.id == actor.id)) p.actors ++ actor ∷ [] })

-- `memberAdd`: the cached rosters are dropped and read again.
unfoldable pub member_added : String → Store → Store × List Call
member_added target_id s = (
  set
      (λ p. record p {
        members_by_channel = delete target_id p.members_by_channel;
        memberships_by_channel = delete target_id p.memberships_by_channel;
      })
      s,
  Call.target_memberships target_id ∷ [],
)

unfoldable pub members_reloaded : String → List Membership → Store → Store
members_reloaded target_id ms = put_memberships target_id (some ms)
