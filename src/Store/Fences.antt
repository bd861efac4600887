-- ===== src/Store/Fences.antt =====
-- The load generation of the store, which `start`, `dispose` and `resync` advance, and the answers
-- that it fences.
use dsh_chaos.Common.{
  ℕ, ◌+◌, String, Bool, true, false, not, Option, none, some, List, [], ◌∷◌, ◌++◌, ◌≡◌, ◌≤◌, ◌<◌,
  refl, arith, nat_eq, all, filter,
}
use dsh_chaos.Wire as Wire
use dsh_chaos.Wire.{Membership, Message, MessageTail, SendResult, ChangeEvent}
use dsh_chaos.Store.State.{Store, Connection, mark_read, is_channel}
use dsh_chaos.Store.Activation as Activation
use dsh_chaos.Store.Activation.{known_messages, put_messages, put_tail, put_memberships, put_read}
use dsh_chaos.Store.Changes as Changes
use dsh_chaos.Store.Reload as Reload
use dsh_chaos.Store.Events.{stepping, Event, step, run}

-- The generation that an answer was asked for, for the answers that are compared with it.
abbrev pub generation_of : Event → Option ℕ
generation_of (Event.activation_loaded g id tail ms) = some g
generation_of (Event.activation_failed g id reason) = some g
generation_of (Event.older_loaded g id cursor page) = some g
generation_of (Event.older_failed g) = some g
generation_of (Event.resync_failed g) = some g
generation_of (Event.message_page_loaded g id page) = some g
generation_of (Event.active_members_loaded g id ms) = some g
generation_of (Event.summaries_loaded g roots rows) = some g
generation_of (Event.activity_loaded g page) = some g
generation_of (Event.bootstrap_loaded g w as_ ts bs answers) = some g
generation_of (Event.resync_loaded g w as_ ts bs answers) = some g
generation_of (Event.bootstrap_failed g reason) = some g
generation_of (Event.bootstrap_lists_loaded g w) = some g
generation_of (Event.resync_lists_loaded g w) = some g
generation_of (Event.resync_totals_loaded g w) = some g
generation_of (Event.reload_snapshot_loaded g w) = some g
generation_of (Event.reload_loaded g fallback w known answers) = some g
generation_of _ = none

stale-step :
    (e : Event) (g : ℕ) (s : Store)
    → generation_of e ≡ some g
    → nat_eq s.load_generation g ≡ false
    → step e s ≡ (s, [])
unfolding stepping Activation.activation_loaded Activation.older_loaded Activation.message_sent
    Changes.message_page_loaded put_tail put_read put_messages Changes.count_replies mark_read
stale-step e g s h q = ground arith

step-load_generation : (e : Event) (s : Store) → s.load_generation ≤ (step e s).0.load_generation
unfolding stepping Activation.activation_loaded Activation.older_loaded Activation.message_sent
    Changes.message_page_loaded put_tail put_read put_messages Changes.count_replies mark_read
step-load_generation e s = ground arith

pub run-load_generation :
    (es : List Event) (s : Store) → s.load_generation ≤ (run es s).load_generation
unfolding run
run-load_generation [] s = omega arith
run-load_generation (e ∷ es) s =
    let first = step-load_generation e s in
    let rest = run-load_generation es (step e s).0 in omega arith

-- What ends a load: the events that advance the generation.
abbrev pub supersedes : Event → Bool
supersedes Event.dispose = true
supersedes Event.resync = true
supersedes _ = false

supersedes-advances :
    (e : Event) (s : Store) → supersedes e ≡ true → s.load_generation < (step e s).0.load_generation
unfolding step Reload.dispose Reload.resync
supersedes-advances e s q = ground arith

nat_eq-lt : (m n : ℕ) → m < n → nat_eq n m ≡ false
nat_eq-lt m n h = ground arith

-- Once `dispose` or `resync` has run, and whatever else has happened since, the answer or the failure
-- of a call that was sent before leaves the store as it is and sends no further call. It concerns
-- the answers that the source compares with the generation they were asked under: not the snapshot
-- of a bootstrap or a resync nor the totals of a bootstrap, behind which reads are sent unchecked,
-- nor the end of a resync, nor the answers to what a user does.
pub superseded_answer_ignored :
    (ender answer : Event) (es : List Event) (s : Store)
    → supersedes ender ≡ true
    → generation_of answer ≡ some s.load_generation
    → step answer (run (ender ∷ es) s) ≡ (run (ender ∷ es) s, [])
unfolding run
superseded_answer_ignored ender answer es s ends asked =
    let t = run (ender ∷ es) s in
    let first = supersedes-advances ender s ends in
    let rest = run-load_generation es (step ender s).0 in
    let later : s.load_generation < t.load_generation = omega arith in
    stale-step answer s.load_generation t asked
      (nat_eq-lt s.load_generation t.load_generation later)

-- Whatever happens, the load generation never goes back.
pub load_generation_monotone :
    (es fs : List Event) (s : Store)
    → (run es s).load_generation ≤ (run (es ++ fs) s).load_generation
unfolding run
load_generation_monotone [] fs s = run-load_generation fs s
load_generation_monotone (e ∷ es) fs s = load_generation_monotone es fs (step e s).0

-- The two answers behind which the stream is opened.
abbrev pub opens_stream : Event → Bool
opens_stream (Event.bootstrap_loaded g w as_ ts bs answers) = true
opens_stream (Event.resync_finished w) = true
opens_stream _ = false

step-stream :
    (e : Event) (s : Store) → opens_stream e ≡ false → s.stream ≡ none → (step e s).0.stream ≡ none
unfolding stepping Activation.activation_loaded Activation.older_loaded Activation.message_sent
    Changes.message_page_loaded put_tail put_read put_messages Changes.count_replies mark_read
step-stream e s q closed = ground arith

run-stream :
    (es : List Event) (s : Store)
    → all (λ e. not (opens_stream e)) es ≡ true
    → s.stream ≡ none
    → (run es s).stream ≡ none
unfolding run
run-stream [] s q closed = closed
run-stream (e ∷ es) s q closed =
    run-stream es (step e s).0 (ground arith) (step-stream e s (ground arith) closed)

-- A resync that is still current when its answers are in selects a Channel and waits for its
-- history, with the stream closed.
resync_loaded-waits :
    (wire : Wire.Snapshot) (actors : List Wire.Actor) (tasks : List Wire.Task)
    (bindings : List Wire.RuntimeBinding) (answers : String → Option MessageTail) (a : String)
    (g : ℕ) (s : Store)
    → s.load_generation ≡ g
    → Reload.resync_active (filter is_channel wire.targets) s.active_channel_id ≡ some a
    → let t = (step (Event.resync_loaded g wire actors tasks bindings answers) s).0 in
      (t.active_channel_id ≡ some a)
      × (t.history_loading ≡ true)
      × (t.load_generation ≡ g)
      × (t.stream ≡ s.stream)
unfolding step Reload.resync_loaded Activation.activate_channel Activation.needs_history
resync_loaded-waits wire actors tasks bindings answers a g s current active =
    let same : nat_eq s.load_generation g ≡ true = ground arith in
    rw (same, active) (active, refl, current, refl)

-- The last step of a resync is not fenced. A resync whose answers are in waits for the history of
-- the Channel that it selected; the store is disposed meanwhile, and whatever else happens, short
-- of another load that opens the stream, leaves the stream closed; the end of the resync then
-- opens it again and shows the store live, although the generation has moved past the resync's.
pub disposed_store_reopens :
    (before after : List Event) (wire : Wire.Snapshot) (actors : List Wire.Actor)
    (tasks : List Wire.Task) (bindings : List Wire.RuntimeBinding)
    (answers : String → Option MessageTail) (a : String) (s : Store)
    → let g = s.load_generation + 1 in
      let r = run (Event.resync ∷ before) s in
      let waiting = (step (Event.resync_loaded g wire actors tasks bindings answers) r).0 in
      let disposed = run (Event.dispose ∷ after) waiting in
      let t = (step (Event.resync_finished wire) disposed).0 in
      all (λ e. not (opens_stream e)) before ≡ true
      → all (λ e. not (opens_stream e)) after ≡ true
      → r.load_generation ≡ g
      → Reload.resync_active (filter is_channel wire.targets) r.active_channel_id ≡ some a
      → (waiting.active_channel_id ≡ some a)
        × (waiting.history_loading ≡ true)
        × (disposed.stream ≡ none)
        × (g < disposed.load_generation)
        × (t.stream ≡ some wire.cursor)
        × (t.connection ≡ Connection.live)
unfolding run step Reload.resync Reload.dispose Reload.resync_finished
disposed_store_reopens before after wire actors tasks bindings answers a s quiet silent current
      active =
    let g = s.load_generation + 1 in
    let r = run before (step Event.resync s).0 in
    let waiting = (step (Event.resync_loaded g wire actors tasks bindings answers) r).0 in
    let (selected, loading, kept, same) =
      resync_loaded-waits wire actors tasks bindings answers a g r current active in
    let gone = (step Event.dispose waiting).0 in
    let later = run-load_generation after gone in
    let advanced : g < gone.load_generation = rw kept (omega arith) in
    (selected, loading, run-stream after gone silent refl, omega arith, refl, refl)
