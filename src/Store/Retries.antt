-- ===== src/Store/Retries.antt =====
-- The retries for a target that the catalog does not know yet: their number is bounded.
use dsh_chaos.Common.{
  ℕ, zero, suc, ◌+◌, String, not, ◌&&◌, Option, none, some, List, [], ◌∷◌, ◌≡◌, ◌⊎◌, ◌≤◌, ◌<◌, refl,
  inl, inr, arith, ltb, is_some, or_else, Bool-cases, Option-cases, ◌==◌, eq_iff,
}
use dsh_chaos.Common.Maps.{Map, lookup, insert, delete, lookup-insert, lookup-delete}
use dsh_chaos.Wire.{ChangeEvent, ChangeKind}
use dsh_chaos.Store.State.{Store, mark_read, initial}
use dsh_chaos.Store.Activation as Activation
use dsh_chaos.Store.Activation.{known_messages, put_messages, put_tail, put_memberships, put_read}
use dsh_chaos.Store.Changes as Changes
use dsh_chaos.Store.Events.{stepping, Event, step, run}
use dsh_chaos.Store.Changes.{unknown_target_retries}

-- Each attempt on record is one of the table's.
abbrev pub IsBounded : Store → Type 0
IsBounded s =
    (id : String) (n : ℕ) → lookup id s.unknown_timers ≡ some n → n < unknown_target_retries

keeps-IsBounded : (s t : Store) → t.unknown_timers ≡ s.unknown_timers → IsBounded s → IsBounded t
keeps-IsBounded s t e h id n q = h id n (ground arith)

insert-IsBounded :
    (id : String) (n : ℕ) (s t : Store)
    → n < unknown_target_retries
    → t.unknown_timers ≡ insert id n s.unknown_timers
    → IsBounded s
    → IsBounded t
insert-IsBounded id n s t small e h j k q = elim (Bool-cases (id == j)) [
  | inl same ↦ ground (arith, lookup-insert id j n s.unknown_timers)
  | inr other ↦ h j k (ground (arith, lookup-insert id j n s.unknown_timers))
]

delete-IsBounded :
    (id : String) (s t : Store)
    → t.unknown_timers ≡ delete id s.unknown_timers
    → IsBounded s
    → IsBounded t
delete-IsBounded id s t e h j k q = elim (Bool-cases (id == j)) [
  | inl same ↦ ground (arith, lookup-delete id j s.unknown_timers)
  | inr other ↦ h j k (ground (arith, lookup-delete id j s.unknown_timers))
]

schedule-IsBounded :
    (id : String) (s : Store)
    → IsBounded s
    → IsBounded (Changes.schedule_unknown_target_reload id s)
unfolding Changes.schedule_unknown_target_reload
schedule-IsBounded id s h = elim (Bool-cases (is_some (lookup id s.unknown_timers))) [
  | inl e ↦ keeps-IsBounded s (Changes.schedule_unknown_target_reload id s) (ground arith) h
  | inr e ↦
      insert-IsBounded id 0 s (Changes.schedule_unknown_target_reload id s) (omega arith)
        (ground arith) h
]

handle_message_created-IsBounded :
    (id : Option String) (s : Store)
    → IsBounded s
    → IsBounded (Changes.handle_message_created id s).0
unfolding Changes.handle_message_created Changes.count_message Changes.put_summary
handle_message_created-IsBounded none s h = h
handle_message_created-IsBounded (some id) s h = elim (Bool-cases (Changes.is_known id s)) [
  | inl e ↦ keeps-IsBounded s (Changes.handle_message_created (some id) s).0 (ground arith) h
  | inr e ↦
      keeps-IsBounded (Changes.schedule_unknown_target_reload id s)
        (Changes.handle_message_created (some id) s).0 (ground arith) (schedule-IsBounded id s h)
]

unknown_target_tick-IsBounded :
    (id : String) (s : Store) → IsBounded s → IsBounded (Changes.unknown_target_tick id s).0
unfolding Changes.unknown_target_tick
unknown_target_tick-IsBounded id s h = elim (Option-cases (lookup id s.unknown_timers)) [
  | inl e ↦ keeps-IsBounded s (Changes.unknown_target_tick id s).0 (ground arith) h
  | inr (n, e) ↦
      let fired : Store = record s { unknown_timers = delete id s.unknown_timers } in
      elim (Bool-cases (not (Changes.is_known id s) && ltb (n + 1) unknown_target_retries)) [
        | inl more ↦
            insert-IsBounded id (n + 1) fired (Changes.unknown_target_tick id s).0 (ground arith)
              (ground arith) (delete-IsBounded id s fired refl h)
        | inr last ↦ delete-IsBounded id s (Changes.unknown_target_tick id s).0 (ground arith) h
      ]
]

handle_change-IsBounded :
    (c : ChangeEvent) (s : Store) → IsBounded s → IsBounded (Changes.handle_change c s).0
unfolding Changes.handle_change Changes.schedule_activity_refresh
handle_change-IsBounded c s h = go c.kind refl
  where
    go : (k : ChangeKind) → c.kind ≡ k → IsBounded (Changes.handle_change c s).0
    go ChangeKind.message_created e =
        rw e (handle_message_created-IsBounded c.target_id (Changes.schedule_activity_refresh s) h)
    go k e = keeps-IsBounded s (Changes.handle_change c s).0 (ground arith) h

step-IsBounded : (e : Event) (s : Store) → IsBounded s → IsBounded (step e s).0
unfolding stepping Activation.activation_loaded Activation.older_loaded Activation.message_sent
    Changes.message_page_loaded put_tail put_read put_messages Changes.count_replies mark_read
step-IsBounded (Event.unknown_target_tick id) s h = unknown_target_tick-IsBounded id s h
step-IsBounded (Event.change c) s h = handle_change-IsBounded c s h
step-IsBounded e s h = keeps-IsBounded s (step e s).0 (ground arith) h

-- What the reloads for one target come to: ticks alone.
abbrev pub ticks : ℕ → String → List Event
ticks zero id = []
ticks (suc n) id = Event.unknown_target_tick id ∷ ticks n id

run-IsBounded : (es : List Event) (s : Store) → IsBounded s → IsBounded (run es s)
unfolding run
run-IsBounded [] s h = h
run-IsBounded (e ∷ es) s h = run-IsBounded es (step e s).0 (step-IsBounded e s h)

-- A tick forgets the target or counts one more attempt.
unknown_target_tick-cases :
    (id : String) (s : Store) (n : ℕ)
    → lookup id s.unknown_timers ≡ some n
    → let t = (Changes.unknown_target_tick id s).0 in
      (lookup id t.unknown_timers ≡ none) ⊎ (lookup id t.unknown_timers ≡ some (n + 1))
unfolding Changes.unknown_target_tick
unknown_target_tick-cases id s n e = ground (
  arith,
  eq_iff id id,
  lookup-delete id id s.unknown_timers,
  lookup-insert id id (n + 1) (delete id s.unknown_timers),
)

unknown_target_tick-idle :
    (id : String) (s : Store)
    → lookup id s.unknown_timers ≡ none
    → (Changes.unknown_target_tick id s).0 ≡ s
unfolding Changes.unknown_target_tick
unknown_target_tick-idle id s e = ground arith

ticks-idle :
    (k : ℕ) (id : String) (s : Store)
    → lookup id s.unknown_timers ≡ none
    → lookup id (run (ticks k id) s).unknown_timers ≡ none
unfolding run step
ticks-idle zero id s e = e
ticks-idle (suc k) id s e =
    ticks-idle k id (Changes.unknown_target_tick id s).0
      (ground (arith, unknown_target_tick-idle id s e))

ticks-end :
    (k n : ℕ) (id : String) (s : Store)
    → IsBounded s
    → lookup id s.unknown_timers ≡ some n
    → unknown_target_retries ≤ n + k
    → lookup id (run (ticks k id) s).unknown_timers ≡ none
unfolding run step
ticks-end zero n id s h e enough = let small = h id n e in ground arith
ticks-end (suc k) n id s h e enough =
    let t = (Changes.unknown_target_tick id s).0 in
    elim (unknown_target_tick-cases id s n e) [
      | inl gone ↦ ticks-idle k id t gone
      | inr more ↦
          ticks-end k (n + 1) id t (unknown_target_tick-IsBounded id s h) more (omega arith)
    ]

-- In every store that events reach from the constructor's, the attempt count of each target is
-- below the length of the table of delays, and as many ticks of one target as the table has delays
-- leave no timer for that target, known or not.
pub retries_end :
    (storage : Option (Map ℕ)) (es : List Event) (id : String)
    → let s = run es (initial storage) in
      (or_else (lookup id s.unknown_timers) 0 < unknown_target_retries)
      × (lookup id (run (ticks unknown_target_retries id) s).unknown_timers ≡ none)
unfolding lookup
retries_end storage es id =
    let s = run es (initial storage) in
    let h : IsBounded s = run-IsBounded es (initial storage) (λ j k q. cc) in
    elim (Option-cases (lookup id s.unknown_timers)) [
      | inl e ↦ (rw e (omega arith), ticks-idle unknown_target_retries id s e)
      | inr (n, e) ↦ (rw e (h id n e), ticks-end unknown_target_retries n id s h e (omega arith))
    ]
