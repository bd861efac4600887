-- ===== src/Runtime/Locks.antt =====
-- src/runtime.ts: `withAgentLock`, the chain of promises that serialises the operations on one Agent,
-- with every interleaving of the operations that are under way.
use dsh_chaos.Common.{
  ℕ, String, Bool, true, false, ◌&&◌, Option, none, some, List, [], ◌∷◌, length, nat_eq,
  if◌then◌else◌,
}
use dsh_chaos.Common.Maps.{Map, lookup, insert, delete}
use dsh_chaos.Common.Texts.{trim, is_empty}

-- An operation awaits its predecessor, runs, or has called its `release`.
pub data Phase : Type 0 where
  waiting running released : Phase

pub record Op : Type 0 where
  pub agent : String
  -- The promise that was in the map, if there was one.
  pub predecessor : Option ℕ
  pub phase : Phase

-- The newest operation stands first; its promise `current` is numbered by the ones before it.
pub record Locks : Type 0 where
  pub locks : Map ℕ
  pub ops : List Op

abbrev pub no_locks : Locks
no_locks = record { locks = []; ops = [] }

abbrev pub op_at : ℕ → List Op → Option Op
op_at t [] = none
op_at t (o ∷ ops) = if nat_eq t (length ops) then some o else op_at t ops

abbrev pub set_phase : ℕ → Phase → List Op → List Op
set_phase t phase [] = []
set_phase t phase (o ∷ ops) =
    if nat_eq t (length ops) then (record o { phase = phase }) ∷ ops else o ∷ set_phase t phase ops

abbrev pub is_waiting : Phase → Bool
is_waiting waiting = true
is_waiting running = false
is_waiting released = false

abbrev pub is_running : Phase → Bool
is_running waiting = false
is_running running = true
is_running released = false

abbrev pub is_released : Option Op → Bool
is_released none = false
is_released (some o) = elim o.phase [ waiting ↦ false | running ↦ false | released ↦ true ]

-- Whether the awaited promise is resolved: `Promise.resolve()`, or one that was released.
abbrev pub may_run : Option ℕ → List Op → Bool
may_run none ops = true
may_run (some p) ops = is_released (op_at p ops)

-- The call, up to its await; a blank id throws before it takes a place.
unfoldable pub acquire : String → Locks → Locks
acquire agent s = if is_empty (trim agent) then s else record {
  locks = insert agent (length s.ops) s.locks;
  ops = (record { agent = agent; predecessor = lookup agent s.locks; phase = waiting }) ∷ s.ops;
}

abbrev begin_op : ℕ → Locks → Option Op → Locks
begin_op t s none = s
begin_op t s (some o) =
    if is_waiting o.phase && may_run o.predecessor s.ops
    then record s { ops = set_phase t running s.ops }
    else s

-- The await of the predecessor resumes, once that is resolved.
unfoldable pub begin : ℕ → Locks → Locks
begin t s = begin_op t s (op_at t s.ops)

abbrev pub same_ticket : ℕ → Option ℕ → Bool
same_ticket t none = false
same_ticket t (some p) = nat_eq p t

abbrev finish_op : ℕ → Locks → Option Op → Locks
finish_op t s none = s
finish_op t s (some o) =
    if is_running o.phase
    then record {
      locks = if same_ticket t (lookup o.agent s.locks) then delete o.agent s.locks else s.locks;
      ops = set_phase t released s.ops;
    }
    else s

-- The `finally`, however the operation ended.
unfoldable pub finish : ℕ → Locks → Locks
finish t s = finish_op t s (op_at t s.ops)

pub data Event : Type 0 where
  called : String → Event
  resumed ended : ℕ → Event

unfoldable pub lock_step : Event → Locks → Locks
lock_step (called agent) s = acquire agent s
lock_step (resumed t) s = begin t s
lock_step (ended t) s = finish t s

unfoldable pub lock_run : List Event → Locks → Locks
lock_run [] s = s
lock_run (e ∷ es) s = lock_run es (lock_step e s)
