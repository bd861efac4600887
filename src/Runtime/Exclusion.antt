-- ===== src/Runtime/Exclusion.antt =====
-- The lock of an Agent, in every interleaving of its operations.
use dsh_chaos.Common.{List, [], ◌∷◌}
use dsh_chaos.Common.Maps.{lookup}
use dsh_chaos.Runtime.Locks.{Locks, no_locks, Event, called, resumed, ended, lock_step, lock_run}
use dsh_chaos.Runtime.Held.{IsSerial, acquire-IsSerial, begin-IsSerial}
use dsh_chaos.Runtime.Release.{finish-IsSerial}

lock_step-IsSerial : (e : Event) (s : Locks) → IsSerial s → IsSerial (lock_step e s)
unfolding lock_step
lock_step-IsSerial (called agent) s h = acquire-IsSerial agent s h
lock_step-IsSerial (resumed t) s h = begin-IsSerial t s h
lock_step-IsSerial (ended t) s h = finish-IsSerial t s h

lock_run-IsSerial : (es : List Event) (s : Locks) → IsSerial s → IsSerial (lock_run es s)
unfolding lock_run
lock_run-IsSerial [] s h = h
lock_run-IsSerial (e ∷ es) s h = lock_run-IsSerial es (lock_step e s) (lock_step-IsSerial e s h)

pub reachable-IsSerial : (es : List Event) → IsSerial (lock_run es no_locks)
unfolding lookup
reachable-IsSerial es = lock_run-IsSerial es no_locks (record { queue = tt; held = λ a. tt })
