-- ===== src/Delivery/Bridge.antt =====
-- src/delivery.ts: `start`, `kick`, `stop` and `drain` as a state machine. A drain runs up to its
-- scan's first await within `kick`; when the scan ends it either scans again or returns, and its
-- `finally` runs in a later turn.
use dsh_chaos.Common.{ℕ, ◌+◌, Bool, true, false, not, ◌&&◌, List, [], ◌∷◌, if◌then◌else◌, ltb}

-- `running`: undefined, a scan under way, or a drain that has returned.
pub data Running : Type 0 where
  idle scanning drained : Running

pub record Bridge : Type 0 where
  pub timer : Bool
  pub requested : Bool
  pub running : Running
  pub stopped : Bool
  -- The scans begun so far.
  pub scans : ℕ

-- The constructor, which throws for an interval below 50 ms.
abbrev pub accepts_interval : ℕ → Bool
accepts_interval poll_ms = not (ltb poll_ms 50)

abbrev pub initial : Bridge
initial = record { timer = false; requested = false; running = idle; stopped = true; scans = 0 }

-- The loop of `drain`, up to the next await.
unfoldable pub drain : Bridge → Bridge
drain b =
    if not b.stopped && b.requested
    then record b { requested = false; running = scanning; scans = b.scans + 1 }
    else record b { running = drained }

unfoldable pub kick : Bridge → Bridge
unfolding drain
kick b =
    let asked : Bridge = record b { requested = true } in
    if b.stopped
    then b
    else elim b.running [ idle ↦ drain asked | scanning ↦ asked | drained ↦ asked ]

unfoldable pub start : Bridge → Bridge
unfolding kick
start b = if b.stopped then kick (record b { stopped = false; timer = true }) else b

-- `stop`, up to its await of the running drain.
unfoldable pub stop : Bridge → Bridge
stop b = if b.stopped then b else record b { stopped = true; requested = false; timer = false }

-- The scan's promise settles, whether it threw or not.
unfoldable pub scan_ended : Bridge → Bridge
unfolding drain
scan_ended b = elim b.running [ idle ↦ b | scanning ↦ drain b | drained ↦ b ]

-- The `finally` of the drain.
unfoldable pub settled : Bridge → Bridge
unfolding kick
settled b =
    let free : Bridge = record b { running = idle } in
    elim b.running [
      | idle ↦ b
      | scanning ↦ b
      | drained ↦ if not b.stopped && b.requested then kick free else free
    ]

-- `started`, `stop_called` and `kicked` (by the timer or by a client) come from outside.
pub data Event : Type 0 where
  started stop_called kicked scan_finished drain_settled : Event

unfoldable pub step : Event → Bridge → Bridge
unfolding start stop kick scan_ended settled
step started b = start b
step stop_called b = stop b
step kicked b = kick b
step scan_finished b = scan_ended b
step drain_settled b = settled b

unfoldable pub run : List Event → Bridge → Bridge
unfolding step
run [] b = b
run (e ∷ es) b = run es (step e b)
