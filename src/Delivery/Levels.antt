-- ===== src/Delivery/Levels.antt =====
-- The bridge is level-triggered: no kick is lost, a burst of kicks comes to one scan, and a stopped
-- bridge is quiet.
use dsh_chaos.Common.{
  ℕ, zero, suc, ◌+◌, ◌≤◌, ◌<◌, Bool, true, false, not, List, [], ◌∷◌, ◌++◌, ◌≡◌, ◌∙◌, ◌⊎◌, refl,
  inl, inr, arith, ap, all,
}
use dsh_chaos.Delivery.Bridge.{
  Bridge, Running, idle, scanning, Event, started, stop_called, kicked, scan_finished, drain, kick,
  start, stop, scan_ended, settled, step, run,
}

abbrev pub is_stop : Event → Bool
is_stop stop_called = true
is_stop _ = false

abbrev pub is_start : Event → Bool
is_start started = true
is_start _ = false

abbrev pub is_idle : Running → Bool
is_idle idle = true
is_idle _ = false

-- A kick that waits: the drain that is under way, or its `finally`, will see it.
abbrev Waits : Bridge → Type 0
Waits b = (b.stopped ≡ false) × (b.requested ≡ true) × (is_idle b.running ≡ false)

step-scans : (e : Event) (b : Bridge) → b.scans ≤ (step e b).scans
unfolding step start stop kick scan_ended settled drain
step-scans e b = ground arith

run-scans : (es : List Event) (b : Bridge) → b.scans ≤ (run es b).scans
unfolding run
run-scans [] b = omega arith
run-scans (e ∷ es) b =
    let here = step-scans e b in let there = run-scans es (step e b) in omega arith

step-Waits :
    (e : Event) (b : Bridge)
    → is_stop e ≡ false
    → Waits b
    → Waits (step e b) ⊎ (b.scans < (step e b).scans)
unfolding step start stop kick scan_ended settled drain
step-Waits e b h w = ground arith

run-Waits :
    (es : List Event) (b : Bridge)
    → all (λ e. not (is_stop e)) es ≡ true
    → Waits b
    → Waits (run es b) ⊎ (b.scans < (run es b).scans)
unfolding run
run-Waits [] b h w = inl w
run-Waits (e ∷ es) b h w = elim (step-Waits e b (ground arith) w) [
  | inl still ↦
      let same : b.scans ≤ (step e b).scans = step-scans e b in
      elim (run-Waits es (step e b) (ground arith) still) [
        | inl waits ↦ inl waits
        | inr scanned ↦ inr (omega arith)
      ]
  | inr scanned ↦
      let more : (step e b).scans ≤ (run es (step e b)).scans = run-scans es (step e b) in
      inr (omega arith)
]

kick-scans : (b : Bridge) → b.scans ≤ (kick b).scans
unfolding kick drain
kick-scans b = ground arith

kick-Waits : (b : Bridge) → b.stopped ≡ false → Waits (kick b) ⊎ (b.scans < (kick b).scans)
unfolding kick drain
kick-Waits b h = ground arith

-- A kick of a bridge that is not stopped is never lost: however the drains and further kicks
-- interleave, without a stop the bridge does not come to rest before a scan has begun after it.
pub kick-not_lost :
    (b : Bridge) (es : List Event)
    → b.stopped ≡ false
    → all (λ e. not (is_stop e)) es ≡ true
    → is_idle (run es (kick b)).running ≡ true
    → b.scans < (run es (kick b)).scans
kick-not_lost b es live quiet rests = elim (kick-Waits b live) [
  | inr scanned ↦
      let more : (kick b).scans ≤ (run es (kick b)).scans = run-scans es (kick b) in omega arith
  | inl waits ↦
      let same : b.scans ≤ (kick b).scans = kick-scans b in
      elim (run-Waits es (kick b) quiet waits) [
        | inl still ↦ ground arith
        | inr scanned ↦ omega arith
      ]
]

abbrev pub kicks : ℕ → List Event
kicks zero = []
kicks (suc k) = kicked ∷ kicks k

run-append : (es fs : List Event) (b : Bridge) → run (es ++ fs) b ≡ run fs (run es b)
unfolding run
run-append [] fs b = refl
run-append (e ∷ es) fs b = run-append es fs (step e b)

abbrev asked : Bridge → Bridge
asked b = record b { requested = true }

kick-scanning : (b : Bridge) → b.stopped ≡ false → b.running ≡ scanning → kick b ≡ asked b
unfolding kick drain
kick-scanning b live busy = ground arith

kicks-scanning :
    (k : ℕ) (b : Bridge)
    → b.stopped ≡ false
    → b.running ≡ scanning
    → run (kicks (suc k)) b ≡ asked b
unfolding run step
kicks-scanning zero b live busy = kick-scanning b live busy
kicks-scanning (suc k) b live busy =
    ap (run (kicks (suc k))) (kick-scanning b live busy) ∙ kicks-scanning k (asked b) live busy

-- However often the bridge is kicked while a scan is under way, one more scan follows it and no
-- request is left.
pub burst_coalesces :
    (k : ℕ) (b : Bridge)
    → b.stopped ≡ false
    → b.running ≡ scanning
    → let t = run (kicks (suc k) ++ scan_finished ∷ []) b in
      (t.scans ≡ b.scans + 1) × (t.running ≡ scanning) × (t.requested ≡ false)
unfolding run step scan_ended drain
burst_coalesces k b live busy =
    rw (run-append (kicks (suc k)) (scan_finished ∷ []) b, kicks-scanning k b live busy)
      (ground arith)

step-stopped :
    (e : Event) (b : Bridge)
    → is_start e ≡ false
    → b.stopped ≡ true
    → ((step e b).stopped ≡ true) × ((step e b).scans ≡ b.scans)
unfolding step start stop kick scan_ended settled drain
step-stopped e b h s = ground arith

run-stopped :
    (es : List Event) (b : Bridge)
    → all (λ e. not (is_start e)) es ≡ true
    → b.stopped ≡ true
    → (run es b).scans ≡ b.scans
unfolding run
run-stopped [] b h s = refl
run-stopped (e ∷ es) b h s =
    let (stays, same) = step-stopped e b (ground arith) s in
    run-stopped es (step e b) (ground arith) stays ∙ same

stop-stopped : (b : Bridge) → ((stop b).stopped ≡ true) × ((stop b).scans ≡ b.scans)
unfolding stop
stop-stopped b = ground arith

-- After a stop, and until the next start, no scan begins, whatever timers fire and scans end.
pub stop_is_quiet :
    (es : List Event) (b : Bridge)
    → all (λ e. not (is_start e)) es ≡ true
    → (run es (stop b)).scans ≡ b.scans
stop_is_quiet es b h =
    let (stopped, same) = stop-stopped b in run-stopped es (stop b) h stopped ∙ same
