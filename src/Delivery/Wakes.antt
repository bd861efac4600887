-- ===== src/Delivery/Wakes.antt =====
-- What a scan does with the pending wakes.
use dsh_chaos.Common.{
  String, Bool, true, false, Option, none, some, List, [], ◌∷◌, ◌++◌, ◌≡◌, refl, arith, map, filter,
  is_some, if◌then◌else◌, All, All-append, inl, inr, Bool-cases, ◌∙◌,
}
use dsh_chaos.Wire.{PendingWake}
use dsh_chaos.Runtime.Host.{Manager}
use dsh_chaos.Runtime.Manager.{resolve}
use dsh_chaos.Delivery.Scan.{
  Effect, steer, followup, mark_notified, Agents, deliver, scan_once, mark_of, wake_text,
}

abbrev pub is_mark : Effect → Bool
is_mark (mark_notified a g s p) = true
is_mark _ = false

-- The wake's exact generation is current, and its Agent took the notice.
abbrev pub is_noticed : Agents → Manager → PendingWake → Bool
is_noticed agents m wake = elim (resolve wake.binding m) [
  | none ↦ false
  | some agent ↦ agents.accepts agent
]

filter-append :
    (p : Effect → Bool) (xs ys : List Effect) → filter p (xs ++ ys) ≡ filter p xs ++ filter p ys
filter-append p [] ys = refl
filter-append p (x ∷ xs) ys = ground (arith, filter-append p xs ys)

deliver-marks :
    (agents : Agents) (m : Manager) (wake : PendingWake)
    → filter is_mark (deliver agents m wake)
      ≡ (if is_noticed agents m wake then mark_of wake ∷ [] else [])
unfolding deliver
deliver-marks agents m wake = ground arith

-- A scan marks as notified exactly the wakes whose exact Session generation the manager resolves
-- and whose Agent took the notice, in their order and each with its own pending sequence: the
-- failure of one wake neither marks it nor keeps another from its mark.
pub scan_once-marks :
    (agents : Agents) (m : Manager) (wakes : List PendingWake)
    → filter is_mark (scan_once agents m wakes) ≡ map mark_of (filter (is_noticed agents m) wakes)
unfolding scan_once
scan_once-marks agents m [] = refl
scan_once-marks agents m (w ∷ ws) =
    let here = deliver-marks agents m w in
    let there = scan_once-marks agents m ws in
    filter-append is_mark (deliver agents m w) (scan_once agents m ws)
    ∙ elim (Bool-cases (is_noticed agents m w)) [
      | inl e ↦ rw (here, there, e) refl
      | inr e ↦ rw (here, there, e) refl
    ]

-- What an effect hands to an Agent, where it hands it something.
abbrev pub text_of : Effect → Option String
text_of (steer a text) = some text
text_of (followup a text) = some text
text_of _ = none

-- A wake carries no message: every text that a scan hands to an Agent is the same notice.
abbrev pub IsBodiless : Effect → Type 0
IsBodiless e = text_of e ≡ (if is_some (text_of e) then some wake_text else none)

deliver-IsBodiless :
    (agents : Agents) (m : Manager) (wake : PendingWake) → All IsBodiless (deliver agents m wake)
unfolding deliver
deliver-IsBodiless agents m wake = ground arith

-- Every text that a scan hands to an Agent is the one notice, which no message body enters.
pub scan_once-IsBodiless :
    (agents : Agents) (m : Manager) (wakes : List PendingWake)
    → All IsBodiless (scan_once agents m wakes)
unfolding scan_once
scan_once-IsBodiless agents m [] = tt
scan_once-IsBodiless agents m (w ∷ ws) =
    All-append IsBodiless (deliver agents m w) (scan_once agents m ws)
      (deliver-IsBodiless agents m w) (scan_once-IsBodiless agents m ws)
