-- ===== src/Delivery/Tests.antt =====
-- Runs of the delivery bridge, and its theorems at concrete wakes and events.
use dsh_chaos.Common.{String, true, false, List, [], ◌∷◌, ◌≡◌, refl, ◌<◌, map, filter}
use dsh_chaos.Wire.{PendingWake, RuntimeBinding}
use dsh_chaos.Runtime.Host.{Manager}
use dsh_chaos.Delivery.Scan.{Agents, scan_once, mark_of}
use dsh_chaos.Delivery.Bridge.{
  Bridge, initial, run, start, kick, scanning, Event, kicked, scan_finished, drain_settled,
}
use dsh_chaos.Delivery.Wakes.{scan_once-marks, is_mark, is_noticed}
use dsh_chaos.Delivery.Levels.{kick-not_lost}

abbrev binding : String → RuntimeBinding
binding id = record {
  agent_id = id;
  session_id = "s";
  generation = "1";
  provider = "p";
  model = "m";
  preset = "code";
  bound_at_ms = 0;
}

abbrev lease_of_a : Manager
lease_of_a = record {
  active = ("a", record { binding = binding "a"; agent = record { key = 1; id = "s" } }) ∷ [];
  identities = [];
  pending_receipts = [];
  closing = false;
}

abbrev willing : Agents
willing = record { is_running = λ a. true; accepts = λ a. true; marks = λ w. true }

abbrev two_wakes : List PendingWake
two_wakes =
    record { binding = binding "b"; pending_seq = "4" }
    ∷ record { binding = binding "a"; pending_seq = "7" }
    ∷ []

scan_once-marks_example :
    filter is_mark (scan_once willing lease_of_a two_wakes)
    ≡ map mark_of (filter (is_noticed willing lease_of_a) two_wakes)
scan_once-marks_example = scan_once-marks willing lease_of_a two_wakes

abbrev busy : Bridge
busy = record { timer = true; requested = false; running = scanning; stopped = false; scans = 3 }

abbrev rounds : List Event
rounds = kicked ∷ scan_finished ∷ scan_finished ∷ drain_settled ∷ []

kick-not_lost_example : busy.scans < (run rounds (kick busy)).scans
unfolding run kick
kick-not_lost_example = kick-not_lost busy rounds refl refl refl

-- A started bridge scans at once.
start_scans : (start initial).scans ≡ 1
unfolding start
start_scans = refl
