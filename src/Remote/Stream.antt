-- ===== src/Remote/Stream.antt =====
-- src/remote.ts: `serveCollabEvents` behind its guards, the loop that replays the change ledger to
-- one browser. The connection takes `room` more chunks, and then it is closed, which aborts.
pub mod Ledger
pub mod Replay
use dsh_chaos.Common.{
  ℕ, zero, suc, String, Bool, true, false, Option, none, some, List, [], ◌∷◌, ◌++◌, nat_eq,
  if◌then◌else◌, ◌==◌,
}
use dsh_chaos.Common.Results.{Result, ok, throws}
use dsh_chaos.Wire.{ChangeEvent}
use dsh_chaos.Remote.Errors.{DomainError, error_result}

-- What is written: the preamble, one change with its id, a last event before the end, a comment.
pub data Frame : Type 0 where
  connected : Frame
  change : ChangeEvent → Frame
  resync_required : DomainError → Frame
  error : DomainError → Frame
  heartbeat : Frame

pub record Stream : Type 0 where
  pub cursor : String
  pub room : ℕ
  pub sent : List Frame

-- How a wait ends.
pub data Reason : Type 0 where
  changed timed_out aborted : Reason

-- `writeSse`: nothing is written once the connection is closed.
unfoldable pub write : Frame → Stream → Stream
write f s = elim s.room [ zero ↦ s | suc n ↦ record s { room = n; sent = s.sent ++ f ∷ [] } ]

-- The loop over one page.
unfoldable pub send_changes : List ChangeEvent → Stream → Stream
send_changes [] s = s
send_changes (c ∷ cs) s = send_changes cs (write (change c) (record s { cursor = c.seq }))

-- The end of the stream after a read that failed.
unfoldable pub send_failure : DomainError → Stream → Stream
send_failure detail s =
    if detail.code == "change_cursor_resync_required"
    then write (resync_required detail) s
    else write (error detail) s

unfoldable pub after_wait : Reason → Stream → Stream
after_wait changed s = s
after_wait timed_out s = write heartbeat s
after_wait aborted s = record s { room = 0 }

-- One turn of the loop: the ledger that the read finds, and how the wait ends if there is one.
pub record Round (L : Type 0) : Type 0 where
  pub ledger : L
  pub reason : Reason

-- The loop over the rounds seen so far. `list_changes` is the read of the core, as the principal.
module _ {L : Type 0} (list_changes : L → String → ℕ → Result (List ChangeEvent)) where
  unfoldable pub serve : List (Round L) → Stream → Stream
  unfolding write send_changes send_failure after_wait
  serve [] s = s
  serve (r ∷ rs) s = elim s.room [
    | zero ↦ s
    | suc _ ↦ elim (list_changes r.ledger s.cursor 500) [
      | throws e ↦ send_failure (error_result e) s
      | ok [] ↦ serve rs (after_wait r.reason s)
      | ok (c ∷ cs) ↦ serve rs (send_changes (c ∷ cs) s)
    ]
  ]

  -- The whole stream, from the cursor of the request.
  unfoldable pub serve_from : List (Round L) → String → ℕ → Stream
  unfolding serve
  serve_from rs cursor room =
      serve rs (write connected (record { cursor = cursor; room = room; sent = [] }))

-- The changes among what was written.
abbrev pub changes : List Frame → List ChangeEvent
changes [] = []
changes (change c ∷ fs) = c ∷ changes fs
changes (connected ∷ fs) = changes fs
changes (resync_required d ∷ fs) = changes fs
changes (error d ∷ fs) = changes fs
changes (heartbeat ∷ fs) = changes fs
