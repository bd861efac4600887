-- ===== src/Remote/Handler.antt =====
-- src/remote.ts: `createCollabRpcHandler`. The API is a function that performs one call on a
-- state; a call that fails reports the message of its error.
use dsh_chaos.Common.{String, Bool, true, false, Option, none, some, if◌then◌else◌}
use dsh_chaos.Common.Results.{Result, ok, throws}
use dsh_chaos.Remote.Payload.{Value}
use dsh_chaos.Remote.Request.{Request}
use dsh_chaos.Remote.Dispatch.{dispatch}
use dsh_chaos.Remote.Errors.{DomainError, error_result}

pub data Answer (R : Type 0) : Type 0 where
  cancelled : Answer R
  success : Option R → Answer R
  failure : DomainError → Answer R

-- The cases of the switch that await the call and return `null`.
unfoldable pub returns_null : Request → Bool
returns_null (Request.inbox_done a t seq) = true
returns_null (Request.delete_agent g) = true
returns_null (Request.follow_thread t a) = true
returns_null (Request.unfollow_thread t a) = true
returns_null (Request.add_member t m a) = true
returns_null _ = false

module _ {R S : Type 0} (call : Request → S → Result R × S) where
  answer : Request → Result R × S → Answer R × S
  answer req (ok r, s) = (success (if returns_null req then none else some r), s)
  answer req (throws e, s) = (failure (error_result e), s)

  attempt : Result Request → S → Answer R × S
  attempt (ok req) s = answer req (call req s)
  attempt (throws e) s = (failure (error_result e), s)

  unfoldable pub handle : String → String → Value → Bool → S → Answer R × S
  unfolding attempt answer
  handle actor_id endpoint payload aborted s =
      if aborted then (cancelled, s) else attempt (dispatch actor_id endpoint payload) s
