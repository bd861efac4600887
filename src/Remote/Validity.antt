-- ===== src/Remote/Validity.antt =====
-- src/remote.ts: the checks that the arguments of every call of `dispatchRemote` passed.
use dsh_chaos.Common.{String, ◌≡◌, ◌⊎◌, inl, inr, arith, Option-cases}
use dsh_chaos.Common.Maps.{lookup}
use dsh_chaos.Common.Results.{Holds}
use dsh_chaos.Remote.Payload.{Value, undefined, str, obj, Fields, fields_of}
use dsh_chaos.Remote.Request.{Request, Endpoint, endpoints}
use dsh_chaos.Remote.Dispatch.{dispatch, dispatch_endpoint}
use dsh_chaos.Remote.Checks.{
  IsText, IsDecimal, IsTextWhenGiven, InRange, IsBatch, required_string-IsText,
  optional_string-IsText, decimal_string-IsDecimal, integer-InRange, string_array-IsBatch,
}

abbrev pub IsValid : String → Request → Type 0
IsValid me (Request.list_target_members a t) = IsText t
IsValid me (Request.list_target_memberships a t) = IsText t
IsValid me (Request.list_changes a seq n) = IsDecimal seq × InRange 500 n
IsValid me (Request.read_messages a t seq n) = IsText t × IsDecimal seq × InRange 100 n
IsValid me (Request.read_messages_tail a t n) = IsText t × InRange 100 n
IsValid me (Request.inbox_list a n cursor f) = InRange 50 n × IsTextWhenGiven cursor
IsValid me (Request.inbox_done a t seq) = IsText t × IsDecimal seq
IsValid me (Request.list_tasks a t) = IsTextWhenGiven t
IsValid me (Request.agent_profile a g) = IsText g
IsValid me (Request.agent_memberships a g) = IsText g
IsValid me (Request.update_agent_profile a g n d v) = IsText g × IsText n × IsText d × IsDecimal v
IsValid me (Request.update_agent_avatar a g u v) = IsText g × IsTextWhenGiven u × IsDecimal v
IsValid me (Request.replace_agent_runtime a g p m q e) =
    IsText g × IsText p × IsText m × IsText q × IsTextWhenGiven e
IsValid me (Request.agent_workspace a g d h) = IsText g
IsValid me (Request.agent_workspace_file a g p) = IsText g × IsText p
IsValid me (Request.create_configured_agent n d p m q) =
    IsText n × IsText d × IsText p × IsText m × IsText q
IsValid me (Request.delete_agent g) = IsText g
IsValid me (Request.create_channel n d a) = IsText n × IsText d
IsValid me (Request.update_channel t a n d v) = IsText t × IsText n × IsText d × IsDecimal v
IsValid me (Request.archive_channel t a v) = IsText t × IsDecimal v
IsValid me (Request.restore_channel t a v) = IsText t × IsDecimal v
IsValid me (Request.delete_channel t a v) = IsText t × IsDecimal v
IsValid me (Request.create_direct a p) = IsText p
IsValid me (Request.create_thread r a) = IsText r
IsValid me (Request.thread_summaries a rs) = IsBatch 100 rs
IsValid me (Request.follow_thread t a) = IsText t
IsValid me (Request.unfollow_thread t a) = IsText t
IsValid me (Request.add_member t m a) = IsText t × IsText m
IsValid me (Request.send_message t a r s) = IsText t × IsText r × IsText s
IsValid me (Request.create_task m a) = IsText m
IsValid me (Request.claim_task m a) = IsText m × ((a ≡ me) ⊎ IsText a)
IsValid me (Request.unclaim_task m a v) = IsText m × IsDecimal v
IsValid me (Request.update_task_status m a s v) = IsText m × IsDecimal v
IsValid me _ = Unit

dispatch_endpoint-IsValid :
    (actor_id : String) (input : Fields) (e : Endpoint)
    → Holds (IsValid actor_id) (dispatch_endpoint actor_id input e)
unfolding dispatch_endpoint
dispatch_endpoint-IsValid a input Endpoint.snapshot = tt
dispatch_endpoint-IsValid a input Endpoint.inbox_list =
    ground (arith, integer-InRange input "limit" 20 50 "50", optional_string-IsText input "cursor")
dispatch_endpoint-IsValid a input _ = ground (
  arith,
  required_string-IsText input "targetId",
  required_string-IsText input "agentId",
  required_string-IsText input "displayName",
  required_string-IsText input "description",
  required_string-IsText input "provider",
  required_string-IsText input "model",
  required_string-IsText input "presetId",
  required_string-IsText input "path",
  required_string-IsText input "name",
  required_string-IsText input "peerId",
  required_string-IsText input "rootMessageId",
  required_string-IsText input "threadTargetId",
  required_string-IsText input "memberId",
  required_string-IsText input "requestId",
  required_string-IsText input "text",
  required_string-IsText input "messageId",
  optional_string-IsText input "cursor",
  optional_string-IsText input "targetId",
  optional_string-IsText input "avatarDataUrl",
  optional_string-IsText input "expectedGeneration",
  optional_string-IsText input "actorId",
  decimal_string-IsDecimal input "afterSeq" (str "0"),
  decimal_string-IsDecimal input "throughSeq" undefined,
  decimal_string-IsDecimal input "expectedProfileVersion" undefined,
  decimal_string-IsDecimal input "expectedVersion" undefined,
  integer-InRange input "limit" 100 500 "500",
  integer-InRange input "limit" 50 100 "100",
  integer-InRange input "limit" 10 100 "100",
  string_array-IsBatch input "rootMessageIds" 100 "100",
)

-- Every call that `dispatch` makes has arguments that passed their checks: the single ids and texts
-- that the payload gives are not blank, those that may be left out included where they are given;
-- the actor of a claim is the principal or such a text; versions and sequences are in decimal,
-- limits are from 1 to their bound, and a batch has from 1 to 100 entries, none of them empty. The
-- directory and the flag of a listing, and the filter of the inbox, have no such check.
pub dispatch-IsValid :
    (actor_id endpoint : String) (payload : Value)
    → Holds (IsValid actor_id) (dispatch actor_id endpoint payload)
unfolding dispatch fields_of
dispatch-IsValid a endpoint (obj input) = elim (Option-cases (lookup endpoint endpoints)) [
  | inl e ↦ rw e tt
  | inr (found, e) ↦ rw e (dispatch_endpoint-IsValid a input found)
]
dispatch-IsValid a endpoint _ = tt
