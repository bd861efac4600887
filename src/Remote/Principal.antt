-- ===== src/Remote/Principal.antt =====
-- Who a call acts for. The handler's principal is fixed; the payload chooses one actor only.
use dsh_chaos.Common.{String, ◌≡◌, ◌⊎◌, inl, inr, refl, arith, Option-cases, Option, none, some}
use dsh_chaos.Common.Maps.{lookup}
use dsh_chaos.Common.Results.{Holds}
use dsh_chaos.Remote.Payload.{str, obj, Fields, get, fields_of, optional_string}
use dsh_chaos.Remote.Request.{Request, Endpoint, endpoints}
use dsh_chaos.Remote.Dispatch.{dispatch, dispatch_endpoint}

-- The calls that name an actor name the principal; a claim may name the payload's `actorId`.
abbrev pub ActsFor : String → Fields → Request → Type 0
ActsFor a input (Request.snapshot b) = b ≡ a
ActsFor a input (Request.list_actors b) = b ≡ a
ActsFor a input (Request.inbox_done_all b) = b ≡ a
ActsFor a input (Request.agent_profiles b) = b ≡ a
ActsFor a input (Request.list_target_members b t) = b ≡ a
ActsFor a input (Request.list_target_memberships b t) = b ≡ a
ActsFor a input (Request.list_changes b seq n) = b ≡ a
ActsFor a input (Request.read_messages b t seq n) = b ≡ a
ActsFor a input (Request.read_messages_tail b t n) = b ≡ a
ActsFor a input (Request.inbox_list b n cursor f) = b ≡ a
ActsFor a input (Request.inbox_done b t seq) = b ≡ a
ActsFor a input (Request.list_tasks b t) = b ≡ a
ActsFor a input (Request.agent_profile b g) = b ≡ a
ActsFor a input (Request.agent_memberships b g) = b ≡ a
ActsFor a input (Request.update_agent_profile b g n d v) = b ≡ a
ActsFor a input (Request.update_agent_avatar b g u v) = b ≡ a
ActsFor a input (Request.replace_agent_runtime b g p m q e) = b ≡ a
ActsFor a input (Request.agent_workspace b g d h) = b ≡ a
ActsFor a input (Request.agent_workspace_file b g p) = b ≡ a
ActsFor a input (Request.create_channel n d b) = b ≡ a
ActsFor a input (Request.update_channel t b n d v) = b ≡ a
ActsFor a input (Request.archive_channel t b v) = b ≡ a
ActsFor a input (Request.restore_channel t b v) = b ≡ a
ActsFor a input (Request.delete_channel t b v) = b ≡ a
ActsFor a input (Request.create_direct b p) = b ≡ a
ActsFor a input (Request.create_thread r b) = b ≡ a
ActsFor a input (Request.thread_summaries b rs) = b ≡ a
ActsFor a input (Request.follow_thread t b) = b ≡ a
ActsFor a input (Request.unfollow_thread t b) = b ≡ a
ActsFor a input (Request.add_member t m b) = b ≡ a
ActsFor a input (Request.send_message t b r s) = b ≡ a
ActsFor a input (Request.create_task m b) = b ≡ a
ActsFor a input (Request.claim_task m b) = (b ≡ a) ⊎ (get "actorId" input ≡ str b)
ActsFor a input (Request.unclaim_task m b v) = b ≡ a
ActsFor a input (Request.update_task_status m b s v) = b ≡ a
ActsFor a input _ = Unit

abbrev IsFieldWhenGiven : Fields → String → Option String → Type 0
IsFieldWhenGiven input name none = Unit
IsFieldWhenGiven input name (some s) = get name input ≡ str s

optional_string-IsField :
    (input : Fields) (name : String)
    → Holds (IsFieldWhenGiven input name) (optional_string input name)
unfolding optional_string
optional_string-IsField input name = ground arith

dispatch_endpoint-ActsFor :
    (actor_id : String) (input : Fields) (e : Endpoint)
    → Holds (ActsFor actor_id input) (dispatch_endpoint actor_id input e)
unfolding dispatch_endpoint
dispatch_endpoint-ActsFor a input Endpoint.snapshot = refl
dispatch_endpoint-ActsFor a input Endpoint.task_claim =
    ground (arith, optional_string-IsField input "actorId")
dispatch_endpoint-ActsFor a input _ = ground arith

-- Every call that names an actor names the principal that the handler was made for, whatever the
-- payload holds, except that `task.claim` takes the `actorId` of the payload where one is given.
pub dispatch-ActsFor :
    (actor_id endpoint : String) (input : Fields)
    → Holds (ActsFor actor_id input) (dispatch actor_id endpoint (obj input))
unfolding dispatch fields_of
dispatch-ActsFor a endpoint input = elim (Option-cases (lookup endpoint endpoints)) [
  | inl e ↦ rw e tt
  | inr (found, e) ↦ rw e (dispatch_endpoint-ActsFor a input found)
]
