-- ===== src/Remote/Tests.antt =====
-- Calls, errors and streams, and the theorems on them at concrete payloads and ledgers.
use dsh_chaos.Common.{
  ℕ, String, true, none, some, List, [], ◌∷◌, ◌++◌, ◌≡◌, ◌⊎◌, refl, inr, take, arith, if◌then◌else◌,
}
use dsh_chaos.Common.Texts.{big_int, trim, trim_start}
use dsh_chaos.Common.Results.{Result, ok, Holds}
use dsh_chaos.Common.{Option, ◌==◌}
use dsh_chaos.Common.Texts.{all_digits, big_int_from}
use dsh_chaos.Common.Splits.{split_on}
use dsh_chaos.Remote.Payload.{is_decimal}
use dsh_chaos.Remote.Guards.{
  Url, Incoming, one, absent, is_trusted_sse_request, is_loopback_hostname, request_cursor, refused,
  serve_collab_events,
}
use dsh_chaos.Remote.Admission.{IsLocal, serve_collab_events-IsLocal}
use dsh_chaos.Wire.{ChangeEvent, ChangeKind}
use dsh_chaos.Remote.Payload.{
  str, obj, Fields, is_blank, fields_of, required_string, optional_string, get,
}
use dsh_chaos.Common.Maps.{lookup}
use dsh_chaos.Remote.Request.{Request}
use dsh_chaos.Remote.Dispatch.{dispatch, dispatch_endpoint}
use dsh_chaos.Remote.Validity.{IsValid, dispatch-IsValid}
use dsh_chaos.Remote.Principal.{ActsFor, dispatch-ActsFor}
use dsh_chaos.Remote.Errors.{error_result, match_tag, tag_body, is_tag_char}
use dsh_chaos.Remote.Tags.{IsTagged, error_result-reads}
use dsh_chaos.Remote.Stream.{Round, changed, timed_out, serve_from, changes}
use dsh_chaos.Remote.Stream.Ledger.{after, IsLedger}
use dsh_chaos.Remote.Stream.Replay.{serve_from-replays_prefix}

abbrev claim : Fields
claim = Fields.field "messageId" (str "m") (Fields.field "actorId" (str "agent-1") Fields.end)

dispatch-IsValid_example : Holds (IsValid "me") (dispatch "me" "task.claim" (obj claim))
dispatch-IsValid_example = dispatch-IsValid "me" "task.claim" (obj claim)

dispatch-ActsFor_example : Holds (ActsFor "me" claim) (dispatch "me" "task.claim" (obj claim))
dispatch-ActsFor_example = dispatch-ActsFor "me" "task.claim" claim

abbrev change_at : String → ChangeEvent
change_at seq = record {
  seq = seq;
  kind = ChangeKind.task_created;
  target_id = none;
  entity_id = "e";
  created_at_ms = 0;
}

-- The read that the core documents, which a cursor "0" reads from the start.
abbrev list_changes : List ChangeEvent → String → ℕ → Result (List ChangeEvent)
list_changes l cursor limit = ok (take limit (after (big_int cursor) l))

abbrev ledger : List ChangeEvent
ledger = change_at "1" ∷ change_at "2" ∷ change_at "5" ∷ []

abbrev rounds : List (Round (List ChangeEvent))
rounds =
    record { ledger = change_at "1" ∷ change_at "2" ∷ []; reason = changed }
    ∷ record { ledger = change_at "1" ∷ change_at "2" ∷ []; reason = timed_out }
    ∷ record { ledger = ledger; reason = changed }
    ∷ []

ledger-IsLedger : IsLedger ledger
unfolding big_int
ledger-IsLedger = (omega arith, (omega arith, tt))

serve_from-replays_prefix_example :
    (rest : List ChangeEvent) × (changes (serve_from list_changes rounds "1" 9).sent ++ rest
      ≡ after (big_int "1") ledger)
serve_from-replays_prefix_example =
    serve_from-replays_prefix list_changes (λ l cursor limit. inr refl) ledger ledger-IsLedger
      rounds ((change_at "5" ∷ [], refl), ((change_at "5" ∷ [], refl), (([], refl), tt))) "1" 9

abbrev denied : String
denied = "[not_found]  no such Task"

error_result-reads_example :
    ((t : String) × (rest : String) × IsTagged t rest denied
      × (error_result denied ≡ record { code = t; message = trim_start rest }))
    ⊎ ((¬ ((t : String) × (rest : String) × IsTagged t rest denied))
        × (error_result denied ≡ record { code = "internal"; message = denied }))
error_result-reads_example = error_result-reads denied

reads_denied : error_result denied ≡ record { code = "not_found"; message = "no such Task" }
unfolding error_result match_tag tag_body is_tag_char trim_start
reads_denied = refl

-- The actor of a claim is the payload's.
claims_for_another : dispatch "me" "task.claim" (obj claim) ≡ ok (Request.claim_task "m" "agent-1")
unfolding dispatch fields_of lookup dispatch_endpoint required_string optional_string get is_blank
    trim
claims_for_another = refl

-- A parser that knows the two addresses of the panel.
abbrev parse_url : String → Option Url
parse_url text =
    if text == "http://127.0.0.1:7000"
    then some (record { host = "127.0.0.1:7000"; hostname = "127.0.0.1" })
    else none

abbrev visit : Incoming
visit = record {
  method = "GET";
  host = one "127.0.0.1:7000";
  sec_fetch_site = one "same-origin";
  origin = one "http://127.0.0.1:7000";
  last_event_id = absent;
  query_cursor = ok none;
}

serve_collab_events-IsLocal_example :
    (visit.method ≡ "GET")
    × IsLocal parse_url visit
    × ((cursor : String) × (is_decimal cursor ≡ true)
        × (serve_from list_changes rounds "0" 20 ≡ serve_from list_changes rounds cursor 20))
unfolding serve_collab_events is_trusted_sse_request is_loopback_hostname split_on request_cursor
    is_decimal all_digits big_int big_int_from
serve_collab_events-IsLocal_example =
    serve_collab_events-IsLocal parse_url list_changes visit rounds 20
      (serve_from list_changes rounds "0" 20) refl

abbrev rebound : Incoming
rebound = record visit { host = one "evil.example" }

refuses_rebound :
    serve_collab_events parse_url list_changes rebound rounds 20 ≡ refused 403 "forbidden"
unfolding serve_collab_events is_trusted_sse_request
refuses_rebound = refl
