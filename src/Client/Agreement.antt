-- ===== src/Client/Agreement.antt =====
-- The browser and the host agree: what a method posts is read back as the call that it stands for.
use dsh_chaos.Common.{
  ℕ, String, Bool, true, false, ◌&&◌, Option, none, some, List, [], ◌∷◌, ◌≡◌, refl, arith, leb,
  length, if◌then◌else◌, Bool-cases, inl, inr, ◌⊎◌,
}
use dsh_chaos.Common.Maps.{lookup}
use dsh_chaos.Common.Texts.{trim}
use dsh_chaos.Common.Results.{Result, ok, throws}
use dsh_chaos.Wire.{todo, in_progress, in_review, done}
use dsh_chaos.Remote.Payload.{
  obj, arr, items, Fields, get, fields_of, required_string, optional_string, path_string,
  boolean_value, decimal_string, integer, string_array, entries, task_status, is_blank,
}
use dsh_chaos.Remote.Request.{Request, all_items, unread_items}
use dsh_chaos.Remote.Dispatch.{dispatch, dispatch_endpoint, inbox_filter}
use dsh_chaos.Remote.Errors.{error_result}
use dsh_chaos.Remote.Handler.{handle, returns_null}
use dsh_chaos.Client.Calls.{Method, endpoint_of, payload_of, text_items, unwrap, post}
use dsh_chaos.Client.Meaning.{request_of, is_accepted, are_ids}

entries-text_items :
    (key : String) (ss : List String)
    → are_ids ss ≡ true
    → entries key (items (text_items ss)) ≡ ok ss
unfolding entries
entries-text_items key [] h = refl
entries-text_items key (s ∷ ss) h = ground (arith, entries-text_items key ss)

length-text_items : (ss : List String) → length (items (text_items ss)) ≡ length ss
length-text_items [] = refl
length-text_items (s ∷ ss) = ground (arith, length-text_items ss)

string_array-text_items :
    (fs : Fields) (key maximum_text : String) (maximum : ℕ) (ss : List String)
    → get key fs ≡ arr (text_items ss)
    → leb 1 (length ss) ≡ true
    → leb (length ss) maximum ≡ true
    → are_ids ss ≡ true
    → string_array fs key maximum maximum_text ≡ ok ss
unfolding string_array
string_array-text_items fs key maximum_text maximum ss found some_id few ids =
    ground (arith, entries-text_items key ss ids, length-text_items ss)

filter_words : (is_blank "all" ≡ false) × (is_blank "unread" ≡ false)
unfolding is_blank trim
filter_words = (refl, refl)

dispatch-payload_of :
    (a : String) (m : Method)
    → is_accepted m ≡ true
    → dispatch a (endpoint_of m) (obj (payload_of m)) ≡ ok (request_of a m)
unfolding dispatch fields_of lookup dispatch_endpoint get required_string optional_string
    path_string boolean_value decimal_string integer task_status inbox_filter endpoint_of payload_of
    request_of is_accepted
dispatch-payload_of a (Method.thread_summaries rs) h = ground (
  arith,
  string_array-text_items (payload_of (Method.thread_summaries rs)) "rootMessageIds" "100" 100 rs
      refl,
)
dispatch-payload_of a (Method.inbox_list n cursor none) h = ground arith
dispatch-payload_of a (Method.inbox_list n cursor (some all_items)) h = ground (arith, filter_words)
dispatch-payload_of a (Method.inbox_list n cursor (some unread_items)) h =
    ground (arith, filter_words)
dispatch-payload_of a (Method.task_update_status m todo v) h = ground arith
dispatch-payload_of a (Method.task_update_status m in_progress v) h = ground arith
dispatch-payload_of a (Method.task_update_status m in_review v) h = ground arith
dispatch-payload_of a (Method.task_update_status m done v) h = ground arith
dispatch-payload_of a m h = ground arith

abbrev pub is_refused {ℓ} : {A : Type ℓ} → Result A → Bool
is_refused (ok a) = false
is_refused (throws e) = true

entries-refused :
    (key : String) (ss : List String)
    → are_ids ss ≡ false
    → is_refused (entries key (items (text_items ss))) ≡ true
unfolding entries
entries-refused key [] h = cc
entries-refused key (s ∷ ss) h = ground (arith, entries-refused key ss)

string_array-refused :
    (fs : Fields) (key maximum_text : String) (maximum : ℕ) (ss : List String)
    → get key fs ≡ arr (text_items ss)
    → leb 1 (length ss) && leb (length ss) maximum && are_ids ss ≡ false
    → is_refused (string_array fs key maximum maximum_text) ≡ true
unfolding string_array
string_array-refused fs key maximum_text maximum ss found bad =
    ground (arith, entries-refused key ss, length-text_items ss)

dispatch-refused :
    (a : String) (m : Method)
    → is_accepted m ≡ false
    → is_refused (dispatch a (endpoint_of m) (obj (payload_of m))) ≡ true
unfolding dispatch fields_of lookup dispatch_endpoint get required_string optional_string
    path_string boolean_value decimal_string integer task_status inbox_filter endpoint_of payload_of
    is_accepted
dispatch-refused a (Method.thread_summaries rs) h = ground (
  arith,
  string_array-refused (payload_of (Method.thread_summaries rs)) "rootMessageIds" "100" 100 rs refl,
)
dispatch-refused a (Method.inbox_list n cursor none) h = ground arith
dispatch-refused a (Method.inbox_list n cursor (some all_items)) h = ground (arith, filter_words)
dispatch-refused a (Method.inbox_list n cursor (some unread_items)) h = ground (arith, filter_words)
dispatch-refused a (Method.task_update_status m todo v) h = ground arith
dispatch-refused a (Method.task_update_status m in_progress v) h = ground arith
dispatch-refused a (Method.task_update_status m in_review v) h = ground arith
dispatch-refused a (Method.task_update_status m done v) h = ground arith
dispatch-refused a m h = ground arith

pub dispatch-post :
    (a : String) (m : Method)
    → let read = dispatch a (endpoint_of m) (obj (payload_of m)) in
      ((is_accepted m ≡ true) × (read ≡ ok (request_of a m)))
      ⊎ ((is_accepted m ≡ false) × (is_refused read ≡ true))
dispatch-post a m = elim (Bool-cases (is_accepted m)) [
  | inl h ↦ inl (h, dispatch-payload_of a m h)
  | inr h ↦ inr (h, dispatch-refused a m h)
]

-- What the browser is told of how a call of the host's API ended.
abbrev pub told : {R : Type 0} → Request → Result R → Result (Option R)
told req (ok r) = ok (if returns_null req then none else some r)
told req (throws e) = throws (error_result e).message

-- From the browser to the host's API and back: a method whose arguments the host accepts performs
-- exactly the one call that it stands for, and returns what that call returned, no value for the
-- calls that return none, or fails with the message of its error without the tag; one whose
-- arguments are refused fails and performs no call.
pub post-performs :
    {R S : Type 0} (call : Request → S → Result R × S) (a : String) (m : Method) (s : S)
    → let done = call (request_of a m) s in
      ((is_accepted m ≡ true) × (post call a m s ≡ (told (request_of a m) done.0, done.1)))
      ⊎ ((is_accepted m ≡ false)
          × (is_refused (post call a m s).0 ≡ true)
          × ((post call a m s).1 ≡ s))
unfolding post handle unwrap
post-performs call a m s = elim (dispatch-post a m) [
  | inl (h, e) ↦ inl (h, ground arith)
  | inr (h, e) ↦ inr (h, ground arith, ground arith)
]
