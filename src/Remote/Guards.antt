-- ===== src/Remote/Guards.antt =====
-- src/remote.ts: the guards of the stream, `isLoopbackHostname`, `isTrustedSseRequest`, `requestCursor`
-- and the head of `serveCollabEvents`. The URL parser of the platform is a parameter.
use dsh_chaos.Common.{
  ℕ, String, Bool, true, false, not, ◌&&◌, ◌||◌, Option, none, some, List, [], ◌∷◌, all, leb,
  or_else, if◌then◌else◌, ◌==◌,
}
use dsh_chaos.Common.Texts.{is_empty, all_digits, big_int, size, concat}
use dsh_chaos.Common.Splits.{split_on}
use dsh_chaos.Common.Results.{Result, ok, throws}
use dsh_chaos.Wire.{ChangeEvent}
use dsh_chaos.Remote.Payload.{is_decimal}
use dsh_chaos.Remote.Stream.{Stream, Round, serve_from}

-- A header is not there, has one value, or is a list.
pub data Header : Type 0 where
  absent : Header
  one : String → Header
  several : List String → Header

pub record Url : Type 0 where
  pub host : String
  pub hostname : String

pub record Incoming : Type 0 where
  pub method : String
  pub host : Header
  pub sec_fetch_site : Header
  pub origin : Header
  pub last_event_id : Header
  -- `searchParams.get('cursor')` of the request's URL, whose parser may throw.
  pub query_cursor : Result (Option String)

-- `/^\d{1,3}$/.test(part) && Number(part) <= 255`.
abbrev pub is_octet : String → Bool
is_octet part =
    not (is_empty part) && leb (size part) 3 && all_digits part && leb (big_int part) 255

abbrev pub is_loopback_address : List String → Bool
is_loopback_address (a ∷ b ∷ c ∷ d ∷ []) = a == "127" && all is_octet (a ∷ b ∷ c ∷ d ∷ [])
is_loopback_address _ = false

unfoldable pub is_loopback_hostname : String → Bool
is_loopback_hostname hostname =
    hostname == "localhost" || hostname == "[::1]" || is_loopback_address (split_on b'.' hostname)

-- `=== text` on a header.
abbrev pub header_is : Header → String → Bool
header_is (one s) t = s == t
header_is absent t = false
header_is (several ss) t = false

-- What `Last-Event-ID` gives, where it is one text that is not empty.
abbrev pub header_cursor : Header → Option String
header_cursor (one s) = if is_empty s then none else some s
header_cursor absent = none
header_cursor (several ss) = none

unfoldable pub request_cursor : Incoming → Result String
request_cursor request = elim request.query_cursor [
  | throws e ↦ throws e
  | ok query ↦
      (let cursor = or_else (header_cursor request.last_event_id) (or_else query "0") in
        if is_decimal cursor
        then ok cursor
        else throws "[invalid_argument] SSE cursor must be a decimal integer")
]

-- How a request is answered: by a status and a text, or by a stream.
pub data Served : Type 0 where
  refused : (status : ℕ) (text : String) → Served
  streamed : Stream → Served

module _ (parse_url : String → Option Url) where
  -- The last test, on the origin.
  abbrev pub is_same_host : Header → Url → Bool
  is_same_host absent host = true
  is_same_host (several ss) host = false
  is_same_host (one origin) host = elim (parse_url origin) [
    | none ↦ false
    | some url ↦ url.host == host.host
  ]

  unfoldable pub is_trusted_sse_request : Incoming → Bool
  is_trusted_sse_request request = elim request.host [
    | absent ↦ false
    | several ss ↦ false
    | one host ↦ elim (parse_url (concat ("http://" ∷ host ∷ []))) [
      | none ↦ false
      | some url ↦
          is_loopback_hostname url.hostname
          && not (header_is request.sec_fetch_site "cross-site")
          && is_same_host request.origin url
    ]
  ]

  module _ {L : Type 0} (list_changes : L → String → ℕ → Result (List ChangeEvent)) where
    unfoldable pub serve_collab_events : Incoming → List (Round L) → ℕ → Served
    serve_collab_events request rounds room =
        if not (request.method == "GET")
        then refused 405 "method not allowed"
        else if not (is_trusted_sse_request request)
        then refused 403 "forbidden"
        else elim (request_cursor request) [
          | throws e ↦ refused 400 e
          | ok cursor ↦ streamed (serve_from list_changes rounds cursor room)
        ]
