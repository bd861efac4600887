-- ===== src/Client/Feed.antt =====
-- src/client/data/events.ts: `CollabEvents`, with the sockets that the browser keeps open. A frame or a
-- state change of a socket is an event with the socket's number; `parse` is `JSON.parse` of a frame.
use dsh_chaos.Common.{
  ℕ, ◌+◌, String, Bool, not, Option, none, some, List, [], ◌∷◌, ◌++◌, filter, any, nat_eq,
  if◌then◌else◌,
}

-- A socket that `new EventSource` made, with the cursor in its URL.
pub record Socket : Type 0 where
  pub number : ℕ
  pub cursor : String

-- What the handlers were told.
pub data Notice (Change : Type 0) : Type 0 where
  changed : Change → Notice Change
  resync_required live down : Notice Change

pub record Feed (Change : Type 0) : Type 0 where
  pub source : Option Socket
  -- The sockets that were not closed, and how many were made.
  pub sockets : List Socket
  pub made : ℕ
  pub told : List (Notice Change)

abbrev pub no_feed : {Change : Type 0} → Feed Change
no_feed = record { source = none; sockets = []; made = 0; told = [] }

-- `source?.close()`, and the source is forgotten.
unfoldable pub disconnect : {Change : Type 0} → Feed Change → Feed Change
disconnect f = record f {
  source = none;
  sockets = elim f.source [
    | none ↦ f.sockets
    | some s ↦ filter (λ x. not (nat_eq x.number s.number)) f.sockets
  ];
}

abbrev open_socket : {Change : Type 0} → String → Feed Change → Feed Change
open_socket cursor f =
    let socket : Socket = record { number = f.made; cursor = cursor } in
    record f { source = some socket; sockets = socket ∷ f.sockets; made = f.made + 1 }

unfoldable pub connect : {Change : Type 0} → String → Feed Change → Feed Change
unfolding disconnect
connect cursor f = open_socket cursor (disconnect f)

abbrev pub tell : {Change : Type 0} → Notice Change → Feed Change → Feed Change
tell n f = record f { told = f.told ++ n ∷ [] }

pub data Happening : Type 0 where
  connects : (cursor : String) → Happening
  disconnects : Happening
  opened failed resync : ℕ → Happening
  frame : ℕ → String → Happening

abbrev is_open : {Change : Type 0} → ℕ → Feed Change → Bool
is_open n f = any (λ s. nat_eq s.number n) f.sockets

-- A frame that does not parse is ignored.
abbrev pub receive : {Change : Type 0} → Option Change → Feed Change → Feed Change
receive none f = f
receive (some c) f = tell (changed c) f

module _ {Change : Type 0} (parse : String → Option Change) where
  -- A closed socket tells nothing.
  unfoldable pub feed_step : Happening → Feed Change → Feed Change
  unfolding connect disconnect
  feed_step (connects cursor) f = connect cursor f
  feed_step disconnects f = disconnect f
  feed_step (opened n) f = if is_open n f then tell live f else f
  feed_step (failed n) f = if is_open n f then tell down f else f
  feed_step (frame n text) f = if is_open n f then receive (parse text) f else f
  feed_step (resync n) f = if is_open n f then tell resync_required (disconnect f) else f

  unfoldable pub feed_run : List Happening → Feed Change → Feed Change
  unfolding feed_step
  feed_run [] f = f
  feed_run (h ∷ hs) f = feed_run hs (feed_step h f)
