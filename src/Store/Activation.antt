-- ===== src/Store/Activation.antt =====
-- src/client/data/store.ts: the history of the targets: `setActiveChannel`, `activateChannel`,
-- `loadOlder` and `sendMessage`. An operation that awaits is two or three functions: what it does
-- up to the calls that it sends, and what it does with the answers or with a failure, given the
-- load generation that it read at the start.
use dsh_chaos.Common.{
  ℕ, ◌+◌, String, Bool, true, false, not, ◌&&◌, ◌||◌, Option, none, some, List, [], ◌∷◌, ◌++◌, map,
  leb, ltb, nat_eq, is_some, if◌then◌else◌, or_else, length,
}
use dsh_chaos.Common.Maps.{lookup, insert}
use dsh_chaos.Wire.{Membership, Message, MessageTail, SendResult}
use dsh_chaos.Store.Merge.{MergeResult, merge_messages, max_seq_of}
use dsh_chaos.Store.State.{
  Store, Call, set, initial_tail, head_chunk, decimal_to_number, write_marker, mark_read,
  contains_id, is_selected,
}

-- `messagesByChannel[targetId] ?? []`.
abbrev pub known_messages : String → Store → List Message
known_messages target_id s = or_else (lookup target_id s.messages_by_channel) []

abbrev pub known_total : String → Store → ℕ
known_total target_id s = or_else (lookup target_id s.total_by_channel) 0

-- What `activateChannel` asks for: `needHistory` and `needMembers`.
unfoldable pub needs_history : String → Bool → Store → Bool
needs_history target_id force s = force || not (is_some (lookup target_id s.messages_by_channel))

unfoldable pub needs_members : String → Bool → Store → Bool
needs_members target_id force s =
    not (contains_id target_id s.threads)
    && (force || not (is_some (lookup target_id s.memberships_by_channel)))

unfoldable pub activate_channel : String → Bool → Store → Store × List Call
activate_channel target_id force s = (
  if needs_history target_id force s
      then set (λ p. record p { history_loading = true; history_error = none }) s
      else s,
  (if needs_history target_id force s then Call.history_tail target_id initial_tail ∷ [] else [])
      ++ (if needs_members target_id force s then Call.target_memberships target_id ∷ [] else []),
)

-- The answer of the tail read, where it was asked for.
unfoldable pub put_tail : String → Option MessageTail → Store → Store
put_tail target_id none s = s
put_tail target_id (some tail) s =
    let merged = merge_messages (known_messages target_id s) tail.messages in
    let total = decimal_to_number tail.count in
    set
      (λ p. record p {
        messages_by_channel = insert target_id merged.messages p.messages_by_channel;
        total_by_channel = insert target_id total p.total_by_channel;
        head_done_by_channel =
            insert target_id (leb total (length merged.messages)) p.head_done_by_channel;
        history_loading =
            if is_selected target_id p.active_channel_id then false else p.history_loading;
      })
      s

unfoldable pub put_memberships : String → Option (List Membership) → Store → Store
put_memberships target_id none s = s
put_memberships target_id (some ms) s =
    set
      (λ p. record p {
        memberships_by_channel = insert target_id ms p.memberships_by_channel;
        members_by_channel = insert target_id (map (λ m. m.actor) ms) p.members_by_channel;
      })
      s

-- The marker of the selected target moves to the total of the tail.
unfoldable pub put_read : String → Option MessageTail → Store → Store
put_read target_id none s = s
put_read target_id (some tail) s =
    if is_selected target_id s.active_channel_id
    then set (λ p. record p { unread_by_channel = insert target_id 0 p.unread_by_channel })
        (write_marker target_id (decimal_to_number tail.count) s)
    else s

unfoldable pub activation_loaded :
    ℕ → String → Option MessageTail → Option (List Membership) → Store → Store
activation_loaded generation target_id tail memberships s =
    if nat_eq s.load_generation generation
    then put_read target_id tail (put_memberships target_id memberships (put_tail target_id tail s))
    else s

unfoldable pub activation_failed : ℕ → String → String → Store → Store
activation_failed generation target_id reason s =
    if nat_eq s.load_generation generation && is_selected target_id s.active_channel_id
    then set (λ p. record p { history_loading = false; history_error = some reason }) s
    else s

unfoldable pub set_active_channel : String → Store → Store × List Call
set_active_channel target_id s =
    let selected : Store = record s {
      snapshot = record s.snapshot {
        active_channel_id = some target_id;
        removed_notice = false;
        history_loading = not (is_some (lookup target_id s.messages_by_channel));
        history_error = none;
      };
      removed_timer = none;
    } in
    if is_selected target_id s.active_channel_id && not s.removed_notice
    then (s, [])
    else activate_channel target_id false selected

unfoldable pub retry_active_history : Store → Store × List Call
retry_active_history s = elim s.active_channel_id [
  | none ↦ (s, [])
  | some active ↦ activate_channel active true s
]

-- `loadOlder`: the page behind the head cursor, unless one is on its way or the history is whole.
unfoldable pub load_older : Store → Store × List Call
load_older s = elim s.active_channel_id [
  | none ↦ (s, [])
  | some active ↦
      if s.older_loading || or_else (lookup active s.head_done_by_channel) false then (s, []) else (
        set (λ p. record p { older_loading = true }) s,
        Call.history active (or_else (lookup active s.head_cursor_by_channel) "0") head_chunk ∷ [],
      )
]

abbrev pub is_nil {ℓ} : {A : Type ℓ} → List A → Bool
is_nil [] = true
is_nil (x ∷ xs) = false

-- `headSeq ?? cursor`.
abbrev pub next_cursor : List Message → String → String
next_cursor page cursor = elim (max_seq_of page) [ none ↦ cursor | some m ↦ m.seq ]

unfoldable pub older_loaded : ℕ → String → String → List Message → Store → Store
older_loaded generation target_id cursor page s =
    let merged = merge_messages (known_messages target_id s) page in
    if nat_eq s.load_generation generation
    then set
        (λ p. record p {
          messages_by_channel = insert target_id merged.messages p.messages_by_channel;
          head_cursor_by_channel =
              insert target_id (next_cursor page cursor) p.head_cursor_by_channel;
          head_done_by_channel =
              insert target_id
                (is_nil page || leb (known_total target_id s) (length merged.messages))
                p.head_done_by_channel;
          older_loading = false;
        })
        s
    else s

unfoldable pub older_failed : ℕ → Store → Store
older_failed generation s =
    if nat_eq s.load_generation generation
    then set (λ p. record p { older_loading = false }) s
    else s

-- Messages that came in at the end of a known history: the total grows by what was appended.
unfoldable pub put_messages : String → MergeResult → Store → Store
put_messages target_id merged s =
    let total = known_total target_id s + merged.appended in
    let listed : Store =
      set
        (λ p. record p {
          messages_by_channel = insert target_id merged.messages p.messages_by_channel;
        })
        s in
    if ltb 0 merged.appended
    then set
        (λ p. record p {
          total_by_channel = insert target_id total p.total_by_channel;
          head_done_by_channel =
              insert target_id (leb total (length merged.messages)) p.head_done_by_channel;
        })
        listed
    else listed

-- `sendMessage`, once the host has committed: the generation is read after the answer, so there
-- is no fence here.
unfoldable pub message_sent : String → SendResult → Store → Store
message_sent target_id result s =
    let counted : Store = elim (lookup target_id s.messages_by_channel) [
      | some existing ↦ put_messages target_id (merge_messages existing (result.message ∷ [])) s
      | none ↦
          if result.replayed
          then s
          else set
              (λ p. record p {
                total_by_channel =
                    insert target_id (known_total target_id s + 1) p.total_by_channel;
              })
              s
    ] in
    if is_selected target_id s.active_channel_id then mark_read target_id counted else counted
