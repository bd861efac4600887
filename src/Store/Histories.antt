-- ===== src/Store/Histories.antt =====
-- Every history that the store holds is in order and holds a message once.
use dsh_chaos.Common.{
  ◌+◌, ℕ, String, Bool, true, false, Option, none, some, List, [], ◌∷◌, ◌≡◌, ◌⊎◌, refl, inl, inr,
  arith, ltb, nat_eq, if◌then◌else◌, All, Bool-cases, Option-cases, ◌==◌,
}
use dsh_chaos.Common.Maps.{Map, lookup, insert}
use dsh_chaos.Wire.{Membership, Message, MessageTail, SendResult}
use dsh_chaos.Store.Merge.{MergeResult, merge_messages}
use dsh_chaos.Store.Merge.Order.{IsHistory, merge_messages-IsHistory}
use dsh_chaos.Store.State.{Store, mark_read, write_marker, initial, set, is_selected}
use dsh_chaos.Store.Activation as Activation
use dsh_chaos.Store.Activation.{known_messages, put_messages, put_tail, put_memberships, put_read}
use dsh_chaos.Store.Changes as Changes
use dsh_chaos.Store.Events.{stepping, Event, step, run}

abbrev pub AllHistories : Map (List Message) → Type 0
AllHistories m = All (λ (e : String × List Message). IsHistory e.1) m

insert-AllHistories :
    (id : String) (ms : List Message) (m : Map (List Message))
    → IsHistory ms
    → AllHistories m
    → AllHistories (insert id ms m)
unfolding insert
insert-AllHistories id ms [] h k = (h, tt)
insert-AllHistories id ms ((j, old) ∷ m) h k = elim (Bool-cases (j == id)) [
  | inl e ↦ rw e (h, k.1)
  | inr e ↦ rw e (k.0, insert-AllHistories id ms m h k.1)
]

lookup-IsHistory :
    (id : String) (m : Map (List Message)) (ms : List Message)
    → AllHistories m
    → lookup id m ≡ some ms
    → IsHistory ms
unfolding lookup
lookup-IsHistory id [] ms h e = cc
lookup-IsHistory id ((j, old) ∷ m) ms h e = elim (Bool-cases (j == id)) [
  | inl same ↦ let found : old ≡ ms = ground arith in rw found at h.0
  | inr other ↦ lookup-IsHistory id m ms h.1 (ground arith)
]

-- The histories of a store.
abbrev pub IsOrdered : Store → Type 0
IsOrdered s = AllHistories s.messages_by_channel

known_messages-IsHistory : (id : String) (s : Store) → IsOrdered s → IsHistory (known_messages id s)
known_messages-IsHistory id s h = elim (Option-cases (lookup id s.messages_by_channel)) [
  | inl e ↦ rw e (tt, tt)
  | inr (ms, e) ↦ rw e (lookup-IsHistory id s.messages_by_channel ms h e)
]

-- An operation that leaves the histories as they are, or forgets them all.
abbrev KeepsOrForgets : Store → Store → Type 0
KeepsOrForgets s t = (t.messages_by_channel ≡ s.messages_by_channel) ⊎ (t.messages_by_channel ≡ [])

keeps-IsOrdered : (s t : Store) → KeepsOrForgets s t → IsOrdered s → IsOrdered t
keeps-IsOrdered s t (inl e) h = rw e h
keeps-IsOrdered s t (inr e) h = rw e tt

activate_channel-keeps :
    (id : String) (force : Bool) (s : Store)
    → (Activation.activate_channel id force s).0.messages_by_channel ≡ s.messages_by_channel
unfolding Activation.activate_channel
activate_channel-keeps id force s = ground arith

put_messages-IsOrdered :
    (id : String) (merged : MergeResult) (s : Store)
    → IsHistory merged.messages
    → IsOrdered s
    → IsOrdered (put_messages id merged s)
unfolding put_messages
put_messages-IsOrdered id merged s h k =
    let inserted = insert-AllHistories id merged.messages s.messages_by_channel h k in
    elim (Bool-cases (ltb 0 merged.appended)) [ inl e ↦ rw e inserted | inr e ↦ rw e inserted ]

put_tail-IsOrdered :
    (id : String) (tail : Option MessageTail) (s : Store)
    → IsOrdered s
    → IsOrdered (put_tail id tail s)
unfolding put_tail
put_tail-IsOrdered id none s h = h
put_tail-IsOrdered id (some tail) s h =
    insert-AllHistories id _ s.messages_by_channel
      (merge_messages-IsHistory _ tail.messages (known_messages-IsHistory id s h)) h

put_read-keeps :
    (id : String) (tail : Option MessageTail) (s : Store)
    → (put_read id tail s).messages_by_channel ≡ s.messages_by_channel
unfolding put_read write_marker
put_read-keeps id none s = refl
put_read-keeps id (some tail) s = ground arith

put_memberships-keeps :
    (id : String) (ms : Option (List Membership)) (s : Store)
    → (put_memberships id ms s).messages_by_channel ≡ s.messages_by_channel
unfolding put_memberships
put_memberships-keeps id none s = refl
put_memberships-keeps id (some ms) s = refl

mark_read-keeps :
    (id : String) (s : Store) → (mark_read id s).messages_by_channel ≡ s.messages_by_channel
unfolding mark_read write_marker
mark_read-keeps id s = ground arith

count_replies-keeps :
    (id : String) (merged : MergeResult) (s : Store)
    → (Changes.count_replies id merged s).messages_by_channel ≡ s.messages_by_channel
unfolding Changes.count_replies Changes.put_summary
count_replies-keeps id merged s = ground arith

activation_loaded-IsOrdered :
    (g : ℕ) (id : String) (tail : Option MessageTail) (ms : Option (List Membership)) (s : Store)
    → IsOrdered s
    → IsOrdered (Activation.activation_loaded g id tail ms s)
unfolding Activation.activation_loaded
activation_loaded-IsOrdered g id tail ms s h = elim (Bool-cases (nat_eq s.load_generation g)) [
  | inr e ↦ rw e h
  | inl e ↦
      rw
        (
          e,
          put_read-keeps id tail (put_memberships id ms (put_tail id tail s)),
          put_memberships-keeps id ms (put_tail id tail s),
        )
        (put_tail-IsOrdered id tail s h)
]

older_loaded-IsOrdered :
    (g : ℕ) (id cursor : String) (page : List Message) (s : Store)
    → IsOrdered s
    → IsOrdered (Activation.older_loaded g id cursor page s)
unfolding Activation.older_loaded
older_loaded-IsOrdered g id cursor page s h = elim (Bool-cases (nat_eq s.load_generation g)) [
  | inr e ↦ rw e h
  | inl e ↦ rw e (
      insert-AllHistories id _ s.messages_by_channel
        (merge_messages-IsHistory _ page (known_messages-IsHistory id s h)) h)
]

mark_selected-keeps :
    (id : String) (b : Bool) (s : Store)
    → (if b then mark_read id s else s).messages_by_channel ≡ s.messages_by_channel
mark_selected-keeps id true s = mark_read-keeps id s
mark_selected-keeps id false s = refl

message_sent-IsOrdered :
    (id : String) (r : SendResult) (s : Store)
    → IsOrdered s
    → IsOrdered (Activation.message_sent id r s)
unfolding Activation.message_sent
message_sent-IsOrdered id r s h = elim (Option-cases (lookup id s.messages_by_channel)) [
  | inl e ↦ elim (Bool-cases r.replayed) [
    | inl q ↦ rw (e, q, mark_selected-keeps id (is_selected id s.active_channel_id) s) h
    | inr q ↦
        let counted : Store =
          set
            (λ p. record p {
              total_by_channel = insert id (Activation.known_total id s + 1) p.total_by_channel;
            })
            s in
        rw (e, q, mark_selected-keeps id (is_selected id s.active_channel_id) counted) h
  ]
  | inr (existing, e) ↦
      let merged = merge_messages existing (r.message ∷ []) in
      let put = put_messages id merged s in
      rw (e, mark_selected-keeps id (is_selected id s.active_channel_id) put)
        (put_messages-IsOrdered id merged s
          (merge_messages-IsHistory existing (r.message ∷ [])
            (lookup-IsHistory id s.messages_by_channel existing h e))
          h)
]

message_page_loaded-IsOrdered :
    (g : ℕ) (id : String) (page : List Message) (s : Store)
    → IsOrdered s
    → IsOrdered (Changes.message_page_loaded g id page s)
unfolding Changes.message_page_loaded
message_page_loaded-IsOrdered g id page s h = elim (Bool-cases (nat_eq s.load_generation g)) [
  | inr e ↦ rw e h
  | inl e ↦
      let merged = merge_messages (known_messages id s) page in
      let put = put_messages id merged s in
      rw
        (
          e,
          mark_read-keeps id (Changes.count_replies id merged put),
          count_replies-keeps id merged put,
        )
        (put_messages-IsOrdered id merged s
          (merge_messages-IsHistory (known_messages id s) page (known_messages-IsHistory id s h)) h)
]

step-IsOrdered : (e : Event) (s : Store) → IsOrdered s → IsOrdered (step e s).0
unfolding stepping
step-IsOrdered (Event.activation_loaded g id tail ms) s h =
    activation_loaded-IsOrdered g id tail ms s h
step-IsOrdered (Event.older_loaded g id cursor page) s h =
    older_loaded-IsOrdered g id cursor page s h
step-IsOrdered (Event.message_sent id r) s h = message_sent-IsOrdered id r s h
step-IsOrdered (Event.message_page_loaded g id page) s h =
    message_page_loaded-IsOrdered g id page s h
step-IsOrdered e s h = keeps-IsOrdered s (step e s).0 (ground arith) h

run-IsOrdered : (es : List Event) (s : Store) → IsOrdered s → IsOrdered (run es s)
unfolding run
run-IsOrdered [] s h = h
run-IsOrdered (e ∷ es) s h = run-IsOrdered es (step e s).0 (step-IsOrdered e s h)

-- After any sequence of events from the store that the constructor makes, whatever the answers of
-- the host contain and in whatever order they come, each history that the store holds is sorted by
-- the sequence of its messages and holds each message id once.
pub histories-IsOrdered :
    (storage : Option (Map ℕ)) (es : List Event) → IsOrdered (run es (initial storage))
histories-IsOrdered storage es = run-IsOrdered es (initial storage) tt
