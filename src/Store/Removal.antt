-- ===== src/Store/Removal.antt =====
-- A deleted Channel leaves the store, and what a page of messages does to an unread count.
use dsh_chaos.Common.{
  String, Bool, true, false, not, Option, none, some, List, [], ◌∷◌, ◌≡◌, ◌∙◌, refl, inl, inr,
  arith, nat_eq, Bool-cases, Option-cases, find, filter, any, ◌==◌, eq_iff,
}
use dsh_chaos.Common.Maps.{lookup, lookup-insert_self}
use dsh_chaos.Wire.{Target, Message}
use dsh_chaos.Store.Merge.{MergeResult, merge_messages}
use dsh_chaos.Store.State.{
  Store, contains_id, has_id, is_active, is_selected, mark_read, write_marker,
}
use dsh_chaos.Store.Activation.{activate_channel, known_messages, put_messages}
use dsh_chaos.Store.Channels.{channel_deleted, is_under}
use dsh_chaos.Store.Changes.{message_page_loaded, count_replies, put_summary}

filter-gone :
    (id : String) (ts : List Target) → contains_id id (filter (λ c. not (has_id id c)) ts) ≡ false
filter-gone id [] = refl
filter-gone id (t ∷ ts) = elim (Bool-cases (t.id == id)) [
  | inl e ↦ rw e (filter-gone id ts)
  | inr e ↦ rw e (rw e (filter-gone id ts))
]

filter-orphans :
    (id : String) (ts : List Target)
    → any (is_under id) (filter (λ t. not (is_under id t)) ts) ≡ false
filter-orphans id [] = refl
filter-orphans id (t ∷ ts) = ground (arith, filter-orphans id ts)

find-listed :
    (p : Target → Bool) (ts : List Target) (t : Target)
    → find p ts ≡ some t
    → contains_id t.id ts ≡ true
find-listed p [] t h = ground arith
find-listed p (x ∷ xs) t h = ground (arith, eq_iff x.id x.id, find-listed p xs t)

activate_channel-lists :
    (id : String) (force : Bool) (s : Store)
    → let t = (activate_channel id force s).0 in
      (t.channels ≡ s.channels)
      × (t.threads ≡ s.threads)
      × (t.active_channel_id ≡ s.active_channel_id)
unfolding activate_channel
activate_channel-lists id force s = ground arith

-- Either nothing is selected, or a Channel of the list.
abbrev pub selects_listed : Option String → List Target → Bool
selects_listed none ts = true
selects_listed (some a) ts = contains_id a ts

abbrev rest_of : String → Store → List Target
rest_of id s = filter (λ c. not (has_id id c)) s.channels

channel_deleted-lists :
    (id : String) (s : Store)
    → let t = (channel_deleted id s).0 in
      (t.channels ≡ rest_of id s)
      × (t.threads ≡ filter (λ t. not (is_under id t)) s.threads)
      × (t.active_channel_id
          ≡ elim (find is_active (rest_of id s)) [ none ↦ none | some c ↦ some c.id ])
unfolding channel_deleted activate_channel
channel_deleted-lists id s = elim (Option-cases (find is_active (rest_of id s))) [
  | inl e ↦ ground arith
  | inr (c, e) ↦ ground arith
]

find-selected :
    (ts : List Target) (next : Option Target)
    → find is_active ts ≡ next
    → selects_listed (elim next [ none ↦ none | some c ↦ some c.id ]) ts ≡ true
find-selected ts none e = refl
find-selected ts (some c) e = find-listed is_active ts c e

-- Deleting a Channel takes it from the list and takes every Thread under it, and what is selected
-- afterwards, if anything, is a Channel that is still listed.
pub channel_deleted-removes :
    (id : String) (s : Store)
    → let t = (channel_deleted id s).0 in
      (contains_id id t.channels ≡ false)
      × (any (is_under id) t.threads ≡ false)
      × (selects_listed t.active_channel_id t.channels ≡ true)
channel_deleted-removes id s =
    let (channels, threads, active) = channel_deleted-lists id s in
    (
      rw channels (filter-gone id s.channels),
      rw threads (filter-orphans id s.threads),
      rw (active, channels) (find-selected (rest_of id s) (find is_active (rest_of id s)) refl),
    )

put_messages-active :
    (id : String) (merged : MergeResult) (s : Store)
    → (put_messages id merged s).active_channel_id ≡ s.active_channel_id
unfolding put_messages
put_messages-active id merged s = ground arith

count_replies-active :
    (id : String) (merged : MergeResult) (s : Store)
    → (count_replies id merged s).active_channel_id ≡ s.active_channel_id
unfolding count_replies put_summary
count_replies-active id merged s = ground arith

mark_read-fields :
    (id : String) (s : Store)
    → ((mark_read id s).active_channel_id ≡ s.active_channel_id)
      × (lookup id (mark_read id s).unread_by_channel ≡ some 0)
unfolding mark_read write_marker
mark_read-fields id s = ground (arith, lookup-insert_self id 0 s.unread_by_channel)

-- A page of messages that comes in under the current generation clears the unread count of its
-- target, also when another Channel is the selected one, and the selection stays.
pub page-clears_unread :
    (id other : String) (page : List Message) (s : Store)
    → s.active_channel_id ≡ some other
    → other == id ≡ false
    → let t = message_page_loaded s.load_generation id page s in
      (is_selected id t.active_channel_id ≡ false) × (lookup id t.unread_by_channel ≡ some 0)
unfolding message_page_loaded
page-clears_unread id other page s selected differs =
    let merged = merge_messages (known_messages id s) page in
    let put = put_messages id merged s in
    let counted = count_replies id merged put in
    let current : nat_eq s.load_generation s.load_generation ≡ true = ground arith in
    let kept = count_replies-active id merged put ∙ put_messages-active id merged s in
    let (same, cleared) = mark_read-fields id counted in
    (rw (current, same, kept, selected) differs, rw current cleared)
