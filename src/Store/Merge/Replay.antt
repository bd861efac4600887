-- ===== src/Store/Merge/Replay.antt =====
-- Merging a page again changes nothing and counts nothing.
use mathlib.Core.List.{append_assoc, append-nil}
use dsh_chaos.Common.{
  ◌≤◌, String, true, Option, List, [], ◌∷◌, ◌++◌, ◌≡◌, ◌≢◌, refl, sym, ◌∙◌, ap, arith, is_some, All,
  All-append, eq_iff,
}
use dsh_chaos.Common.Maps.{Map, lookup, insert, values}
use dsh_chaos.Wire.{Message}
use dsh_chaos.Store.Merge.{
  seq_of, Merging, by_id_from, take_in, take_in_all, collect, insert_sorted, sort_messages,
  merge_messages, max_seq_of,
}
use dsh_chaos.Store.Merge.Order.{IsSorted, IsDistinct, IsHistory, merge_messages-IsHistory}
use dsh_chaos.Store.Merge.Content.{message_of, lookup-by_id_from, message_of-merge_messages}

insert_sorted-least :
    (m : Message) (ms : List Message)
    → All (λ x. seq_of m ≤ seq_of x) ms
    → insert_sorted m ms ≡ m ∷ ms
unfolding insert_sorted
insert_sorted-least m [] h = refl
insert_sorted-least m (x ∷ xs) h = ground (arith, h.0)

sort_messages-sorted : (ms : List Message) → IsSorted ms → sort_messages ms ≡ ms
unfolding sort_messages
sort_messages-sorted [] h = refl
sort_messages-sorted (m ∷ ms) h = rw (sort_messages-sorted ms h.1) (insert_sorted-least m ms h.0)

insert-new :
    (v : Message) (m : Map Message)
    → All (λ (e : String × Message). e.0 ≢ v.id) m
    → insert v.id v m ≡ m ++ (v.id, v) ∷ []
unfolding insert
insert-new v [] h = refl
insert-new v ((k, w) ∷ m) h = ground (arith, eq_iff k v.id, h.0, insert-new v m h.1)

-- No message of the list has a key of the map.
abbrev Fresh : Map Message → List Message → Type 0
Fresh m = All λ x. All (λ (e : String × Message). e.0 ≢ x.id) m

Fresh-append :
    (m : Map Message) (v : Message) (ms : List Message)
    → Fresh m ms
    → All (λ x. v.id ≢ x.id) ms
    → Fresh (m ++ (v.id, v) ∷ []) ms
Fresh-append m v [] h k = tt
Fresh-append m v (x ∷ xs) h k = (
  All-append (λ (e : String × Message). e.0 ≢ x.id) m ((v.id, v) ∷ []) h.0 (k.0, tt),
  Fresh-append m v xs h.1 k.1,
)

values-append : (m n : Map Message) → values (m ++ n) ≡ values m ++ values n
values-append [] n = refl
values-append (e ∷ m) n = ap (◌∷◌ e.1) (values-append m n)

values-by_id_from :
    (m : Map Message) (ms : List Message)
    → IsDistinct ms
    → Fresh m ms
    → values (by_id_from m ms) ≡ values m ++ ms
unfolding by_id_from
values-by_id_from m [] d f = sym (append-nil (values m))
values-by_id_from m (x ∷ xs) d f =
    ap (λ (n : Map Message). values (by_id_from n xs)) (insert-new x m f.0)
    ∙ values-by_id_from (m ++ (x.id, x) ∷ []) xs d.1 (Fresh-append m x xs f.1 d.0)
    ∙ ap (λ (v : List Message). v ++ xs) (values-append m ((x.id, x) ∷ []))
    ∙ append_assoc (values m) (x ∷ []) xs

Fresh-nil : (ms : List Message) → Fresh [] ms
Fresh-nil [] = tt
Fresh-nil (x ∷ xs) = (tt, Fresh-nil xs)

take_in_all-known :
    (tail : Option Message) (ms : List Message) (acc : Merging)
    → All (λ m. is_some (lookup m.id acc.by_id) ≡ true) ms
    → take_in_all tail ms acc ≡ acc
unfolding take_in_all take_in
take_in_all-known tail [] acc h = refl
take_in_all-known tail (m ∷ ms) acc h = ground (arith, take_in_all-known tail ms acc h.1, h.0)

All-found_cons :
    (x : Message) (all ms : List Message)
    → All (λ m. is_some (message_of m.id all) ≡ true) ms
    → All (λ m. is_some (message_of m.id (x ∷ all)) ≡ true) ms
All-found_cons x all [] h = tt
All-found_cons x all (m ∷ ms) h = (ground (arith, h.0), All-found_cons x all ms h.1)

All-found : (ms : List Message) → All (λ m. is_some (message_of m.id ms) ≡ true) ms
All-found [] = tt
All-found (m ∷ ms) = (ground (arith, eq_iff m.id m.id), All-found_cons m ms ms (All-found ms))

All-known :
    (existing incoming ms : List Message)
    → IsHistory existing
    → All (λ m. is_some (message_of m.id incoming) ≡ true) ms
    → All
        (λ m.
          is_some (lookup m.id (by_id_from [] (merge_messages existing incoming).messages)) ≡ true)
        ms
All-known existing incoming [] d h = tt
All-known existing incoming (m ∷ ms) d h = (
  ground (
    arith,
    lookup-by_id_from m.id [] (merge_messages existing incoming).messages
        (merge_messages-IsHistory existing incoming d).1,
    message_of-merge_messages m.id existing incoming d.1,
    h.0,
  ),
  All-known existing incoming ms d h.1,
)

-- Merging a page that has been merged before changes nothing and counts no message as appended.
pub merge_messages_idem :
    (existing incoming : List Message)
    → IsHistory existing
    → merge_messages (merge_messages existing incoming).messages incoming
      ≡ record { messages = (merge_messages existing incoming).messages; appended = 0 }
unfolding merge_messages collect
merge_messages_idem existing [] h = refl
merge_messages_idem existing (m ∷ ms) h =
    let merged = (merge_messages existing (m ∷ ms)).messages in
    let sound = merge_messages-IsHistory existing (m ∷ ms) h in
    let start : Merging = record { by_id = by_id_from [] merged; appended = 0 } in
    let same : take_in_all (max_seq_of merged) (m ∷ ms) start ≡ start =
      take_in_all-known (max_seq_of merged) (m ∷ ms) start
        (All-known existing (m ∷ ms) (m ∷ ms) h (All-found (m ∷ ms))) in
    rw same (
      rw (values-by_id_from [] merged sound.1 (Fresh-nil merged))
        (rw (sort_messages-sorted merged sound.0)))
