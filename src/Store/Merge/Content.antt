-- ===== src/Store/Merge/Content.antt =====
-- What a merged history holds: each known message as it was, and each new one of the page.
use dsh_chaos.Common.{
  String, Option, none, some, List, [], ◌∷◌, ◌≡◌, ◌≢◌, refl, ◌∙◌, ap, arith, if◌then◌else◌, All,
  find, ◌==◌, eq_iff,
}
use dsh_chaos.Common.Maps.{Map, lookup, insert, values, lookup-insert}
use dsh_chaos.Wire.{Message}
use dsh_chaos.Store.Merge.{
  Merging, by_id_from, take_in, take_in_all, collect, insert_sorted, sort_messages, merge_messages,
  max_seq_of,
}
use dsh_chaos.Store.Merge.Order.{
  IsDistinct, IsIndex, values-IsDistinct, collect-IsIndex, All-sort_messages,
}

-- The message with an id.
abbrev pub message_of : String → List Message → Option Message
message_of id = find (λ m. m.id == id)

-- `a ?? b`.
abbrev pub first_some {ℓ} : {A : Type ℓ} → Option A → Option A → Option A
first_some none b = b
first_some (some a) b = some a

message_of-none :
    (m : Message) (ms : List Message) → All (λ x. m.id ≢ x.id) ms → message_of m.id ms ≡ none
message_of-none m [] h = refl
message_of-none m (x ∷ xs) h = ground (arith, eq_iff x.id m.id, message_of-none m xs h.1, h.0)

message_of-insert_sorted :
    (id : String) (m : Message) (ms : List Message)
    → All (λ x. m.id ≢ x.id) ms
    → message_of id (insert_sorted m ms) ≡ (if m.id == id then some m else message_of id ms)
unfolding insert_sorted
message_of-insert_sorted id m [] h = refl
message_of-insert_sorted id m (x ∷ xs) h =
    ground (arith, eq_iff x.id id, eq_iff m.id id, message_of-insert_sorted id m xs h.1, h.0)

pub message_of-sort_messages :
    (id : String) (ms : List Message)
    → IsDistinct ms
    → message_of id (sort_messages ms) ≡ message_of id ms
unfolding sort_messages
message_of-sort_messages id [] h = refl
message_of-sort_messages id (m ∷ ms) h =
    message_of-insert_sorted id m (sort_messages ms) (All-sort_messages (λ x. m.id ≢ x.id) ms h.0)
    ∙ ap (λ (o : Option Message). if m.id == id then some m else o)
        (message_of-sort_messages id ms h.1)

message_of-values :
    (id : String) (m : Map Message) → IsIndex m → message_of id (values m) ≡ lookup id m
unfolding lookup
message_of-values id [] h = refl
message_of-values id ((k, v) ∷ m) h =
    ground (arith, eq_iff v.id id, eq_iff k id, message_of-values id m h.2, h.0)

pub lookup-by_id_from :
    (id : String) (m : Map Message) (ms : List Message)
    → IsDistinct ms
    → lookup id (by_id_from m ms) ≡ first_some (message_of id ms) (lookup id m)
unfolding by_id_from
lookup-by_id_from id m [] h = refl
lookup-by_id_from id m (x ∷ xs) h = ground (
  arith,
  lookup-by_id_from id (insert x.id x m) xs h.1,
  lookup-insert x.id id x m,
  eq_iff x.id id,
  message_of-none x xs h.0,
)

lookup-take_in_all :
    (id : String) (tail : Option Message) (ms : List Message) (acc : Merging)
    → lookup id (take_in_all tail ms acc).by_id
      ≡ first_some (lookup id acc.by_id) (message_of id ms)
unfolding take_in_all take_in
lookup-take_in_all id tail [] acc = ground arith
lookup-take_in_all id tail (m ∷ ms) acc = ground (
  arith,
  lookup-take_in_all id tail ms (take_in tail m acc),
  lookup-insert m.id id m acc.by_id,
  eq_iff m.id id,
)

pub lookup-collect :
    (id : String) (existing incoming : List Message)
    → IsDistinct existing
    → lookup id (collect existing incoming).by_id
      ≡ first_some (message_of id existing) (message_of id incoming)
unfolding collect lookup
lookup-collect id existing incoming h = ground (
  arith,
  lookup-take_in_all id (max_seq_of existing) incoming
      (record { by_id = by_id_from [] existing; appended = 0 }),
  lookup-by_id_from id [] existing h,
)

-- A merged history has a message under an id exactly where the history or the page has one: the
-- one of the history if there is one, and otherwise the first one of the page.
pub message_of-merge_messages :
    (id : String) (existing incoming : List Message)
    → IsDistinct existing
    → message_of id (merge_messages existing incoming).messages
      ≡ first_some (message_of id existing) (message_of id incoming)
unfolding merge_messages
message_of-merge_messages id existing [] h = ground arith
message_of-merge_messages id existing (m ∷ ms) h =
    let index = (collect existing (m ∷ ms)).by_id in
    let sound = collect-IsIndex existing (m ∷ ms) in
    message_of-sort_messages id (values index) (values-IsDistinct index sound)
    ∙ message_of-values id index sound
    ∙ lookup-collect id existing (m ∷ ms) h
