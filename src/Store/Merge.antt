-- ===== src/Store/Merge.antt =====
-- src/client/data/store.ts: `compareSeq`, `maxSeqOf` and `mergeMessages`.
pub mod Order
pub mod Content
pub mod Replay
use dsh_chaos.Common.{
  ℕ, ◌+◌, String, Bool, true, false, not, ◌&&◌, Option, none, some, List, [], ◌∷◌, ltb, is_some,
  if◌then◌else◌, last, map,
}
use dsh_chaos.Common.Maps.{Map, lookup, insert, values}
use dsh_chaos.Common.Texts.{big_int}
use dsh_chaos.Wire.{Message}

-- The sequence of a message as a number. The core's sequences are decimal, so `BigInt` reads them.
abbrev pub seq_of : Message → ℕ
seq_of m = big_int m.seq

abbrev pub max_seq_of : List Message → Option Message
max_seq_of messages = last messages

pub record MergeResult : Type 0 where
  pub messages : List Message
  pub appended : ℕ

-- `new Map(existing.map(message => [message.id, message]))`.
unfoldable pub by_id_from : Map Message → List Message → Map Message
by_id_from byId [] = byId
by_id_from byId (m ∷ ms) = by_id_from (insert m.id m byId) ms

-- `previousTail === undefined || compareSeq(seq, previousTail) > 0`.
unfoldable pub is_past : Option Message → Message → Bool
is_past none m = true
is_past (some tail) m = ltb (seq_of tail) (seq_of m)

pub record Merging : Type 0 where
  pub by_id : Map Message
  pub appended : ℕ

-- One round of the loop over `incoming`.
unfoldable pub take_in : Option Message → Message → Merging → Merging
take_in tail m acc = if is_some (lookup m.id acc.by_id) then acc else record {
  by_id = insert m.id m acc.by_id;
  appended = if is_past tail m then acc.appended + 1 else acc.appended;
}

unfoldable pub take_in_all : Option Message → List Message → Merging → Merging
take_in_all tail [] acc = acc
take_in_all tail (m ∷ ms) acc = take_in_all tail ms (take_in tail m acc)

-- `messages.sort(compareSeq)`, which is stable: a message goes behind those that do not follow it.
unfoldable pub insert_sorted : Message → List Message → List Message
insert_sorted m [] = m ∷ []
insert_sorted m (x ∷ xs) = if ltb (seq_of x) (seq_of m) then x ∷ insert_sorted m xs else m ∷ x ∷ xs

unfoldable pub sort_messages : List Message → List Message
sort_messages [] = []
sort_messages (m ∷ ms) = insert_sorted m (sort_messages ms)

-- The map behind the loop, and the count of appended messages.
unfoldable pub collect : List Message → List Message → Merging
collect existing incoming =
    take_in_all (max_seq_of existing) incoming
      (record { by_id = by_id_from [] existing; appended = 0 })

unfoldable pub merge_messages : List Message → List Message → MergeResult
merge_messages existing [] = record { messages = existing; appended = 0 }
merge_messages existing (m ∷ ms) = record {
  messages = sort_messages (values (collect existing (m ∷ ms)).by_id);
  appended = (collect existing (m ∷ ms)).appended;
}

-- The functions of this file together, for the tests.
unfoldable pub merging : Unit {0}
unfolding by_id_from is_past take_in take_in_all insert_sorted sort_messages collect merge_messages
merging = tt
