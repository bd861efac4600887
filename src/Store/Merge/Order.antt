-- ===== src/Store/Merge/Order.antt =====
-- `mergeMessages` keeps a history in the order of the sequences, with one message for an id.
use dsh_chaos.Common.{
  ℕ, ◌≤◌, String, Option, List, [], ◌∷◌, ◌≡◌, ◌≢◌, refl, sym, ◌∙◌, inl, inr, arith, subst, ltb,
  is_some, All, Bool-cases, ◌==◌, eq_iff,
}
use dsh_chaos.Common.Maps.{Map, lookup, insert, values}
use dsh_chaos.Wire.{Message}
use dsh_chaos.Store.Merge.{
  seq_of, Merging, by_id_from, take_in, take_in_all, collect, insert_sorted, sort_messages,
  merge_messages, max_seq_of,
}

abbrev pub IsSorted : List Message → Type 0
IsSorted [] = Unit
IsSorted (m ∷ ms) = All (λ x. seq_of m ≤ seq_of x) ms × IsSorted ms

abbrev pub IsDistinct : List Message → Type 0
IsDistinct [] = Unit
IsDistinct (m ∷ ms) = All (λ x. m.id ≢ x.id) ms × IsDistinct ms

All-insert_sorted :
    (P : Message → Type 0) (m : Message) (ms : List Message)
    → P m
    → All P ms
    → All P (insert_sorted m ms)
unfolding insert_sorted
All-insert_sorted P m [] h k = (h, tt)
All-insert_sorted P m (x ∷ xs) h k = elim (Bool-cases (ltb (seq_of x) (seq_of m))) [
  | inl e ↦ rw e (k.0, All-insert_sorted P m xs h k.1)
  | inr e ↦ rw e (h, k)
]

All-le_trans :
    (a b : ℕ) (ms : List Message) → a ≤ b → All (λ x. b ≤ seq_of x) ms → All (λ x. a ≤ seq_of x) ms
All-le_trans a b [] h k = tt
All-le_trans a b (x ∷ xs) h k = (omega arith, All-le_trans a b xs h k.1)

insert_sorted-IsSorted :
    (m : Message) (ms : List Message) → IsSorted ms → IsSorted (insert_sorted m ms)
unfolding insert_sorted
insert_sorted-IsSorted m [] h = (tt, tt)
insert_sorted-IsSorted m (x ∷ xs) h = elim (Bool-cases (ltb (seq_of x) (seq_of m))) [
  | inl e ↦ rw e (
    All-insert_sorted (λ y. seq_of x ≤ seq_of y) m xs (ground arith) h.0,
    insert_sorted-IsSorted m xs h.1,
  )
  | inr e ↦ rw e ((ground arith, All-le_trans (seq_of m) (seq_of x) xs (ground arith) h.0), h)
]

pub sort_messages-IsSorted : (ms : List Message) → IsSorted (sort_messages ms)
unfolding sort_messages
sort_messages-IsSorted [] = tt
sort_messages-IsSorted (m ∷ ms) = insert_sorted-IsSorted m _ (sort_messages-IsSorted ms)

pub All-sort_messages :
    (P : Message → Type 0) (ms : List Message) → All P ms → All P (sort_messages ms)
unfolding sort_messages
All-sort_messages P [] h = tt
All-sort_messages P (m ∷ ms) h = All-insert_sorted P m _ h.0 (All-sort_messages P ms h.1)

All-ne_sym :
    (m : Message) (ms : List Message) → All (λ x. m.id ≢ x.id) ms → All (λ x. x.id ≢ m.id) ms
All-ne_sym m [] h = tt
All-ne_sym m (x ∷ xs) h = (λ e. h.0 (sym e), All-ne_sym m xs h.1)

insert_sorted-IsDistinct :
    (m : Message) (ms : List Message)
    → All (λ x. m.id ≢ x.id) ms
    → IsDistinct ms
    → IsDistinct (insert_sorted m ms)
unfolding insert_sorted
insert_sorted-IsDistinct m [] h k = (tt, tt)
insert_sorted-IsDistinct m (x ∷ xs) h k = elim (Bool-cases (ltb (seq_of x) (seq_of m))) [
  | inl e ↦ rw e (
    All-insert_sorted (λ y. x.id ≢ y.id) m xs (λ p. h.0 (sym p)) k.0,
    insert_sorted-IsDistinct m xs h.1 k.1,
  )
  | inr e ↦ rw e (h, k)
]

pub sort_messages-IsDistinct : (ms : List Message) → IsDistinct ms → IsDistinct (sort_messages ms)
unfolding sort_messages
sort_messages-IsDistinct [] h = tt
sort_messages-IsDistinct (m ∷ ms) h =
    insert_sorted-IsDistinct m _ (All-sort_messages (λ x. m.id ≢ x.id) ms h.0)
      (sort_messages-IsDistinct ms h.1)

-- A map whose keys are the ids of its messages, each once.
abbrev pub IsIndex : Map Message → Type 0
IsIndex [] = Unit
IsIndex ((k, v) ∷ m) = (v.id ≡ k) × All (λ (e : String × Message). k ≢ e.0) m × IsIndex m

All-insert_ne :
    (j : String) (v : Message) (k : String) (m : Map Message)
    → j ≢ k
    → All (λ (e : String × Message). j ≢ e.0) m
    → All (λ (e : String × Message). j ≢ e.0) (insert k v m)
unfolding insert
All-insert_ne j v k [] ne h = (ne, tt)
All-insert_ne j v k ((i, w) ∷ m) ne h = elim (Bool-cases (i == k)) [
  | inl e ↦ rw e (h.0, h.1)
  | inr e ↦ rw e (h.0, All-insert_ne j v k m ne h.1)
]

pub insert-IsIndex : (v : Message) (m : Map Message) → IsIndex m → IsIndex (insert v.id v m)
unfolding insert
insert-IsIndex v [] h = (refl, tt, tt)
insert-IsIndex v ((i, w) ∷ m) h = elim (Bool-cases (i == v.id)) [
  | inl e ↦ rw e (sym ((eq_iff i v.id).0 e), h.1, h.2)
  | inr e ↦ rw e (
    h.0,
    All-insert_ne i v v.id m (λ p. ground (arith, eq_iff i v.id)) h.1,
    insert-IsIndex v m h.2,
  )
]

pub by_id_from-IsIndex :
    (m : Map Message) (ms : List Message) → IsIndex m → IsIndex (by_id_from m ms)
unfolding by_id_from
by_id_from-IsIndex m [] h = h
by_id_from-IsIndex m (x ∷ xs) h = by_id_from-IsIndex (insert x.id x m) xs (insert-IsIndex x m h)

pub take_in_all-IsIndex :
    (tail : Option Message) (ms : List Message) (acc : Merging)
    → IsIndex acc.by_id
    → IsIndex (take_in_all tail ms acc).by_id
unfolding take_in_all take_in
take_in_all-IsIndex tail [] acc h = h
take_in_all-IsIndex tail (m ∷ ms) acc h =
    take_in_all-IsIndex tail ms (take_in tail m acc)
      (elim (Bool-cases (is_some (lookup m.id acc.by_id))) [
        | inl e ↦ rw (e, take_in) h
        | inr e ↦ rw (e, take_in) (insert-IsIndex m acc.by_id h)
      ])

pub collect-IsIndex : (existing incoming : List Message) → IsIndex (collect existing incoming).by_id
unfolding collect
collect-IsIndex existing incoming =
    take_in_all-IsIndex (max_seq_of existing) incoming
      (record { by_id = by_id_from [] existing; appended = 0 }) (by_id_from-IsIndex [] existing tt)

values-ne :
    (k : String) (m : Map Message)
    → IsIndex m
    → All (λ (e : String × Message). k ≢ e.0) m
    → All (λ x. k ≢ x.id) (values m)
values-ne k [] i h = tt
values-ne k ((j, v) ∷ m) i h = (λ e. h.0 (e ∙ i.0), values-ne k m i.2 h.1)

pub values-IsDistinct : (m : Map Message) → IsIndex m → IsDistinct (values m)
values-IsDistinct [] i = tt
values-IsDistinct ((k, v) ∷ m) i = (
  subst (λ (j : String). All (λ x. j ≢ x.id) (values m)) (sym i.0) (values-ne k m i.2 i.1),
  values-IsDistinct m i.2,
)

-- A history in order, with one message for an id.
abbrev pub IsHistory : List Message → Type 0
IsHistory ms = IsSorted ms × IsDistinct ms

-- Merging a page into such a history gives such a history, whatever the page holds.
pub merge_messages-IsHistory :
    (existing incoming : List Message)
    → IsHistory existing
    → IsHistory (merge_messages existing incoming).messages
unfolding merge_messages
merge_messages-IsHistory existing [] h = h
merge_messages-IsHistory existing (m ∷ ms) h =
    let index = (collect existing (m ∷ ms)).by_id in
    (
      sort_messages-IsSorted (values index),
      sort_messages-IsDistinct (values index)
          (values-IsDistinct index (collect-IsIndex existing (m ∷ ms))),
    )
