-- ===== src/Remote/Stream/Replay.antt =====
-- The stream replays the ledger: no change is left out, repeated or put out of order.
use mathlib.Core.List.{append_assoc, append-nil}
use dsh_chaos.Common.{
  ℕ, zero, suc, String, List, [], ◌∷◌, ◌++◌, ◌≡◌, refl, sym, ap, ◌∙◌, ◌≢◌, take, drop,
  take-append-drop, All, arith, inl, inr, ◌⊎◌,
}
use dsh_chaos.Common.Texts.{big_int}
use dsh_chaos.Common.Results.{Result, ok, throws}
use dsh_chaos.Wire.{ChangeEvent}
use dsh_chaos.Remote.Errors.{DomainError}
use dsh_chaos.Remote.Stream.{
  Frame, connected, change, resync_required, error, heartbeat, Stream, Reason, changed, timed_out,
  aborted, write, send_changes, send_failure, after_wait, Round, serve, serve_from, changes,
}
use dsh_chaos.Remote.Stream.Ledger.{after, IsLedger, after-next, after-append}

changes-append : (fs gs : List Frame) → changes (fs ++ gs) ≡ changes fs ++ changes gs
changes-append [] gs = refl
changes-append (change c ∷ fs) gs = ap (◌∷◌ c) (changes-append fs gs)
changes-append (connected ∷ fs) gs = changes-append fs gs
changes-append (resync_required d ∷ fs) gs = changes-append fs gs
changes-append (error d ∷ fs) gs = changes-append fs gs
changes-append (heartbeat ∷ fs) gs = changes-append fs gs

-- `rest` is what of `all` has not been written; while the stream is open it stands behind the
-- cursor of `final`.
record Replays (final all : List ChangeEvent) (s : Stream) : Type 0 where
  rest : List ChangeEvent
  split : changes s.sent ++ rest ≡ all
  behind : s.room ≢ 0 → after (big_int s.cursor) final ≡ rest

ℕ-cases : (n : ℕ) → (n ≡ 0) ⊎ ((m : ℕ) × (n ≡ suc m))
ℕ-cases zero = inl refl
ℕ-cases (suc m) = inr (m, refl)

module _ (final all : List ChangeEvent) where
  write-Replays :
      (f : Frame) (s : Stream)
      → changes (f ∷ []) ≡ []
      → Replays final all s
      → Replays final all (write f s)
  unfolding write
  write-Replays f s silent r = record {
    rest = r.rest;
    split = ground (arith, changes-append s.sent (f ∷ []), append-nil (changes s.sent), r.split);
    behind = λ open_still. ground (arith, r.behind (ground arith));
  }

  write_change_next :
      (c : ChangeEvent) (s : Stream) (tail : List ChangeEvent)
      → IsLedger final
      → (s.room ≢ 0 → after (big_int s.cursor) final ≡ c ∷ tail)
      → (write (change c) (record s { cursor = c.seq })).room ≢ 0
      → after (big_int (write (change c) (record s { cursor = c.seq })).cursor) final ≡ tail
  unfolding write
  write_change_next c s tail sorted next open_still = elim (ℕ-cases s.room) [
    | inl closed ↦ absurd (open_still (rw (closed, write) closed))
    | inr (n, more) ↦
        rw (more, write) (after-next (big_int s.cursor) final c tail sorted (next (ground arith)))
  ]

  write_change-Replays :
      (c : ChangeEvent) (s : Stream) (tail : List ChangeEvent)
      → IsLedger final
      → (s.room ≢ 0 → after (big_int s.cursor) final ≡ c ∷ tail)
      → Replays final all s
      → Replays final all (write (change c) (record s { cursor = c.seq }))
  unfolding write
  write_change-Replays c s tail sorted next r = elim (ℕ-cases s.room) [
    | inl closed ↦ record {
      rest = r.rest;
      split = rw (closed, write) r.split;
      behind = λ open_still. absurd (open_still (rw (closed, write) closed));
    }
    | inr (n, more) ↦
        let there : after (big_int s.cursor) final ≡ c ∷ tail = next (ground arith) in
        let held : r.rest ≡ c ∷ tail = sym (r.behind (ground arith)) ∙ there in
        record {
          rest = tail;
          split =
              rw (more, write)
                (rw
                  (
                    changes-append s.sent (change c ∷ []),
                    append_assoc (changes s.sent) (c ∷ []) tail,
                  )
                  (ground (arith, r.split, held)));
          behind = write_change_next c s tail sorted next;
        }
  ]

  send_changes-Replays :
      (page : List ChangeEvent) (s : Stream) (tail : List ChangeEvent)
      → IsLedger final
      → (s.room ≢ 0 → after (big_int s.cursor) final ≡ page ++ tail)
      → Replays final all s
      → Replays final all (send_changes page s)
  unfolding send_changes
  send_changes-Replays [] s tail sorted next r = r
  send_changes-Replays (c ∷ cs) s tail sorted next r =
      let r' = write_change-Replays c s (cs ++ tail) sorted next r in
      send_changes-Replays cs (write (change c) (record s { cursor = c.seq })) tail sorted
        (write_change_next c s (cs ++ tail) sorted next) r'

  send_failure-Replays :
      (d : DomainError) (s : Stream) → Replays final all s → Replays final all (send_failure d s)
  unfolding send_failure
  send_failure-Replays d s r =
      ground (arith, write-Replays (resync_required d) s refl r, write-Replays (error d) s refl r)

  after_wait-Replays :
      (why : Reason) (s : Stream) → Replays final all s → Replays final all (after_wait why s)
  unfolding after_wait
  after_wait-Replays changed s r = r
  after_wait-Replays timed_out s r = write-Replays heartbeat s refl r
  after_wait-Replays aborted s r = record {
    rest = r.rest;
    split = r.split;
    behind = λ open_still. absurd (open_still refl);
  }

-- The contract of the core's `listChanges`: a read fails, or returns the first `limit` events
-- behind the cursor.
abbrev pub ReadsLedger : (List ChangeEvent → String → ℕ → Result (List ChangeEvent)) → Type 0
ReadsLedger list_changes =
    (l : List ChangeEvent) (cursor : String) (limit : ℕ)
    → ((e : String) × (list_changes l cursor limit ≡ throws e))
      ⊎ (list_changes l cursor limit ≡ ok (take limit (after (big_int cursor) l)))

-- Each round reads a ledger that `final` extends.
abbrev pub GrowInto : List ChangeEvent → List (Round (List ChangeEvent)) → Type 0
GrowInto final = All λ r. (later : List ChangeEvent) × (r.ledger ++ later ≡ final)

module _ (list_changes : List ChangeEvent → String → ℕ → Result (List ChangeEvent))
    (reads : ReadsLedger list_changes) (final all : List ChangeEvent)
    (sorted : IsLedger final) where
  page_behind :
      (l later : List ChangeEvent) (cursor : String)
      → l ++ later ≡ final
      → after (big_int cursor) final
        ≡ take 500 (after (big_int cursor) l)
          ++ (drop 500 (after (big_int cursor) l) ++ after (big_int cursor) later)
  page_behind l later cursor e =
      let c = big_int cursor in
      ap (after c) (sym e)
      ∙ after-append c l later
      ∙ ap (λ (xs : List ChangeEvent). xs ++ after c later) (sym (take-append-drop 500 (after c l)))
      ∙ append_assoc (take 500 (after c l)) (drop 500 (after c l)) (after c later)

  page-Replays :
      (round : Round (List ChangeEvent)) (rs : List (Round (List ChangeEvent))) (s : Stream) (n : ℕ)
      (page rest : List ChangeEvent)
      → s.room ≡ suc n
      → list_changes round.ledger s.cursor 500 ≡ ok page
      → after (big_int s.cursor) final ≡ page ++ rest
      → ((t : Stream) → Replays final all t → Replays final all (serve list_changes rs t))
      → Replays final all s
      → Replays final all (serve list_changes (round ∷ rs) s)
  unfolding serve
  page-Replays round rs s n [] rest more read behind ih r =
      rw (more, read, serve) (ih _ (after_wait-Replays final all round.reason s r))
  page-Replays round rs s n (c ∷ cs) rest more read behind ih r =
      rw (more, read, serve)
        (ih _ (send_changes-Replays final all (c ∷ cs) s rest sorted (λ _. behind) r))

  serve-Replays :
      (rs : List (Round (List ChangeEvent))) (s : Stream)
      → GrowInto final rs
      → Replays final all s
      → Replays final all (serve list_changes rs s)
  unfolding serve
  serve-Replays [] s grow r = r
  serve-Replays (round ∷ rs) s ((later, e), grow) r = elim (ℕ-cases s.room) [
    | inl closed ↦ rw (closed, serve) r
    | inr (n, more) ↦ elim (reads round.ledger s.cursor 500) [
      | inl (message, failed) ↦ rw (more, failed, serve) (send_failure-Replays final all _ s r)
      | inr read ↦
          page-Replays round rs s n _ _ more read (page_behind round.ledger later s.cursor e)
            (λ t. serve-Replays rs t grow) r
    ]
  ]

-- Whatever the ledger grows to between the reads, however the waits and the reads end and wherever
-- the connection breaks off, the changes written are a first part of the ledger behind the cursor
-- of the request, in order, with no gap and no repetition.
pub serve_from-replays_prefix :
    (list_changes : List ChangeEvent → String → ℕ → Result (List ChangeEvent))
    → ReadsLedger list_changes
    → (final : List ChangeEvent) → IsLedger final
    → (rs : List (Round (List ChangeEvent))) → GrowInto final rs
    → (cursor : String) (room : ℕ)
    → (rest : List ChangeEvent) × (changes (serve_from list_changes rs cursor room).sent ++ rest
        ≡ after (big_int cursor) final)
unfolding serve_from
serve_from-replays_prefix list_changes reads final sorted rs grow cursor room =
    let start : Replays final (after (big_int cursor) final)
        (record { cursor = cursor; room = room; sent = [] }) =
      record { rest = after (big_int cursor) final; split = refl; behind = λ _. refl } in
    let r =
      serve-Replays list_changes reads final (after (big_int cursor) final) sorted rs _ grow
        (write-Replays final (after (big_int cursor) final) connected _ refl start) in
    (r.rest, r.split)
