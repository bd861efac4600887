-- ===== src/Runtime/Release.antt =====
-- The map of the locks when an operation ends.
use dsh_chaos.Common.{
  ℕ, String, true, false, Option, none, some, List, [], ◌∷◌, length, ◌≡◌, ◌≢◌, refl, sym, ap, ◌∙◌,
  subst, ◌⊎◌, inl, inr, arith, Bool-cases, Option-cases, nat_eq, eq_iff, ◌==◌, if◌then◌else◌,
}
use dsh_chaos.Common.Maps.{Map, lookup, delete, lookup-delete, lookup-delete_self}
use dsh_chaos.Runtime.Locks.{
  waiting, released, Op, Locks, op_at, set_phase, is_running, same_ticket, finish,
}
use dsh_chaos.Runtime.Queue.{
  Cleared, AllReleased, latest, latest-lt, IsQueue-set_phase, running-Cleared, ne_of_false,
}
use dsh_chaos.Runtime.Held.{IsSerial, LockOk, LockOk-set_phase}

newest_released :
    (a : String) (t : ℕ) (ops : List Op)
    → latest a ops ≡ some t
    → Cleared t ops
    → AllReleased a (set_phase t released ops)
newest_released a t [] h c = tt
newest_released a t (o ∷ ops) h c = elim (Bool-cases (o.agent == a)) [
  | inl same ↦
      let e : o.agent ≡ a = (eq_iff o.agent a).0 same in
      let here : nat_eq t (length ops) ≡ true = ground arith in
      let clear : AllReleased o.agent ops =
        subst (λ b. if b then AllReleased o.agent ops else Cleared t ops) here c in
      rw here (inr refl, subst (λ b. AllReleased b ops) e clear)
  | inr other ↦
      let next : latest a ops ≡ some t = ground arith in
      let lt = latest-lt a ops t next in
      let older : nat_eq t (length ops) ≡ false = ground arith in
      let clear : Cleared t ops =
        subst (λ b. if b then AllReleased o.agent ops else Cleared t ops) older c in
      rw older (inl (ne_of_false o.agent a other), newest_released a t ops next clear)
]

-- The entry of another Agent is another operation.
other_entry :
    (q : Option ℕ) (a : String) (t : ℕ) (o : Op) (ops : List Op)
    → op_at t ops ≡ some o
    → o.agent ≢ a
    → LockOk q a ops
    → (p : ℕ) → q ≡ some p
    → p ≢ t
other_entry none a t o ops found apart h p e f = let x : none ≡ some p = e in cc
other_entry (some n) a t o ops found apart (newest, (x, there, mine, busy)) p e f =
    let same : n ≡ t = ground arith in
    let one : some x ≡ some o = sym there ∙ ap (λ k. op_at k ops) same ∙ found in
    let agree : x.agent ≡ o.agent = ground arith in apart (sym agree ∙ mine)

abbrev left : ℕ → Op → Map ℕ → Map ℕ
left t o m = if same_ticket t (lookup o.agent m) then delete o.agent m else m

ticket_cases :
    (t : ℕ) (q : Option ℕ)
    → ((same_ticket t q ≡ true) × (q ≡ some t))
      ⊎ ((same_ticket t q ≡ false) × ((p : ℕ) → q ≡ some p → p ≢ t))
ticket_cases t none = inr (refl, λ p e. absurd (ground arith))
ticket_cases t (some n) = elim (Bool-cases (nat_eq n t)) [
  | inl same ↦ inl (same, ground arith)
  | inr other ↦ inr (other, λ p e f. absurd (ground arith))
]

left-other :
    (t : ℕ) (o : Op) (m : Map ℕ) (a : String) → o.agent ≢ a → lookup a (left t o m) ≡ lookup a m
left-other t o m a apart = elim (Bool-cases (same_ticket t (lookup o.agent m))) [
  | inl gone ↦
      let differs : (o.agent == a) ≡ false = elim (Bool-cases (o.agent == a)) [
        | inl same ↦ absurd (apart ((eq_iff o.agent a).0 same))
        | inr d ↦ d
      ] in
      rw gone (lookup-delete o.agent a m ∙ ap (λ b. if b then none else lookup a m) differs)
  | inr stays ↦ rw stays refl
]

finish-held :
    (t : ℕ) (o : Op) (s : Locks) (a : String)
    → IsSerial s
    → op_at t s.ops ≡ some o
    → Cleared t s.ops
    → LockOk (lookup a (left t o s.locks)) a (set_phase t released s.ops)
finish-held t o s a serial found clear = elim (Bool-cases (o.agent == a)) [
  | inl same ↦
      let e : o.agent ≡ a = (eq_iff o.agent a).0 same in
      subst (λ b. LockOk (lookup b (left t o s.locks)) b (set_phase t released s.ops)) e
        (elim (ticket_cases t (lookup o.agent s.locks)) [
          | inl (mine, entry) ↦
              let held = subst (λ q. LockOk q o.agent s.ops) entry (serial.held o.agent) in
              let none_left : lookup o.agent (left t o s.locks) ≡ none =
                rw mine (lookup-delete_self o.agent s.locks) in
              subst (λ q. LockOk q o.agent (set_phase t released s.ops)) (sym none_left)
                (newest_released o.agent t s.ops held.0 clear)
          | inr (stays, apart) ↦
              let kept : lookup o.agent (left t o s.locks) ≡ lookup o.agent s.locks =
                rw stays refl in
              subst (λ q. LockOk q o.agent (set_phase t released s.ops)) (sym kept)
                (LockOk-set_phase (lookup o.agent s.locks) o.agent t released s.ops (inl refl)
                  (λ p f. inl (apart p f)) (serial.held o.agent))
        ])
  | inr other ↦
      let apart = ne_of_false o.agent a other in
      subst (λ q. LockOk q a (set_phase t released s.ops)) (sym (left-other t o s.locks a apart))
        (LockOk-set_phase (lookup a s.locks) a t released s.ops (inl refl)
          (λ p f. inl (other_entry (lookup a s.locks) a t o s.ops found apart (serial.held a) p f))
          (serial.held a))
]

runs-ne : (o : Op) → is_running o.phase ≡ true → o.phase ≢ waiting
runs-ne o h e = absurd (ground arith)

pub finish-IsSerial : (t : ℕ) (s : Locks) → IsSerial s → IsSerial (finish t s)
unfolding finish
finish-IsSerial t s serial = elim (Option-cases (op_at t s.ops)) [
  | inl missing ↦ rw missing serial
  | inr (o, found) ↦ elim (Bool-cases (is_running o.phase)) [
    | inl runs ↦
        let clear = running-Cleared t s.ops o serial.queue found (runs-ne o runs) in
        rw found (
          rw runs (record {
            queue = IsQueue-set_phase t released s.ops serial.queue (inl refl) clear;
            held = λ a. finish-held t o s a serial found clear;
          }))
    | inr idle ↦ rw found (rw idle serial)
  ]
]
