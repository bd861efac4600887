-- ===== src/Runtime/Turns.antt =====
-- What the lock of an Agent promises.
use dsh_chaos.Common.{
  ℕ, ◌≤◌, String, true, ◌&&◌, Option, none, some, List, [], ◌∷◌, length, filter, ◌≡◌, ◌≢◌, refl,
  sym, ap, ◌∙◌, subst, ◌⊎◌, inl, inr, arith, Bool-cases, Option-cases, nat_eq, eq_iff, ◌==◌,
  if◌then◌else◌,
}
use dsh_chaos.Common.Maps.{lookup}
use dsh_chaos.Runtime.Locks.{
  Phase, waiting, running, released, Op, no_locks, op_at, is_running, is_released, may_run, Event,
  lock_run,
}
use dsh_chaos.Runtime.Queue.{
  AllReleased, latest, IsQueue, IsPredecessor, latest-lt, op_at-older, Cleared, running-Cleared,
}
use dsh_chaos.Runtime.Held.{LockOk, op_at-lt, op_at_head}
use dsh_chaos.Runtime.Exclusion.{reachable-IsSerial}

-- The operations that run on an Agent.
abbrev pub runs_on : String → List Op → List Op
runs_on a ops = filter (λ o. o.agent == a && is_running o.phase) ops

runs_on-released : (a : String) (ops : List Op) → AllReleased a ops → runs_on a ops ≡ []
runs_on-released a [] h = refl
runs_on-released a (o ∷ ops) (inl other, h) = elim (Bool-cases (o.agent == a)) [
  | inl same ↦ absurd (other ((eq_iff o.agent a).0 same))
  | inr differs ↦ ground (arith, runs_on-released a ops h)
]
runs_on-released a (o ∷ ops) (inr done, h) = ground (arith, runs_on-released a ops h)

runs_on-one : (a : String) (ops : List Op) → IsQueue ops → length (runs_on a ops) ≤ 1
runs_on-one a [] q = omega arith
runs_on-one a (o ∷ ops) ((pred, begun), q) =
    elim (Bool-cases (o.agent == a && is_running o.phase)) [
      | inl runs ↦
          let mine : o.agent ≡ a = (eq_iff o.agent a).0 (ground arith) in
          let rest : runs_on a ops ≡ [] = elim begun [
            | inl waits ↦ absurd (ground arith)
            | inr clear ↦ runs_on-released a ops (subst (λ b. AllReleased b ops) mine clear)
          ] in
          ground arith
      | inr idle ↦ ground (arith, runs_on-one a ops q)
    ]

-- The operations that were called before.
abbrev pub before : ℕ → List Op → List Op
before t [] = []
before t (o ∷ ops) = if nat_eq t (length ops) then ops else before t ops

before-Cleared :
    (t : ℕ) (ops : List Op) (o : Op)
    → op_at t ops ≡ some o
    → Cleared t ops
    → AllReleased o.agent (before t ops)
before-Cleared t [] o found c = tt
before-Cleared t (x ∷ ops) o found c = elim (Bool-cases (nat_eq t (length ops))) [
  | inl here ↦
      let e : x.agent ≡ o.agent = ground arith in
      let clear : AllReleased x.agent ops =
        subst (λ b. if b then AllReleased x.agent ops else Cleared t ops) here c in
      rw here (subst (λ b. AllReleased b ops) e clear)
  | inr older ↦
      let clear : Cleared t ops =
        subst (λ b. if b then AllReleased x.agent ops else Cleared t ops) older c in
      rw older (before-Cleared t ops o (ground arith) clear)
]

-- However the operations interleave, at most one runs on an Agent at a time.
pub lock_run-one_runs :
    (es : List Event) (a : String) → length (runs_on a (lock_run es no_locks).ops) ≤ 1
lock_run-one_runs es a = runs_on-one a (lock_run es no_locks).ops (reachable-IsSerial es).queue

-- However the operations interleave, one that has begun comes after all those on its Agent that were
-- called before it: each of them was released.
pub lock_run-in_order :
    (es : List Event) (t : ℕ) (o : Op)
    → op_at t (lock_run es no_locks).ops ≡ some o
    → o.phase ≢ waiting
    → AllReleased o.agent (before t (lock_run es no_locks).ops)
lock_run-in_order es t o found begun =
    let ops = (lock_run es no_locks).ops in
    before-Cleared t ops o found (running-Cleared t ops o (reachable-IsSerial es).queue found begun)

-- One of these is the Agent's next step.
abbrev pub Proceeds : String → List Op → Type 0
Proceeds a ops =
    ((t : ℕ) × (o : Op) × (op_at t ops ≡ some o) × (o.agent ≡ a) × (o.phase ≡ running))
    ⊎ ((t : ℕ) × (o : Op) × (op_at t ops ≡ some o)
        × (o.agent ≡ a)
        × (o.phase ≡ waiting)
        × (may_run o.predecessor ops ≡ true))

may_run_newer :
    (q : Option ℕ) (o : Op) (ops : List Op) → may_run q ops ≡ true → may_run q (o ∷ ops) ≡ true
may_run_newer none o ops h = refl
may_run_newer (some p) o ops h = elim (Option-cases (op_at p ops)) [
  | inl missing ↦ absurd (ground arith)
  | inr (x, found) ↦ ap is_released (op_at-older p o ops (op_at-lt p ops x found)) ∙ h
]

Proceeds-newer : (a : String) (o : Op) (ops : List Op) → Proceeds a ops → Proceeds a (o ∷ ops)
Proceeds-newer a o ops (inl (t, x, found, mine, runs)) =
    inl (t, x, op_at-older t o ops (op_at-lt t ops x found) ∙ found, mine, runs)
Proceeds-newer a o ops (inr (t, x, found, mine, waits, free)) = inr (
  t,
  x,
  op_at-older t o ops (op_at-lt t ops x found) ∙ found,
  mine,
  waits,
  may_run_newer x.predecessor o ops free,
)

latest-is_released :
    (a : String) (ops : List Op) (p : ℕ)
    → AllReleased a ops
    → latest a ops ≡ some p
    → is_released (op_at p ops) ≡ true
latest-is_released a [] p h k = absurd (ground arith)
latest-is_released a (o ∷ ops) p (one, h) k = elim (Bool-cases (o.agent == a)) [
  | inl same ↦ elim one [
    | inl other ↦ absurd (other ((eq_iff o.agent a).0 same))
    | inr done ↦ ground arith
  ]
  | inr differs ↦
      let next : latest a ops ≡ some p = ground arith in
      ap is_released (op_at-older p o ops (latest-lt a ops p next))
      ∙ latest-is_released a ops p h next
]

may_run_next :
    (q : Option ℕ) (a : String) (ops : List Op)
    → IsPredecessor q a ops
    → AllReleased a ops
    → may_run q ops ≡ true
may_run_next none a ops pred h = refl
may_run_next (some p) a ops pred h = latest-is_released a ops p h pred

Phase-cases : (p : Phase) → (p ≡ waiting) ⊎ (p ≡ running) ⊎ (p ≡ released)
Phase-cases waiting = inl refl
Phase-cases running = inr (inl refl)
Phase-cases released = inr (inr refl)

Proceeds-head :
    (a : String) (o : Op) (ops : List Op)
    → o.agent ≡ a
    → IsPredecessor o.predecessor o.agent ops
    → AllReleased a ops
    → AllReleased a (o ∷ ops) ⊎ Proceeds a (o ∷ ops)
Proceeds-head a o ops mine pred h =
    let next =
      may_run_next o.predecessor o.agent ops pred (subst (λ b. AllReleased b ops) (sym mine) h) in
    elim (Phase-cases o.phase) [
      | inl waits ↦ inr (
          inr
            (length ops, o, op_at_head o ops, mine, waits, may_run_newer o.predecessor o ops next))
      | inr (inl runs) ↦ inr (inl (length ops, o, op_at_head o ops, mine, runs))
      | inr (inr done) ↦ inl (inr done, h)
    ]

proceeds_lem : (a : String) (ops : List Op) → IsQueue ops → AllReleased a ops ⊎ Proceeds a ops
proceeds_lem a [] q = inl tt
proceeds_lem a (o ∷ ops) ((pred, begun), q) = elim (proceeds_lem a ops q) [
  | inr goes ↦ inr (Proceeds-newer a o ops goes)
  | inl clear ↦ elim (Bool-cases (o.agent == a)) [
    | inl same ↦ Proceeds-head a o ops ((eq_iff o.agent a).0 same) pred clear
    | inr differs ↦
        inl (inl (λ e. let k : (o.agent == a) ≡ true = (eq_iff o.agent a).1 e in cc), clear)
  ]
]

no_entry :
    (q : Option ℕ) (a : String) (ops : List Op) → LockOk q a ops → AllReleased a ops → q ≡ none
no_entry none a ops h clear = refl
no_entry (some p) a ops (newest, (o, found, mine, busy)) clear =
    let done : is_released (op_at p ops) ≡ true = latest-is_released a ops p clear newest in
    absurd (busy (ground arith))

-- However the operations interleave, an Agent's queue is never stuck: one of its operations runs, or
-- one waits and may run, or all were released and the map has no entry for the Agent.
pub lock_run-Proceeds :
    (es : List Event) (a : String)
    → let s = lock_run es no_locks in
      Proceeds a s.ops ⊎ (AllReleased a s.ops × (lookup a s.locks ≡ none))
lock_run-Proceeds es a =
    let s = lock_run es no_locks in
    let serial = reachable-IsSerial es in
    elim (proceeds_lem a s.ops serial.queue) [
      | inl clear ↦ inr (clear, no_entry (lookup a s.locks) a s.ops (serial.held a) clear)
      | inr goes ↦ inl goes
    ]
