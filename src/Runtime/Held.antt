-- ===== src/Runtime/Held.antt =====
-- The map of the locks: its entry is the newest operation, when one is called and when it begins.
use dsh_chaos.Common.{
  ℕ, ◌<◌, String, true, false, ◌&&◌, Option, none, some, List, [], ◌∷◌, length, ◌≡◌, ◌≢◌, refl, sym,
  ap, ◌∙◌, subst, ◌⊎◌, inl, inr, arith, Bool-cases, Option-cases, nat_eq, eq_iff, ◌==◌,
}
use dsh_chaos.Common.Maps.{lookup, insert, lookup-insert}
use dsh_chaos.Common.Texts.{trim, is_empty}
use dsh_chaos.Runtime.Locks.{
  Phase, waiting, running, released, Op, Locks, op_at, set_phase, is_waiting, may_run, acquire,
  begin,
}
use dsh_chaos.Runtime.Queue.{
  AllReleased, latest, IsQueue, IsPredecessor, op_at-older, latest-set_phase, Grants,
  AllReleased-set_phase, op_at-set_phase, op_at-set_phase_self, IsQueue-set_phase, may_run-Cleared,
  ne_of_false,
}

-- The entry of the map is the newest operation, which is not released; without one all were.
abbrev pub LockOk : Option ℕ → String → List Op → Type 0
LockOk none a ops = AllReleased a ops
LockOk (some p) a ops =
    (latest a ops ≡ some p)
    × ((o : Op) × (op_at p ops ≡ some o) × (o.agent ≡ a) × (o.phase ≢ released))

pub record IsSerial (s : Locks) : Type 0 where
  pub queue : IsQueue s.ops
  pub held : (a : String) → LockOk (lookup a s.locks) a s.ops

predecessor_lem :
    (q : Option ℕ) (a : String) (ops : List Op) → LockOk q a ops → IsPredecessor q a ops
predecessor_lem none a ops h = h
predecessor_lem (some p) a ops h = h.0

pub op_at-lt : (p : ℕ) (ops : List Op) (o : Op) → op_at p ops ≡ some o → p < length ops
op_at-lt p [] o h = absurd (ground arith)
op_at-lt p (x ∷ ops) o h = elim (Bool-cases (nat_eq p (length ops))) [
  | inl here ↦ ground arith
  | inr older ↦ let r = op_at-lt p ops o (ground arith) in omega arith
]

LockOk-newer :
    (q : Option ℕ) (a : String) (o : Op) (ops : List Op)
    → o.agent ≢ a
    → LockOk q a ops
    → LockOk q a (o ∷ ops)
LockOk-newer none a o ops other h = (inl other, h)
LockOk-newer (some p) a o ops other (newest, (x, found, mine, busy)) =
    let apart : (o.agent == a) ≡ false = elim (Bool-cases (o.agent == a)) [
      | inl same ↦ absurd (other ((eq_iff o.agent a).0 same))
      | inr differs ↦ differs
    ] in
    (rw apart newest, (x, op_at-older p o ops (op_at-lt p ops x found) ∙ found, mine, busy))

waiting-ne : waiting ≢ released
waiting-ne e = cc

running-ne : running ≢ released
running-ne e = cc

abbrev placed : String → Locks → Locks
placed agent s = record {
  locks = insert agent (length s.ops) s.locks;
  ops = (record { agent = agent; predecessor = lookup agent s.locks; phase = waiting }) ∷ s.ops;
}

newest_lem :
    (agent a : String) (o : Op) (ops : List Op)
    → agent ≡ a
    → o.agent ≡ agent
    → latest a (o ∷ ops) ≡ some (length ops)
newest_lem agent a o ops e f =
    let same : (o.agent == a) ≡ true = (eq_iff o.agent a).1 (f ∙ e) in rw same refl

pub op_at_head : (o : Op) (ops : List Op) → op_at (length ops) (o ∷ ops) ≡ some o
op_at_head o ops = ground arith

placed-held :
    (agent : String) (s : Locks)
    → IsSerial s
    → (a : String) → LockOk (lookup a (placed agent s).locks) a (placed agent s).ops
placed-held agent s serial a = elim (Bool-cases (agent == a)) [
  | inl same ↦
      let e : agent ≡ a = (eq_iff agent a).0 same in
      let o : Op = record { agent = agent; predecessor = lookup agent s.locks; phase = waiting } in
      let found : lookup a (placed agent s).locks ≡ some (length s.ops) =
        lookup-insert agent a (length s.ops) s.locks ∙ ground arith in
      subst (λ q. LockOk q a (o ∷ s.ops)) (sym found)
        (newest_lem agent a o s.ops e refl, (o, op_at_head o s.ops, e, waiting-ne))
  | inr other ↦
      let o : Op = record { agent = agent; predecessor = lookup agent s.locks; phase = waiting } in
      let kept : lookup a (placed agent s).locks ≡ lookup a s.locks =
        lookup-insert agent a (length s.ops) s.locks ∙ ground arith in
      subst (λ q. LockOk q a (o ∷ s.ops)) (sym kept)
        (LockOk-newer (lookup a s.locks) a o s.ops (ne_of_false agent a other) (serial.held a))
]

pub acquire-IsSerial : (agent : String) (s : Locks) → IsSerial s → IsSerial (acquire agent s)
unfolding acquire
acquire-IsSerial agent s serial = elim (Bool-cases (is_empty (trim agent))) [
  | inl blank ↦ rw blank serial
  | inr given ↦ rw given (record {
    queue = (
      (predecessor_lem (lookup agent s.locks) agent s.ops (serial.held agent), inl refl),
      serial.queue,
    );
    held = placed-held agent s serial;
  })
]

-- A phase is set and the entry stays.
pub LockOk-set_phase :
    (q : Option ℕ) (a : String) (t : ℕ) (ph : Phase) (ops : List Op)
    → Grants t ph ops
    → ((p : ℕ) → q ≡ some p → (p ≢ t) ⊎ (ph ≢ released))
    → LockOk q a ops
    → LockOk q a (set_phase t ph ops)
LockOk-set_phase none a t ph ops g apart h = AllReleased-set_phase a t ph ops g h
LockOk-set_phase (some p) a t ph ops g apart (newest, (o, found, mine, busy)) = (
  latest-set_phase a t ph ops ∙ newest,
  elim (Bool-cases (nat_eq p t)) [
    | inl same ↦
        let e : p ≡ t = ground arith in
        let now = op_at-set_phase_self t ph ops o (ap (λ n. op_at n ops) (sym e) ∙ found) in
        (
          record o { phase = ph },
          ap (λ n. op_at n (set_phase t ph ops)) e ∙ now,
          mine,
          elim (apart p refl) [ inl differs ↦ absurd (differs e) | inr held ↦ held ],
        )
    | inr differs ↦ (o, op_at-set_phase p t ph ops (λ e. absurd (ground arith)) ∙ found, mine, busy)
  ],
)

pub begin-IsSerial : (t : ℕ) (s : Locks) → IsSerial s → IsSerial (begin t s)
unfolding begin
begin-IsSerial t s serial = elim (Option-cases (op_at t s.ops)) [
  | inl missing ↦ rw missing serial
  | inr (o, found) ↦ elim (Bool-cases (is_waiting o.phase && may_run o.predecessor s.ops)) [
    | inl free ↦
        let grants : Grants t running s.ops = inr (o, found, ground arith) in
        let clear =
          may_run-Cleared t s.ops s.ops o serial.queue found (ground arith) (λ p k. refl) in
        rw found (
          rw free (record {
            queue = IsQueue-set_phase t running s.ops serial.queue grants clear;
            held = λ a.
                LockOk-set_phase (lookup a s.locks) a t running s.ops grants (λ p e. inr running-ne)
                  (serial.held a);
          }))
    | inr busy ↦ rw found (rw busy serial)
  ]
]
