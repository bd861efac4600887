-- ===== src/Runtime/Queue.antt =====
-- The operations on one Agent run one at a time, in the order of the calls.
use dsh_chaos.Common.{
  ℕ, ◌<◌, String, true, false, Option, none, some, List, [], ◌∷◌, length, All, ◌≡◌, ◌≢◌, refl, sym,
  ap, ◌∙◌, subst, ◌⊎◌, inl, inr, arith, Bool-cases, nat_eq, eq_iff, ◌==◌, if◌then◌else◌,
}
use dsh_chaos.Runtime.Locks.{Phase, waiting, released, Op, op_at, set_phase, is_released, may_run}

-- Every operation on this Agent has been released.
abbrev pub AllReleased : String → List Op → Type 0
AllReleased a ops = All (λ o. (o.agent ≢ a) ⊎ (o.phase ≡ released)) ops

-- The newest operation on an Agent.
abbrev pub latest : String → List Op → Option ℕ
latest a [] = none
latest a (o ∷ ops) = if o.agent == a then some (length ops) else latest a ops

abbrev pub IsPredecessor : Option ℕ → String → List Op → Type 0
IsPredecessor none a ops = AllReleased a ops
IsPredecessor (some p) a ops = latest a ops ≡ some p

-- Each operation awaits the newest one before it, and has begun only when all before it were released.
abbrev pub IsQueue : List Op → Type 0
IsQueue [] = Unit
IsQueue (o ∷ ops) =
    (IsPredecessor o.predecessor o.agent ops × ((o.phase ≡ waiting) ⊎ AllReleased o.agent ops))
    × IsQueue ops

pub latest-lt : (a : String) (ops : List Op) (p : ℕ) → latest a ops ≡ some p → p < length ops
latest-lt a [] p h = absurd (ground arith)
latest-lt a (o ∷ ops) p h = elim (Bool-cases (o.agent == a)) [
  | inl same ↦ ground arith
  | inr other ↦ let r = latest-lt a ops p (ground arith) in omega arith
]

pub op_at-older :
    (p : ℕ) (o : Op) (ops : List Op) → p < length ops → op_at p (o ∷ ops) ≡ op_at p ops
op_at-older p o ops h = ground arith

pub length-set_phase :
    (t : ℕ) (ph : Phase) (ops : List Op) → length (set_phase t ph ops) ≡ length ops
length-set_phase t ph [] = refl
length-set_phase t ph (o ∷ ops) = ground (arith, length-set_phase t ph ops)

pub latest-set_phase :
    (a : String) (t : ℕ) (ph : Phase) (ops : List Op) → latest a (set_phase t ph ops) ≡ latest a ops
latest-set_phase a t ph [] = refl
latest-set_phase a t ph (o ∷ ops) =
    ground (arith, latest-set_phase a t ph ops, length-set_phase t ph ops)

head_released :
    (o : Op) (ops : List Op)
    → is_released (op_at (length ops) (o ∷ ops)) ≡ true
    → o.phase ≡ released
head_released o ops h = ground arith

begun_lem :
    (o : Op) (ops : List Op)
    → (o.phase ≡ waiting) ⊎ AllReleased o.agent ops
    → o.phase ≢ waiting
    → AllReleased o.agent ops
begun_lem o ops (inl h) k = absurd (k h)
begun_lem o ops (inr h) k = h

pub ne_of_false : (s t : String) → (s == t) ≡ false → s ≢ t
ne_of_false s t h e = let k : (s == t) ≡ true = (eq_iff s t).1 e in cc

-- The newest operation is released, and with it all the others.
latest_released :
    (a : String) (ops : List Op) (p : ℕ)
    → IsQueue ops
    → latest a ops ≡ some p
    → is_released (op_at p ops) ≡ true
    → AllReleased a ops
latest_released a [] p q h k = tt
latest_released a (o ∷ ops) p ((pred, begun), q) h k = elim (Bool-cases (o.agent == a)) [
  | inl same ↦
      let here : p ≡ length ops = ground arith in
      let free : o.phase ≡ released =
        head_released o ops (ap (λ n. is_released (op_at n (o ∷ ops))) (sym here) ∙ k) in
      let mine : o.agent ≡ a = (eq_iff o.agent a).0 same in
      (
        inr free,
        subst (λ b. AllReleased b ops) mine
            (begun_lem o ops begun (λ e. let x : released ≡ waiting = sym free ∙ e in cc)),
      )
  | inr other ↦
      let next : latest a ops ≡ some p = ground arith in
      let older = op_at-older p o ops (latest-lt a ops p next) in
      (
        inl (λ e. absurd (ne_of_false o.agent a other e)),
        latest_released a ops p q next (ap is_released (sym older) ∙ k),
      )
]

-- What an operation may be set to: released, or running where it may run.
abbrev pub Grants : ℕ → Phase → List Op → Type 0
Grants t ph ops = (ph ≡ released) ⊎ ((o : Op) × (op_at t ops ≡ some o) × (o.phase ≡ waiting))

Grants-older :
    (t : ℕ) (ph : Phase) (o : Op) (ops : List Op)
    → nat_eq t (length ops) ≡ false
    → Grants t ph (o ∷ ops)
    → Grants t ph ops
Grants-older t ph o ops other (inl h) = inl h
Grants-older t ph o ops other (inr (x, found, h)) = inr (x, ground arith, h)

granted :
    (a : String) (t : ℕ) (ph : Phase) (o : Op) (ops : List Op)
    → nat_eq t (length ops) ≡ true
    → Grants t ph (o ∷ ops)
    → (o.agent ≢ a) ⊎ (o.phase ≡ released)
    → (o.agent ≢ a) ⊎ (ph ≡ released)
granted a t ph o ops here g (inl other) = inl other
granted a t ph o ops here (inl free) (inr done) = inr free
granted a t ph o ops here (inr (x, found, waits)) (inr done) = absurd (ground arith)

pub AllReleased-set_phase :
    (a : String) (t : ℕ) (ph : Phase) (ops : List Op)
    → Grants t ph ops
    → AllReleased a ops
    → AllReleased a (set_phase t ph ops)
AllReleased-set_phase a t ph [] g h = tt
AllReleased-set_phase a t ph (o ∷ ops) g (one, h) = elim (Bool-cases (nat_eq t (length ops))) [
  | inl here ↦ rw here (granted a t ph o ops here g one, h)
  | inr older ↦
      let rest = AllReleased-set_phase a t ph ops (Grants-older t ph o ops older g) h in
      rw older (one, rest)
]

pub op_at-set_phase :
    (p t : ℕ) (ph : Phase) (ops : List Op) → p ≢ t → op_at p (set_phase t ph ops) ≡ op_at p ops
op_at-set_phase p t ph [] h = refl
op_at-set_phase p t ph (o ∷ ops) h =
    ground (arith, op_at-set_phase p t ph ops h, length-set_phase t ph ops)

pub op_at-set_phase_self :
    (t : ℕ) (ph : Phase) (ops : List Op) (o : Op)
    → op_at t ops ≡ some o
    → op_at t (set_phase t ph ops) ≡ some (record o { phase = ph })
op_at-set_phase_self t ph [] o h = absurd (ground arith)
op_at-set_phase_self t ph (x ∷ ops) o h =
    ground (arith, op_at-set_phase_self t ph ops o, length-set_phase t ph ops)

-- All before this operation on its Agent were released.
abbrev pub Cleared : ℕ → List Op → Type 0
Cleared t [] = Unit
Cleared t (o ∷ ops) = if nat_eq t (length ops) then AllReleased o.agent ops else Cleared t ops

IsPredecessor-set_phase :
    (t : ℕ) (ph : Phase) (q : Option ℕ) (a : String) (ops : List Op)
    → Grants t ph ops
    → IsPredecessor q a ops
    → IsPredecessor q a (set_phase t ph ops)
IsPredecessor-set_phase t ph none a ops g h = AllReleased-set_phase a t ph ops g h
IsPredecessor-set_phase t ph (some p) a ops g h = latest-set_phase a t ph ops ∙ h

begun-set_phase :
    (t : ℕ) (ph : Phase) (o : Op) (ops : List Op)
    → Grants t ph ops
    → (o.phase ≡ waiting) ⊎ AllReleased o.agent ops
    → (o.phase ≡ waiting) ⊎ AllReleased o.agent (set_phase t ph ops)
begun-set_phase t ph o ops g (inl h) = inl h
begun-set_phase t ph o ops g (inr h) = inr (AllReleased-set_phase o.agent t ph ops g h)

pub IsQueue-set_phase :
    (t : ℕ) (ph : Phase) (ops : List Op)
    → IsQueue ops
    → Grants t ph ops
    → Cleared t ops
    → IsQueue (set_phase t ph ops)
IsQueue-set_phase t ph [] q g c = tt
IsQueue-set_phase t ph (o ∷ ops) ((pred, begun), q) g c =
    elim (Bool-cases (nat_eq t (length ops))) [
      | inl here ↦
          let clear : AllReleased o.agent ops =
            subst (λ b. if b then AllReleased o.agent ops else Cleared t ops) here c in
          rw here ((pred, inr clear), q)
      | inr older ↦
          let down = Grants-older t ph o ops older g in
          let clear : Cleared t ops =
            subst (λ b. if b then AllReleased o.agent ops else Cleared t ops) older c in
          rw older (
            (
              IsPredecessor-set_phase t ph o.predecessor o.agent ops down pred,
              begun-set_phase t ph o ops down begun,
            ),
            IsQueue-set_phase t ph ops q down clear,
          )
    ]

-- An operation that runs is cleared.
pub running-Cleared :
    (t : ℕ) (ops : List Op) (o : Op)
    → IsQueue ops
    → op_at t ops ≡ some o
    → o.phase ≢ waiting
    → Cleared t ops
running-Cleared t [] o q found h = tt
running-Cleared t (x ∷ ops) o ((pred, begun), q) found h =
    elim (Bool-cases (nat_eq t (length ops))) [
      | inl here ↦
          let same : x.phase ≡ o.phase = ground arith in
          rw here (begun_lem x ops begun (λ e. h (sym same ∙ e)))
      | inr older ↦ rw older (running-Cleared t ops o q (ground arith) h)
    ]

may_run_older :
    (q : Option ℕ) (a : String) (o : Op) (ops older : List Op)
    → IsPredecessor q a older
    → may_run q ops ≡ true
    → ((p : ℕ) → p < length older → op_at p ops ≡ op_at p older)
    → IsQueue older
    → AllReleased a older
may_run_older none a o ops older pred h same q = pred
may_run_older (some p) a o ops older pred h same q =
    latest_released a older p q pred (ap is_released (sym (same p (latest-lt a older p pred))) ∙ h)

-- So is one whose predecessor was released; `ops` are all operations, `older` some last ones.
pub may_run-Cleared :
    (t : ℕ) (ops older : List Op) (o : Op)
    → IsQueue older
    → op_at t older ≡ some o
    → may_run o.predecessor ops ≡ true
    → ((p : ℕ) → p < length older → op_at p ops ≡ op_at p older)
    → Cleared t older
may_run-Cleared t ops [] o q found h same = tt
may_run-Cleared t ops (x ∷ older) o ((pred, begun), q) found h same =
    let within : (p : ℕ) → p < length older → op_at p ops ≡ op_at p older =
      λ p k. same p (omega (arith, k)) ∙ op_at-older p x older k in
    elim (Bool-cases (nat_eq t (length older))) [
      | inl here ↦
          let awaited : x.predecessor ≡ o.predecessor = ground arith in
          rw here (
            may_run_older x.predecessor x.agent x ops older pred
              (ap (λ r. may_run r ops) awaited ∙ h) within q)
      | inr earlier ↦ rw earlier (may_run-Cleared t ops older o q (ground arith) h within)
    ]
