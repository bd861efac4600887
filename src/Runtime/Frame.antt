-- ===== src/Runtime/Frame.antt =====
-- A rule for each construct of the manager's code, for a relation between the machine before and
-- after that hosts and log lines do not touch.
use dsh_chaos.Common.{String, Bool, true, false, ◌≡◌, inl, inr, arith, if◌then◌else◌}
use dsh_chaos.Common.Results.{Result, ok, Result-cases}
use dsh_chaos.Runtime.Host.{
  Manager, Machine, M, pure, fail, ◌>>=◌, try_catch, require, call, throw_of, manager_of,
  set_manager, warn, monad,
}

pub record IsPreorder (R : Manager → Manager → Type 0) : Type 0 where
  pub same : (m : Manager) → R m m
  pub trans : (m n p : Manager) → R m n → R n p → R m p

-- Every run of `m` stays within `R`.
pub record Within {W A : Type 0} (R : Manager → Manager → Type 0) (m : M W A) : Type 0 where
  pub apply : (s : Machine W) → R s.manager (m s).1.manager

module _ {W : Type 0} where
  module _ {R : Manager → Manager → Type 0} (order : IsPreorder R) where
    pub pure-Within : {A : Type 0} (a : A) → Within R (pure {W = W} a)
    unfolding monad
    pure-Within a = record { apply = λ s. order.same s.manager }

    pub fail-Within : {A : Type 0} (e : String) → Within R (fail {W = W} {A = A} e)
    unfolding monad
    fail-Within e = record { apply = λ s. order.same s.manager }

    pub call-Within : {A : Type 0} (c : W → Result A × W) → Within R (call c)
    unfolding monad
    call-Within c = record { apply = λ s. order.same s.manager }

    pub throw_of-Within : {A : Type 0} (r : Result A) → Within R (throw_of {W = W} r)
    unfolding monad
    throw_of-Within r = record { apply = λ s. order.same s.manager }

    pub manager_of-Within : Within R (manager_of {W = W})
    unfolding monad
    manager_of-Within = record { apply = λ s. order.same s.manager }

    pub warn-Within : (text : String) → Within R (warn {W = W} text)
    unfolding monad
    warn-Within text = record { apply = λ s. order.same s.manager }

    pub require-Within : (b : Bool) (e : String) → Within R (require {W = W} b e)
    unfolding monad
    require-Within true e = record { apply = λ s. order.same s.manager }
    require-Within false e = record { apply = λ s. order.same s.manager }

    pub bind-Within :
        {A B : Type 0} {m : M W A} {f : A → M W B}
        → Within R m
        → ((a : A) → Within R (f a))
        → Within R (m >>= f)
    unfolding monad
    bind-Within {m} {f} h k = record {
      apply = λ s. elim (Result-cases (m s).0) [
        | inl (a, e) ↦ rw (e, ◌>>=◌) (order.trans _ _ _ (h.apply s) ((k a).apply (m s).1))
        | inr (message, e) ↦ rw (e, ◌>>=◌) (h.apply s)
      ];
    }

    pub try_catch-Within :
        {A : Type 0} {m : M W A} {f : String → M W A}
        → Within R m
        → ((e : String) → Within R (f e))
        → Within R (try_catch m f)
    unfolding monad
    try_catch-Within {m} {f} h k = record {
      apply = λ s. elim (Result-cases (m s).0) [
        | inl (a, e) ↦ rw (e, try_catch) (h.apply s)
        | inr (message, e) ↦
            rw (e, try_catch) (order.trans _ _ _ (h.apply s) ((k message).apply (m s).1))
      ];
    }

    -- A read of the manager, followed by a write of what it stands in the relation to.
    pub update-Within :
        {f : Manager → Manager}
        → ((m : Manager) → R m (f m))
        → Within R (manager_of {W = W} >>= λ m. set_manager (f m))
    unfolding monad
    update-Within h = record { apply = λ s. h s.manager }

    pub if-Within :
        {A : Type 0} (b : Bool) {m n : M W A}
        → Within R m
        → Within R n
        → Within R (if b then m else n)
    if-Within true h k = h
    if-Within false h k = k

  pub ruleset frame = (
    pure-Within, fail-Within, call-Within, throw_of-Within, manager_of-Within, warn-Within,
    require-Within, bind-Within, try_catch-Within, if-Within,
  )

-- Where `m` returns, `Q` holds of what it returns and of the manager then.
pub record Ensures {W A : Type 0} (Q : A → Manager → Type 0) (m : M W A) : Type 0 where
  pub apply : (s : Machine W) (a : A) → (m s).0 ≡ ok a → Q a (m s).1.manager

module _ {W A : Type 0} {Q : A → Manager → Type 0} where
  pub fail-Ensures : (e : String) → Ensures Q (fail {W = W} e)
  unfolding monad
  fail-Ensures e = record { apply = λ s a h. absurd (ground arith) }

  pub bind-Ensures :
      {B : Type 0} (m : M W B) (f : B → M W A) → ((b : B) → Ensures Q (f b)) → Ensures Q (m >>= f)
  unfolding monad
  bind-Ensures m f k = record {
    apply = λ s a h. elim (Result-cases (m s).0) [
      | inl (b, e) ↦ rw (e, ◌>>=◌) ((k b).apply (m s).1 a (rw (e, ◌>>=◌) at h))
      | inr (message, e) ↦ absurd (ground arith)
    ];
  }

  pub try_catch-Ensures :
      (m : M W A) (f : String → M W A)
      → Ensures Q m
      → ((e : String) → Ensures Q (f e))
      → Ensures Q (try_catch m f)
  unfolding monad
  try_catch-Ensures m f k l = record {
    apply = λ s a h. elim (Result-cases (m s).0) [
      | inl (b, e) ↦ rw (e, try_catch) (k.apply s a (ground arith))
      | inr (message, e) ↦ rw (e, try_catch) ((l message).apply (m s).1 a (rw (e, try_catch) at h))
    ];
  }

pub ruleset outcomes = (fail-Ensures, bind-Ensures, try_catch-Ensures)
