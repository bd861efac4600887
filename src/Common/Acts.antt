-- ===== src/Common/Acts.antt =====
-- Code that runs on an outer state and may throw.
use dsh_chaos.Common.Results.{Result, ok, throws, Result-cases}
use mathlib.Core.Path.{◌≡◌, refl}
use mathlib.Core.Logic.{inl, inr}
use native.Mathlib.Omega.{arith}
use Prim.Native.String.{String}
use mathlib.Core.Bool.{Bool, true, false}

abbrev pub Act : Type 0 → Type 0 → Type 0
Act W A = W → Result A × W

unfoldable pub give : {W A : Type 0} → A → Act W A
give a w = (ok a, w)

unfoldable pub refuse : {W A : Type 0} → String → Act W A
refuse e w = (throws e, w)

infixl 5 ◌>>=◌ ◌>>◌
unfoldable pub ◌>>=◌ : {W A B : Type 0} → Act W A → (A → Act W B) → Act W B
◌>>=◌ m f w = elim (m w).0 [ ok a ↦ f a (m w).1 | throws e ↦ (throws e, (m w).1) ]

abbrev pub ◌>>◌ : {W B : Type 0} → Act W (Unit {0}) → Act W B → Act W B
m >> k = m >>= λ _. k

-- `if (!test) throw new Error(message)`.
unfoldable pub demand : {W : Type 0} → Bool → String → Act W (Unit {0})
demand true e w = (ok tt, w)
demand false e w = (throws e, w)

unfoldable pub of_result : {W A : Type 0} → Result A → Act W A
of_result r w = (r, w)

-- `try { return act } finally { cleanup }`, where the cleanup throws or leaves the outcome.
unfoldable pub finally_do : {W A : Type 0} → Act W A → Act W (Unit {0}) → Act W A
finally_do act cleanup w = elim (cleanup (act w).1).0 [
  | ok _ ↦ ((act w).0, (cleanup (act w).1).1)
  | throws e ↦ (throws e, (cleanup (act w).1).1)
]

-- `try { return act } catch (error) { return handler(error) }`.
unfoldable pub catch_with : {W A : Type 0} → Act W A → (String → Act W A) → Act W A
catch_with act handler w = elim (act w).0 [
  | ok a ↦ (ok a, (act w).1)
  | throws e ↦ handler e (act w).1
]

-- The constructs together, for the proofs that run code.
unfoldable pub acting : Unit {0}
unfolding give refuse ◌>>=◌ demand of_result finally_do catch_with
acting = tt

-- What a chain that returns has passed.
module _ {W A B : Type 0} where
  pub bind-eq-ok :
      (m : Act W A) (f : A → Act W B) (w : W) (b : B)
      → ((m >>= f) w).0 ≡ ok b
      → (a : A) × ((m w).0 ≡ ok a) × ((f a (m w).1).0 ≡ ok b)
  unfolding acting
  bind-eq-ok m f w b h = elim (Result-cases (m w).0) [
    | inl (a, e) ↦ (a, e, ground arith)
    | inr (e, failed) ↦ absurd (ground arith)
  ]

  pub bind_at :
      (m : Act W A) (f : A → Act W B) (w : W) (a : A) → (m w).0 ≡ ok a → (m >>= f) w ≡ f a (m w).1
  unfolding acting
  bind_at m f w a h = ground arith

  -- A step that throws ends the run.
  pub bind_throws :
      (m : Act W A) (f : A → Act W B) (w v : W) (e : String)
      → m w ≡ (throws e, v)
      → (m >>= f) w ≡ (throws e, v)
  unfolding acting
  bind_throws m f w v e h = ground arith

  pub bind_ok :
      (m : Act W A) (f : A → Act W B) (w v : W) (a : A) → m w ≡ (ok a, v) → (m >>= f) w ≡ f a v
  unfolding acting
  bind_ok m f w v a h = ground arith

  pub of_result-eq-ok :
      (r : Result A) (f : A → Act W B) (w : W) (b : B)
      → ((of_result r >>= f) w).0 ≡ ok b
      → (a : A) × (r ≡ ok a) × ((f a w).0 ≡ ok b)
  unfolding acting
  of_result-eq-ok (ok a) f w b h = (a, refl, h)
  of_result-eq-ok (throws e) f w b h = cc

module _ {W B : Type 0} where
  pub demand-eq-ok :
      (test : Bool) (e : String) (f : Unit {0} → Act W B) (w : W) (b : B)
      → ((demand test e >>= f) w).0 ≡ ok b
      → (test ≡ true) × ((f tt w).0 ≡ ok b)
  unfolding acting
  demand-eq-ok true e f w b h = (refl, h)
  demand-eq-ok false e f w b h = cc

  pub give-eq-ok : (a b : B) (w : W) → (give a w).0 ≡ ok b → a ≡ b
  unfolding acting
  give-eq-ok a b w h = ground arith

pub finally_do-eq-ok :
    {W A : Type 0} (act : Act W A) (cleanup : Act W (Unit {0})) (w : W) (a : A)
    → (finally_do act cleanup w).0 ≡ ok a
    → (act w).0 ≡ ok a
unfolding acting
finally_do-eq-ok act cleanup w a h = elim (Result-cases (cleanup (act w).1).0) [
  | inl (u, e) ↦ ground arith
  | inr (e, failed) ↦ absurd (ground arith)
]
