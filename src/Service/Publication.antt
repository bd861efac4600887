-- ===== src/Service/Publication.antt =====
-- When a change is published.
use dsh_chaos.Common.{ℕ, ◌+◌, String, List, [], ◌∷◌, ◌≡◌, refl, ◌∙◌, ◌⊎◌, inl, inr, arith}
use dsh_chaos.Common.Results.{Result, ok, throws, Result-cases}
use dsh_chaos.Common.Acts.{Act, give, refuse, ◌>>=◌, ◌>>◌, of_result, acting}
use dsh_chaos.Runtime.Host.{M}
use dsh_chaos.Service.Core.{Platform}
use dsh_chaos.Service.State.{
  Service, require_handle, outside, require_runtimes, warn, heard, notify_each, publish_change,
  published,
}

-- The publications counted so far.
abbrev pub so_far : {W : Type 0} → Service W → ℕ
so_far s = s.publications

-- Nothing is published.
pub record Quiet {W A : Type 0} (m : Act (Service W) A) : Type 0 where
  pub quiet : (s : Service W) → so_far (m s).1 ≡ so_far s

-- One publication where it returns, and none where it throws.
pub record Announces {W A : Type 0} (m : Act (Service W) A) : Type 0 where
  pub announces :
      (s : Service W)
      → ((a : A) × ((m s).0 ≡ ok a) × (so_far (m s).1 ≡ so_far s + 1))
        ⊎ ((e : String) × ((m s).0 ≡ throws e) × (so_far (m s).1 ≡ so_far s))

module _ {W : Type 0} where
  pub give-Quiet : {A : Type 0} (a : A) → Quiet {W = W} (give a)
  unfolding acting
  give-Quiet a = record { quiet = λ s. refl }

  pub refuse-Quiet : {A : Type 0} (e : String) → Quiet {W = W} {A = A} (refuse e)
  unfolding acting
  refuse-Quiet e = record { quiet = λ s. refl }

  pub of_result-Quiet : {A : Type 0} (r : Result A) → Quiet {W = W} (of_result r)
  unfolding acting
  of_result-Quiet r = record { quiet = λ s. refl }

  pub require_handle-Quiet : {A : Type 0} (c : Act W A) → Quiet (require_handle c)
  unfolding require_handle
  require_handle-Quiet c = record { quiet = λ s. ground arith }

  pub outside-Quiet : {A : Type 0} (c : Act W A) → Quiet (outside c)
  unfolding outside
  outside-Quiet c = record { quiet = λ s. refl }

  pub warn-Quiet : (text : String) → Quiet {W = W} (warn text)
  unfolding warn
  warn-Quiet text = record { quiet = λ s. refl }

  pub require_runtimes-Quiet : {A : Type 0} (m : M W A) → Quiet (require_runtimes m)
  unfolding require_runtimes
  require_runtimes-Quiet m = record { quiet = λ s. ground arith }

  pub bind-Quiet :
      {A B : Type 0} (m : Act (Service W) A) (f : A → Act (Service W) B)
      → Quiet m
      → ((a : A) → Quiet (f a))
      → Quiet (m >>= f)
  unfolding acting
  bind-Quiet m f first next = record {
    quiet = λ s. elim (Result-cases (m s).0) [
      | inl (a, e) ↦ ground (arith, first.quiet s, (next a).quiet (m s).1)
      | inr (e, failed) ↦ ground (arith, first.quiet s)
    ];
  }

  -- A quiet start of a run that announces.
  pub bind-Announces :
      {A B : Type 0} (m : Act (Service W) A) (f : A → Act (Service W) B)
      → Quiet m
      → ((a : A) → Announces (f a))
      → Announces (m >>= f)
  unfolding acting
  bind-Announces m f first next = record {
    announces = λ s. elim (Result-cases (m s).0) [
      | inl (a, e) ↦ elim ((next a).announces (m s).1) [
        | inl (b, done, more) ↦ inl (b, ground arith, ground (arith, first.quiet s))
        | inr (x, failed, same) ↦ inr (x, ground arith, ground (arith, first.quiet s))
      ]
      | inr (e, failed) ↦ inr (e, ground arith, ground (arith, first.quiet s))
    ];
  }

  module _ (platform : Platform W) where
    heard-so_far :
        (s : Service W) (x : (Result (Unit {0}) × List ℕ) × W)
        → so_far (heard platform s x) ≡ so_far s
    heard-so_far s ((ok u, ls), w) = refl
    heard-so_far s ((throws e, ls), w) = refl

    notify_each-so_far :
        (ls : List ℕ) (s : Service W) → so_far (notify_each platform ls s) ≡ so_far s
    unfolding notify_each
    notify_each-so_far [] s = refl
    notify_each-so_far (l ∷ ls) s =
        let x = platform.notify l s.listeners s.world in
        notify_each-so_far ls (heard platform s x) ∙ heard-so_far s x

    pub publish_change-Announces : Announces (publish_change platform)
    unfolding publish_change
    publish_change-Announces = record {
      announces = λ s. inl (
        tt,
        refl,
        notify_each-so_far s.listeners (record s { publications = s.publications + 1 }),
      );
    }

    -- The publication, and then an answer.
    pub publish-Announces : {A : Type 0} (a : A) → Announces (publish_change platform >> give a)
    unfolding publish_change acting
    publish-Announces a = record {
      announces = λ s. inl (
        a,
        refl,
        notify_each-so_far s.listeners (record s { publications = s.publications + 1 }),
      );
    }

    pub published-Announces :
        {A : Type 0} (m : Act (Service W) A) → Quiet m → Announces (published platform m)
    unfolding published
    published-Announces m h = bind-Announces m _ h (λ a. publish-Announces a)
