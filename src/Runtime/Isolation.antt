-- ===== src/Runtime/Isolation.antt =====
-- An operation on one Agent leaves the leases of all others alone.
use dsh_chaos.Common.{
  String, Option, none, some, ◌≡◌, ◌≢◌, inl, inr, refl, ◌∙◌, arith, eq_iff, Option-cases,
}
use dsh_chaos.Common.Maps.{Map, lookup, insert, delete, lookup-insert, lookup-delete}
use dsh_chaos.Wire.{Profile, RuntimeBinding}
use dsh_chaos.Runtime.Host.{Agent, Host, Lease, Manager, Machine, M, monad}
use dsh_chaos.Common.Results.{Result-cases}
use dsh_chaos.Runtime.Frame.{Within, IsPreorder, frame}
use dsh_chaos.Runtime.Manager.{dispose_lease, assert_active, require_text}
use dsh_chaos.Runtime.Lifecycle.{
  CreateInput, Prepared, prepare_runtime, create_prepared, prepare_identity, resolve_preset,
  activate, reset, create, resume, stop, resume_locked, binding_to_resume, republish, repin_preset,
  require_current, recover, publish, dispose_failed,
}
use dsh_chaos.Runtime.Leases.{
  SameActive, prepare_runtime-SameActive, prepare_identity-SameActive, assert_active-SameActive,
  resolve_preset-SameActive,
}

abbrev pub SameElsewhere : String → Manager → Manager → Type 0
SameElsewhere id m n = (other : String) → id ≢ other → lookup other n.active ≡ lookup other m.active

SameElsewhere-IsPreorder : (id : String) → IsPreorder (SameElsewhere id)
SameElsewhere-IsPreorder id = record {
  same = λ m other ne. refl;
  trans = λ m n p h k other ne. k other ne ∙ h other ne;
}

delete-SameElsewhere :
    (id : String) (m : Map Lease) (other : String)
    → id ≢ other
    → lookup other (delete id m) ≡ lookup other m
delete-SameElsewhere id m other ne = ground (arith, eq_iff id other, lookup-delete id other m)

insert-SameElsewhere :
    (id : String) (l : Lease) (m : Map Lease) (other : String)
    → id ≢ other
    → lookup other (insert id l m) ≡ lookup other m
insert-SameElsewhere id l m other ne = ground (arith, eq_iff id other, lookup-insert id other l m)

module _ {W : Type 0} (host : Host W) where
  dispose_lease-SameElsewhere : (id : String) → Within (SameElsewhere id) (dispose_lease host id)
  unfolding dispose_lease monad
  dispose_lease-SameElsewhere id = record {
    apply = λ s other ne. elim (Option-cases (lookup id s.active)) [
      | inl e ↦ ground arith
      | inr (lease, e) ↦ elim (Result-cases (host.dispose lease.agent s.world).0) [
        | inl (x, f) ↦ ground (arith, delete-SameElsewhere id s.active other ne)
        | inr (m, f) ↦ ground (
          arith,
          delete-SameElsewhere id s.active other ne,
          insert-SameElsewhere id lease (delete id s.active) other ne,
        )
      ]
    ];
  }

  activate-SameElsewhere :
      (id : String) (b : RuntimeBinding) (a : Agent)
      → Within (SameElsewhere id) (activate host id b a)
  unfolding activate monad
  activate-SameElsewhere id b a = record {
    apply = λ s other ne. insert-SameElsewhere id _ s.active other ne;
  }

  weaken :
      {A : Type 0} {m : M W A} (id : String) → Within SameActive m → Within (SameElsewhere id) m
  weaken {m} id w = record { apply = λ s other ne. rw (w.apply s) refl }

  create_prepared-SameElsewhere :
      (input : CreateInput) (p : Prepared)
      → Within (SameElsewhere input.agent_id) (create_prepared host input p)
  unfolding create_prepared publish dispose_failed
  create_prepared-SameElsewhere input p =
      search
        (
          frame,
          SameElsewhere-IsPreorder input.agent_id,
          dispose_lease-SameElsewhere,
          activate-SameElsewhere,
        )
        depth 12

  binding_to_resume-SameActive :
      (id : String) (expected : Option RuntimeBinding)
      → Within SameActive (binding_to_resume host id expected)
  unfolding binding_to_resume monad
  binding_to_resume-SameActive id expected = record { apply = λ s. ground arith }

  republish-SameElsewhere :
      (id : String) (b : RuntimeBinding) (p : String) (a : Agent)
      → Within (SameElsewhere id) (republish host id b p a)
  unfolding republish repin_preset require_current
  republish-SameElsewhere id b p a =
      search (frame, SameElsewhere-IsPreorder id, activate-SameElsewhere) depth 8

  assert_active-SameElsewhere : (id : String) → Within (SameElsewhere id) (assert_active {W = W})
  assert_active-SameElsewhere id = weaken id (assert_active-SameActive host)

  binding_to_resume-SameElsewhere :
      (id : String) (expected : Option RuntimeBinding)
      → Within (SameElsewhere id) (binding_to_resume host id expected)
  binding_to_resume-SameElsewhere id expected = weaken id (binding_to_resume-SameActive id expected)

  resolve_preset-SameElsewhere : (id p : String) → Within (SameElsewhere id) (resolve_preset host p)
  resolve_preset-SameElsewhere id p = weaken id (resolve_preset-SameActive host p)

  prepare_identity-SameElsewhere :
      (id path : String) (i : Profile) → Within (SameElsewhere id) (prepare_identity host path i)
  prepare_identity-SameElsewhere id path i = weaken id (prepare_identity-SameActive host path i)

  prepare_runtime-SameElsewhere :
      (id : String) (input : CreateInput) → Within (SameElsewhere id) (prepare_runtime host input)
  prepare_runtime-SameElsewhere id input = weaken id (prepare_runtime-SameActive host input)

  resume_locked-SameElsewhere :
      (id : String) (expected : Option RuntimeBinding)
      → Within (SameElsewhere id) (resume_locked host id expected)
  unfolding resume_locked dispose_failed
  resume_locked-SameElsewhere id expected =
      search
        (
          frame,
          SameElsewhere-IsPreorder id,
          assert_active-SameElsewhere,
          binding_to_resume-SameElsewhere,
          resolve_preset-SameElsewhere,
          prepare_identity-SameElsewhere,
          dispose_lease-SameElsewhere,
          republish-SameElsewhere,
        )
        depth 12

  recover-SameElsewhere :
      (id : String) (current : Option RuntimeBinding) (e : String)
      → Within (SameElsewhere id) (recover host id current e)
  unfolding recover
  recover-SameElsewhere id none e = search (frame, SameElsewhere-IsPreorder id)
  recover-SameElsewhere id (some c) e =
      search (frame, SameElsewhere-IsPreorder id, resume_locked-SameElsewhere) depth 8

  -- Creating, replacing, resuming or stopping the Session of one Agent leaves the leases of every
  -- other Agent as they were, whether it succeeds or fails.
  create-SameElsewhere :
      (input : CreateInput) → Within (SameElsewhere input.agent_id) (create host input)
  unfolding create require_text
  create-SameElsewhere input =
      search
        (
          frame,
          SameElsewhere-IsPreorder input.agent_id,
          prepare_runtime-SameElsewhere,
          create_prepared-SameElsewhere,
        )
        depth 8

  reset-SameElsewhere :
      (input : CreateInput) (g : Option String)
      → Within (SameElsewhere input.agent_id) (reset host input g)
  unfolding reset require_text
  reset-SameElsewhere input g =
      search
        (
          frame,
          SameElsewhere-IsPreorder input.agent_id,
          assert_active-SameElsewhere,
          prepare_runtime-SameElsewhere,
          create_prepared-SameElsewhere,
          recover-SameElsewhere,
        )
        depth 10

  resume-SameElsewhere : (id : String) → Within (SameElsewhere id) (resume host id)
  unfolding resume require_text
  resume-SameElsewhere id =
      search (frame, SameElsewhere-IsPreorder id, resume_locked-SameElsewhere) depth 8

  stop-SameElsewhere : (id : String) → Within (SameElsewhere id) (stop host id)
  unfolding stop require_text
  stop-SameElsewhere id =
      search (frame, SameElsewhere-IsPreorder id, dispose_lease-SameElsewhere) depth 8

-- Creating, replacing, resuming and stopping the Session of one Agent leaves the lease of every
-- other Agent as it was, whether the operation succeeds or throws.
pub operations_isolated :
    {W : Type 0} (host : Host W) (input : CreateInput) (generation : Option String) (other : String)
    (s : Machine W)
    → input.agent_id ≢ other
    → (lookup other (create host input s).1.active ≡ lookup other s.active)
      × (lookup other (reset host input generation s).1.active ≡ lookup other s.active)
      × (lookup other (resume host input.agent_id s).1.active ≡ lookup other s.active)
      × (lookup other (stop host input.agent_id s).1.active ≡ lookup other s.active)
operations_isolated host input generation other s ne = (
  (create-SameElsewhere host input).apply s other ne,
  (reset-SameElsewhere host input generation).apply s other ne,
  (resume-SameElsewhere host input.agent_id).apply s other ne,
  (stop-SameElsewhere host input.agent_id).apply s other ne,
)
