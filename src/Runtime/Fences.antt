-- ===== src/Runtime/Fences.antt =====
-- What stops an operation of the manager: the generation fence, the preparation, the close.
use dsh_chaos.Common.{
  String, true, Option, none, some, ◌≡◌, ◌≢◌, ◌⊎◌, inl, inr, refl, arith, eq_iff, Option-cases,
}
use dsh_chaos.Common.Maps.{lookup}
use dsh_chaos.Common.Results.{ok, throws}
use dsh_chaos.Wire.{RuntimeBinding}
use dsh_chaos.Runtime.Host.{Host, Machine, monad}
use dsh_chaos.Common.Results.{Result-cases}
use dsh_chaos.Runtime.Manager.{assert_active, require_text, resolve, binding_for_execution}
use dsh_chaos.Runtime.Host.{Agent}
use dsh_chaos.Runtime.Lifecycle.{
  CreateInput, prepare_runtime, check_generation, reset, create, resume, resume_locked,
}
use dsh_chaos.Runtime.Leases.{prepare_runtime-SameActive}

module _ {W : Type 0} (host : Host W) where
  -- Where the durable binding has another generation than the one that `reset` is told to expect,
  -- nothing of the manager changes.
  pub reset_mismatch :
      (input : CreateInput) (expected : String) (current : RuntimeBinding) (s : Machine W)
      → (host.runtime_binding input.agent_id s.world).0 ≡ ok (some current)
      → current.generation ≢ expected
      → (reset host input (some expected) s).1.manager ≡ s.manager
  unfolding reset require_text assert_active check_generation monad
  reset_mismatch input expected current s found other =
      ground (arith, eq_iff current.generation expected)

  check_generation-ok :
      (id : String) (current : Option RuntimeBinding) (g : Option String)
      → check_generation host id current g ≡ ok tt
      → ((current ≡ none) × (g ≡ none))
        ⊎ ((c : RuntimeBinding) × (current ≡ some c) × (g ≡ some c.generation))
  unfolding check_generation
  check_generation-ok id none none h = inl (refl, refl)
  check_generation-ok id (some c) none h = cc
  check_generation-ok id none (some e) h = cc
  check_generation-ok id (some c) (some e) h = inr (c, refl, ground (arith, eq_iff c.generation e))

  reset-checked :
      (input : CreateInput) (g : Option String) (b : RuntimeBinding) (s : Machine W)
      (current : Option RuntimeBinding)
      → (reset host input g s).0 ≡ ok b
      → (host.runtime_binding input.agent_id s.world).0 ≡ ok current
      → check_generation host input.agent_id current g ≡ ok tt
  unfolding reset require_text assert_active monad
  reset-checked input g b s current made found = ground arith

  -- A `reset` succeeds only where the durable binding is what the caller expects: none where no
  -- generation is given, and otherwise one of exactly that generation.
  pub reset_fence :
      (input : CreateInput) (g : Option String) (b : RuntimeBinding) (s : Machine W)
      → (reset host input g s).0 ≡ ok b
      → (((host.runtime_binding input.agent_id s.world).0 ≡ ok none) × (g ≡ none))
        ⊎ ((current : RuntimeBinding) × ((host.runtime_binding input.agent_id s.world).0
              ≡ ok (some current))
            × (g ≡ some current.generation))
  unfolding reset require_text assert_active monad
  reset_fence input g b s made =
      elim (Result-cases (host.runtime_binding input.agent_id s.world).0) [
        | inr (e, failed) ↦ absurd (ground arith)
        | inl (current, found) ↦
            elim (check_generation-ok input.agent_id current g
              (reset-checked input g b s current made found)) [
                | inl (n, e) ↦ inl (rw n at found, e)
                | inr (c, n, e) ↦ inr (c, rw n at found, e)
              ]
      ]

  -- Where the preparation of a replacement throws, behind the read of the durable binding, `reset`
  -- leaves the lease map as it was.
  pub reset_unprepared :
      (input : CreateInput) (g : Option String) (e : String) (s : Machine W)
      → (prepare_runtime host input
          (record s { world = (host.runtime_binding input.agent_id s.world).1 })).0
        ≡ throws e
      → (reset host input g s).1.active ≡ s.active
  unfolding reset require_text assert_active check_generation monad
  reset_unprepared input g e s failed = ground (
    arith,
    (prepare_runtime-SameActive host input).apply
        (record s { world = (host.runtime_binding input.agent_id s.world).1 }),
  )

  -- Once the manager is closing no Session is created, replaced or resumed any more: the call
  -- throws, and neither the manager nor the outer state changes.
  pub closing_refuses :
      (input : CreateInput) (g : Option String) (b : RuntimeBinding) (s : Machine W)
      → s.closing ≡ true
      → ((create host input s).0 ≢ ok b)
        × ((create host input s).1 ≡ s)
        × ((reset host input g s).0 ≢ ok b)
        × ((reset host input g s).1 ≡ s)
        × ((resume host input.agent_id s).0 ≢ ok b)
        × ((resume host input.agent_id s).1 ≡ s)
  unfolding create reset resume resume_locked prepare_runtime require_text assert_active monad
  closing_refuses input g b s closing = ground arith

  -- An execution is given an identity only where its Session is the Agent's current generation:
  -- the binding is the core's for that Session, the lease has the same Agent, Session and
  -- generation, and the lease's Agent is the very object that executes.
  pub binding_for_execution-is_current :
      (agent : Agent) (b : RuntimeBinding) (s : Machine W)
      → (binding_for_execution host agent s).0 ≡ ok b
      → ((host.runtime_binding_for_session agent.id s.world).0 ≡ ok (some b))
        × ((a : Agent) × (resolve b s.manager ≡ some a) × (a.key ≡ agent.key))
  unfolding binding_for_execution resolve monad
  binding_for_execution-is_current agent b s found =
      elim (Option-cases (lookup b.agent_id s.active)) [
        | inl missing ↦ absurd (ground arith)
        | inr (lease, held) ↦ (ground arith, (lease.agent, ground arith, ground arith))
      ]
