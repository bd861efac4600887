-- ===== src/Runtime/Outcomes.antt =====
-- How creating, replacing and closing end.
use dsh_chaos.Common.{String, Option, none, some, ◌≡◌, ◌⊎◌, refl, arith}
use dsh_chaos.Common.Maps.{lookup, lookup-insert_self}
use dsh_chaos.Common.Results.{ok, throws}
use dsh_chaos.Wire.{RuntimeBinding}
use dsh_chaos.Runtime.Host.{Agent, Host, Manager, Machine, monad}
use dsh_chaos.Runtime.Frame.{Ensures, outcomes}
use dsh_chaos.Runtime.Lifecycle.{
  CreateInput, Prepared, create_prepared, activate, resume_locked, republish, recover, reset,
  create, resume, publish, dispose_failed,
}
use dsh_chaos.Runtime.Leases.{dispose_lease-removes, dispose_lease-keeps}

-- The Agent's lease has this binding.
abbrev IsLeased : String → RuntimeBinding → Manager → Type 0
IsLeased id b m = (a : Agent) × (lookup id m.active ≡ some (record { binding = b; agent = a }))

module _ {W : Type 0} (host : Host W) where
  activate-leases :
      (id : String) (b : RuntimeBinding) (a : Agent) (s : Machine W)
      → ((activate host id b a s).0 ≡ ok b)
        × (lookup id (activate host id b a s).1.active ≡ some (record { binding = b; agent = a }))
  unfolding activate monad
  activate-leases id b a s = (refl, lookup-insert_self id _ s.active)

  activate-Ensures :
      (id : String) (b : RuntimeBinding) (a : Agent) → Ensures (IsLeased id) (activate host id b a)
  unfolding activate monad
  activate-Ensures id b a = record { apply = λ s c h. ground (arith, activate-leases id b a s) }

  create_prepared-Ensures :
      (input : CreateInput) (p : Prepared)
      → Ensures (IsLeased input.agent_id) (create_prepared host input p)
  unfolding create_prepared publish dispose_failed
  create_prepared-Ensures input p = search (outcomes, activate-Ensures) depth 8

  resume_locked-Ensures :
      (id : String) (expected : Option RuntimeBinding)
      → Ensures (IsLeased id) (resume_locked host id expected)
  unfolding resume_locked republish dispose_failed
  resume_locked-Ensures id expected = search (outcomes, activate-Ensures) depth 14

  recover-Ensures :
      (id : String) (current : Option RuntimeBinding) (e : String)
      → Ensures (IsLeased id) (recover host id current e)
  unfolding recover
  recover-Ensures id none e = search outcomes
  recover-Ensures id (some c) e = search outcomes

  create-Ensures : (input : CreateInput) → Ensures (IsLeased input.agent_id) (create host input)
  unfolding create
  create-Ensures input = search (outcomes, create_prepared-Ensures)

  reset-Ensures :
      (input : CreateInput) (g : Option String)
      → Ensures (IsLeased input.agent_id) (reset host input g)
  unfolding reset
  reset-Ensures input g = search (outcomes, create_prepared-Ensures, recover-Ensures) depth 8

  resume-Ensures : (id : String) → Ensures (IsLeased id) (resume host id)
  unfolding resume
  resume-Ensures id = search (outcomes, resume_locked-Ensures)

  -- The binding that `reset` returns, whether it replaced a Session or configured the first one, is
  -- the binding of the Agent's lease afterwards.
  pub reset-leases :
      (input : CreateInput) (g : Option String) (b : RuntimeBinding) (s : Machine W)
      → (reset host input g s).0 ≡ ok b
      → (a : Agent) × (lookup input.agent_id (reset host input g s).1.active
          ≡ some (record { binding = b; agent = a }))
  reset-leases input g b s made = (reset-Ensures input g).apply s b made

  -- The binding that `resume` returns is the binding of the Agent's lease afterwards.
  pub resume-leases :
      (id : String) (b : RuntimeBinding) (s : Machine W)
      → (resume host id s).0 ≡ ok b
      → (a : Agent) × (lookup id (resume host id s).1.active
          ≡ some (record { binding = b; agent = a }))
  resume-leases id b s made = (resume-Ensures id).apply s b made

  -- Where `createPrepared` throws, its Agent is left without a lease, or with what it had before.
  pub create_prepared-unleased :
      (input : CreateInput) (p : Prepared) (e : String) (s : Machine W)
      → (create_prepared host input p s).0 ≡ throws e
      → (lookup input.agent_id (create_prepared host input p s).1.active ≡ none)
        ⊎ (lookup input.agent_id (create_prepared host input p s).1.active
            ≡ lookup input.agent_id s.active)
  unfolding create_prepared publish dispose_failed activate monad
  create_prepared-unleased input p e s failed = ground (
    arith,
    dispose_lease-removes host input.agent_id s,
    dispose_lease-keeps host input.agent_id e s,
  )
