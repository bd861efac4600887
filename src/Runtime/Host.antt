-- ===== src/Runtime/Host.antt =====
-- src/runtime.ts: what the manager is built over, the core and the DSH services, as operations on
-- one outer state `W`; the manager's own maps; and code that runs on both and may throw.
-- An `Agent` stands for the object of one AgentHandle: `key` tells two objects apart.
use dsh_chaos.Common.{ℕ, String, Bool, Option, List, ◌++◌, [], ◌∷◌}
use dsh_chaos.Common.Maps.{Map}
use dsh_chaos.Common.Results.{Result, ok, throws}
use dsh_chaos.Wire.{Profile, RuntimeBinding}

pub record Agent : Type 0 where
  pub key : ℕ
  pub id : String

-- `agentOptions`, where the provider is not the default.
pub record AgentOptions : Type 0 where
  pub provider : String
  pub model : String

pub record Host (W : Type 0) : Type 0 where
  -- `CollabRuntimeApi`.
  pub runtime_binding : String → W → Result (Option RuntimeBinding) × W
  pub runtime_binding_for_session : String → W → Result (Option RuntimeBinding) × W
  pub list_runtime_bindings : W → Result (List RuntimeBinding) × W
  pub bind_runtime :
      (agent_id session_id provider model preset : String) → W → Result RuntimeBinding × W
  pub update_runtime_preset :
      (agent_id generation session_id preset : String) → W → Result RuntimeBinding × W
  pub rearm_runtime_wake : (agent_id generation session_id : String) → W → Result (Unit {0}) × W
  pub mark_model_seen :
      (batch_id agent_id generation session_id : String) → W → Result (Unit {0}) × W
  pub identity_of : String → W → Result Profile × W
  -- The Agent registry, with the mount of the Preset, the prompt and the tools.
  pub create_agent : (session_id cwd preset : String) → Option AgentOptions → W → Result Agent × W
  pub resume_agent : (session_id preset : String) → AgentOptions → W → Result Agent × W
  pub dispose : Agent → W → Result (Unit {0}) × W
  pub set_permission : Agent → String → W → Result (Unit {0}) × W
  pub append_preset_selected : Agent → String → W → Result (Unit {0}) × W
  -- The Preset roster, the file system and the platform.
  pub resolve_preset : String → W → Result String × W
  pub initialize_workspace : String → Profile → W → Result (Unit {0}) × W
  pub is_absolute : String → Bool
  pub random_uuid : W → Result String × W

pub record Lease : Type 0 where
  pub binding : RuntimeBinding
  pub agent : Agent

pub record Receipt : Type 0 where
  pub batch_id : String
  pub binding : RuntimeBinding

pub record Manager : Type 0 where
  pub active : Map Lease
  pub identities : Map Profile
  pub pending_receipts : Map (Map Receipt)
  pub closing : Bool

pub record Machine (W : Type 0) : Type 0 where
  pub manager : Manager
  pub open manager use *
  pub world : W
  pub warnings : List String

abbrev pub M : Type 0 → Type 0 → Type 0
M W A = Machine W → Result A × Machine W

unfoldable pub pure : {W A : Type 0} → A → M W A
pure a s = (ok a, s)

unfoldable pub fail : {W A : Type 0} → String → M W A
fail e s = (throws e, s)

infixl 5 ◌>>=◌ ◌>>◌
unfoldable pub ◌>>=◌ : {W A B : Type 0} → M W A → (A → M W B) → M W B
◌>>=◌ m f s = elim (m s).0 [ ok a ↦ f a (m s).1 | throws e ↦ (throws e, (m s).1) ]

abbrev pub ◌>>◌ : {W B : Type 0} → M W (Unit {0}) → M W B → M W B
m >> k = m >>= λ _. k

-- `try { m } catch (error) { handler(error) }`.
unfoldable pub try_catch : {W A : Type 0} → M W A → (String → M W A) → M W A
try_catch m handler s = elim (m s).0 [ ok a ↦ (ok a, (m s).1) | throws e ↦ handler e (m s).1 ]

-- `if (!test) throw new Error(message)`.
unfoldable pub require : {W : Type 0} → Bool → String → M W (Unit {0})
require Bool.true e s = (ok tt, s)
require Bool.false e s = (throws e, s)

-- A call of the host.
unfoldable pub call : {W A : Type 0} → (W → Result A × W) → M W A
call c s = ((c s.world).0, record s { world = (c s.world).1 })

unfoldable pub throw_of : {W A : Type 0} → Result A → M W A
throw_of r s = (r, s)

-- The manager's state, read and replaced.
unfoldable pub manager_of : {W : Type 0} → M W Manager
manager_of s = (ok s.manager, s)

unfoldable pub set_manager : {W : Type 0} → Manager → M W (Unit {0})
set_manager m s = (ok tt, record s { manager = m })

unfoldable pub warn : {W : Type 0} → String → M W (Unit {0})
warn text s = (ok tt, record s { warnings = s.warnings ++ text ∷ [] })

-- The constructs together, for the proofs that run code.
unfoldable pub monad : Unit {0}
unfolding pure fail ◌>>=◌ try_catch require call throw_of manager_of set_manager warn
monad = tt
