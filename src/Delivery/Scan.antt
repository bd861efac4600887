-- ===== src/Delivery/Scan.antt =====
-- src/delivery.ts: `scanOnce`: the notice to each Agent that the manager resolves, and the mark.
use dsh_chaos.Common.{String, Bool, none, some, List, [], ◌∷◌, ◌++◌, if◌then◌else◌}
use dsh_chaos.Common.Texts.{concat}
use dsh_chaos.Wire.{PendingWake}
use dsh_chaos.Runtime.Host.{Agent, Manager}
use dsh_chaos.Runtime.Manager.{resolve}

abbrev pub wake_text : String
wake_text = "Collab inbox update: new messages are pending. Call message_check to inspect them."

-- How the Agent takes the message, and what the bridge tells the core or the log.
pub data Effect : Type 0 where
  steer followup : Agent → (text : String) → Effect
  mark_notified : (agent_id generation session_id pending_seq : String) → Effect
  warning : String → Effect

-- The host: whether an Agent is running, and whether each call goes through.
pub record Agents : Type 0 where
  pub is_running : Agent → Bool
  pub accepts : Agent → Bool
  pub marks : PendingWake → Bool

abbrev pub notice : Agents → Agent → Effect
notice agents agent =
    if agents.is_running agent then steer agent wake_text else followup agent wake_text

abbrev pub mark_of : PendingWake → Effect
mark_of wake =
    mark_notified wake.binding.agent_id wake.binding.generation wake.binding.session_id
      wake.pending_seq

abbrev pub warning_of : PendingWake → Effect
warning_of wake =
    warning (concat ("dsh-chaos: wake failed for Agent " ∷ wake.binding.agent_id ∷ []))

-- One wake. An effect is listed where its call is made, and a call that throws leads to the warning.
unfoldable pub deliver : Agents → Manager → PendingWake → List Effect
deliver agents m wake = elim (resolve wake.binding m) [
  | none ↦ []
  | some agent ↦
      notice agents agent
      ∷ (if agents.accepts agent
          then mark_of wake ∷ (if agents.marks wake then [] else warning_of wake ∷ [])
          else warning_of wake ∷ [])
]

-- The wakes of `listPendingWakes`, where that call succeeded.
unfoldable pub scan_once : Agents → Manager → List PendingWake → List Effect
scan_once agents m [] = []
scan_once agents m (w ∷ ws) = deliver agents m w ++ scan_once agents m ws
