-- ===== src/Tools/Prompt.antt =====
-- src/agent-prompt.ts: `renderAgentIdentityPrompt`.
use dsh_chaos.Common.{String, List, [], ◌∷◌, ◌++◌, map}
use dsh_chaos.Common.Texts.{concat, append}
use dsh_chaos.Common.Splits.{join_with}
use dsh_chaos.Wire.{Profile}

unfoldable pub render_list : String → List String → List String
render_list title [] = []
render_list title (v ∷ vs) = "" ∷ append "### " title ∷ map (append "- ") (v ∷ vs)

-- `rules` are the three fixed lines at the end.
unfoldable pub render_agent_identity_prompt : (rules : List String) → Profile → String
render_agent_identity_prompt rules profile = join_with "\n" (
    ("## Collaboration identity"
      ∷ concat (
          "You are " ∷ profile.actor.display_name ∷ " (@" ∷ profile.actor.handle
          ∷ "), a stable Chaos collaboration Agent." ∷ [])
      ∷ ""
      ∷ "### Charter"
      ∷ profile.charter.summary
      ∷ [])
    ++ render_list "Capabilities" profile.charter.capabilities
    ++ render_list "Constraints" profile.charter.constraints
    ++ (""
        ∷ "### Workspace and continuity"
        ∷ concat (
            "Your persistent, agent-owned workspace is " ∷ profile.workspace_path
            ∷ ". Its layout is intentionally unspecified; organize it as the work requires." ∷ [])
        ∷ "Keep MEMORY.md as the recovery entry point. When durable material or organization must be rediscovered by a future session, leave a concise pointer there."
        ∷ ""
        ∷ "### Collaboration rules"
        ∷ rules))
