-- ===== src/Runtime/Policy.antt =====
-- src/preset-policy.ts: the Presets that a collaboration Agent may run.
use dsh_chaos.Common.{String, Bool, List, [], ◌∷◌, any, if◌then◌else◌, ◌==◌}
use dsh_chaos.Common.Results.{Result, ok, throws}

abbrev pub supported_agent_preset_ids : List String
supported_agent_preset_ids = "standard" ∷ "code" ∷ "cordis" ∷ []

unfoldable pub is_supported_agent_preset : String → Bool
is_supported_agent_preset id = any (λ p. p == id) supported_agent_preset_ids

unfoldable pub require_supported_agent_preset : String → Result String
require_supported_agent_preset id =
    if is_supported_agent_preset id
    then ok id
    else throws "[invalid_argument] preset must be one of: standard, code, cordis"
