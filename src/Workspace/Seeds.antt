-- ===== src/Workspace/Seeds.antt =====
-- src/agent-workspace.ts: `requireRegularFile`, `seedFile` and `initializeAgentWorkspace`.
use dsh_chaos.Common.{String, [], ◌∷◌}
use dsh_chaos.Common.Texts.{concat, append}
use dsh_chaos.Common.Acts.{Act, give, ◌>>=◌, ◌>>◌, demand, finally_do, catch_with}
use dsh_chaos.Wire.{Profile}
use dsh_chaos.Workspace.Files.{Files, linked, exists}
use dsh_chaos.Workspace.Paths.{is_file, is_directory}

unfoldable pub initial_memory : Profile → String
initial_memory profile = concat (
    "# " ∷ profile.actor.display_name ∷ "\n\n## Role\n" ∷ profile.charter.summary
    ∷ "\n\n## Key Knowledge\n- No durable knowledge recorded yet.\n\n## Active Context\n- First startup.\n"
    ∷ [])

module _ {W Handle : Type 0} (files : Files W Handle) where
  unfoldable pub require_regular_file : String → Act W (Unit {0})
  require_regular_file path = do
    info ← files.lstat path
    demand (is_file info.kind)
        (append "[invalid_argument] workspace seed path is not a regular file: " path)

  -- The body of the `try`: the seed is written under its temporary name and linked.
  unfoldable pub publish_seed : Handle → (temporary target content : String) → Act W (Unit {0})
  publish_seed handle temporary target content = do
    files.write handle content
    files.close handle
    outcome ← files.link temporary target
    elim outcome [ linked ↦ give tt | exists ↦ require_regular_file target ]

  -- The `finally`: the file is closed, whatever comes of it, and the temporary name goes.
  unfoldable pub drop_seed : Handle → String → Act W (Unit {0})
  drop_seed handle temporary = do
    catch_with (files.close handle) (λ _. give tt)
    files.remove temporary

  unfoldable pub seed_file : (root name content : String) → Act W (Unit {0})
  seed_file root name content = do
    uuid ← files.random_uuid
    let temporary = files.join root (append ".chaos-seed-" uuid)
    handle ← files.open_new temporary
    finally_do (publish_seed handle temporary (files.join root name) content)
        (drop_seed handle temporary)

  -- `instructions` is `WORKSPACE_INSTRUCTIONS`.
  unfoldable pub initialize_agent_workspace :
      (instructions root : String) → Profile → Act W (Unit {0})
  initialize_agent_workspace instructions root profile = do
    files.make_directory root
    info ← files.lstat root
    demand (is_directory info.kind) "[invalid_argument] Agent workspace is not a regular directory"
    seed_file root "AGENTS.md" instructions
    seed_file root "MEMORY.md" (initial_memory profile)
