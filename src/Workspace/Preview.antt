-- ===== src/Workspace/Preview.antt =====
-- src/agent-workspace.ts: `readAgentWorkspaceFile`.
use dsh_chaos.Common.{
  ℕ, zero, suc, ◌+◌, ◌-◌, ◌*◌, String, Bool, not, ◌||◌, Option, none, some, List, [], ◌++◌, any,
  length, leb, ltb, nat_eq, if◌then◌else◌,
}
use dsh_chaos.Common.Acts.{Act, give, ◌>>=◌, ◌>>◌, demand, finally_do}
use dsh_chaos.Workspace.Files.{Files, Info}
use dsh_chaos.Workspace.Paths.{safe_workspace_path, is_file}

abbrev pub max_preview_bytes : ℕ
max_preview_bytes = 512 * 1024

abbrev pub min : ℕ → ℕ → ℕ
min a b = if leb a b then a else b

pub record Preview : Type 0 where
  pub path : String
  pub size : ℕ
  pub modified_at_ms : ℕ
  pub binary : Bool
  pub truncated : Bool
  pub content : Option String

module _ {W Handle : Type 0} (files : Files W Handle) where
  -- The loop, `left` bytes before the end of the buffer, with what it has read so far. Each round
  -- that goes on has read a byte, so `left` rounds are enough: fuel `left + 1`.
  unfoldable pub fill : (fuel : ℕ) → Handle → (left : ℕ) → List ℕ → Act W (List ℕ)
  fill zero handle left got = give got
  fill (suc fuel) handle left got = if nat_eq left 0 then give got else (do
    bytes ← files.read handle left (length got)
    if nat_eq (length bytes) 0
        then give got
        else fill fuel handle (left - length bytes) (got ++ bytes))

  unfoldable pub preview_of : String → Info → List ℕ → Preview
  preview_of path info bytes =
      let binary = not (files.is_utf8 bytes) || any (λ b. nat_eq b 0) bytes in
      record {
        path = path;
        size = info.size;
        modified_at_ms = info.modified_at_ms;
        binary = binary;
        truncated = ltb max_preview_bytes info.size;
        content = if binary then none else some (files.text_of bytes);
      }

  unfoldable pub read_agent_workspace_file : (root path : String) → Act W Preview
  read_agent_workspace_file root path = do
    place ← safe_workspace_path files root path
    info ← files.lstat place.absolute
    demand (is_file info.kind) "[invalid_argument] workspace path is not a file"
    handle ← files.open_read place.absolute
    let most = min info.size max_preview_bytes
    bytes ← finally_do (fill (most + 1) handle most []) (files.close handle)
    give (preview_of path info bytes)
