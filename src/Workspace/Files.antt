-- ===== src/Workspace/Files.antt =====
-- What src/agent-workspace.ts uses of the file system, as operations on an outer state `W`.
use dsh_chaos.Common.{ℕ, String, Bool, List}
use dsh_chaos.Common.Acts.{Act}

pub data Kind : Type 0 where
  symlink directory file other : Kind

-- What `lstat` tells.
pub record Info : Type 0 where
  pub kind : Kind
  pub size : ℕ
  pub modified_at_ms : ℕ

-- How `link` ends: the target may exist already.
pub data Linked : Type 0 where
  linked exists : Linked

-- `Handle` is what `open` returns. A path that is not there is a call that throws.
pub record Files (W Handle : Type 0) : Type 0 where
  -- `sep`, `isAbsolute`, `resolve(root, ...segments)`, `join` and `relative` of the platform.
  pub sep : String
  pub is_absolute : String → Bool
  pub resolve : String → List String → String
  pub join : String → String → String
  pub relative : (from path : String) → String
  pub lstat : String → Act W Info
  pub realpath : String → Act W String
  pub readdir : String → Act W (List String)
  pub open_read : String → Act W Handle
  -- The bytes that one read delivers, of at most the length asked for.
  pub read : Handle → (length position : ℕ) → Act W (List ℕ)
  pub close : Handle → Act W (Unit {0})
  pub make_directory : String → Act W (Unit {0})
  -- `open(path, 'wx', 0o600)`, which throws where the path exists.
  pub open_new : String → Act W Handle
  pub write : Handle → String → Act W (Unit {0})
  pub link : (from path : String) → Act W Linked
  pub remove : String → Act W (Unit {0})
  pub random_uuid : Act W String
  -- `isUtf8` and `toString('utf8')`.
  pub is_utf8 : List ℕ → Bool
  pub text_of : List ℕ → String
