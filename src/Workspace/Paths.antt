-- ===== src/Workspace/Paths.antt =====
-- src/agent-workspace.ts: `workspaceSegments`, `inside`, `safeWorkspacePath` and
-- `listAgentWorkspace`.
use dsh_chaos.Common.{
  ℕ, String, Bool, true, false, not, ◌&&◌, ◌||◌, List, [], ◌∷◌, filter, any, ltb, nat_eq, is_some,
  if◌then◌else◌, ◌==◌,
}
use Prim.Native.Char.{code}
use dsh_chaos.Common.Texts.{append, is_empty, strip_prefix}
use dsh_chaos.Common.Splits.{split_on, join_with}
use dsh_chaos.Common.Results.{Result, ok, throws}
use dsh_chaos.Common.Acts.{Act, give, ◌>>=◌, ◌>>◌, demand, of_result}
use dsh_chaos.Workspace.Files.{Files, Kind, symlink, directory, file, other}

-- `path.includes(c)` for a character.
unfoldable pub has_char : ℕ → String → Bool
has_char c String.[] = false
has_char c (String.◌∷◌ d s) = nat_eq (code d) c || has_char c s

-- `segment === '' || segment === '.' || segment === '..'`.
abbrev pub is_bad_segment : String → Bool
is_bad_segment s = s == "" || s == "." || s == ".."

unfoldable pub workspace_segments : (String → Bool) → String → Result (List String)
workspace_segments is_absolute path =
    if is_empty path
    then ok []
    else if is_absolute path || has_char 92 path || has_char 0 path
    then throws "[invalid_argument] workspace path must be relative"
    else if any is_bad_segment (split_on b'/' path)
    then throws "[invalid_argument] workspace path contains an invalid segment"
    else ok (split_on b'/' path)

unfoldable pub inside : String → String → String → Bool
inside sep root candidate = candidate == root || is_some (strip_prefix (append root sep) candidate)

pub record SafePath : Type 0 where
  pub absolute : String
  pub root_real : String

abbrev pub is_symlink : Kind → Bool
is_symlink symlink = true
is_symlink directory = false
is_symlink file = false
is_symlink other = false

abbrev pub is_directory : Kind → Bool
is_directory symlink = false
is_directory directory = true
is_directory file = false
is_directory other = false

abbrev pub is_file : Kind → Bool
is_file symlink = false
is_file directory = false
is_file file = true
is_file other = false

abbrev pub escapes : String
escapes = "[invalid_argument] workspace path escapes its Agent root"

-- The kind that an entry is listed under: what is neither a link nor a directory is a file.
pub data EntryKind : Type 0 where
  directory_entry file_entry symlink_entry : EntryKind

abbrev pub entry_kind : Kind → EntryKind
entry_kind symlink = symlink_entry
entry_kind directory = directory_entry
entry_kind file = file_entry
entry_kind other = file_entry

pub record Entry : Type 0 where
  pub name : String
  pub path : String
  pub kind : EntryKind
  pub size : ℕ
  pub modified_at_ms : ℕ

abbrev pub rank : Entry → ℕ
rank e = elim e.kind [ directory_entry ↦ 0 | file_entry ↦ 1 | symlink_entry ↦ 2 ]

abbrev pub is_hidden : String → Bool
is_hidden name = is_some (strip_prefix "." name)

-- `compare_names a b` says that `a.localeCompare(b)` is at most 0.
module _ (compare_names : String → String → Bool) where
  -- The comparison of the sort is at most 0.
  unfoldable pub comes_before : Entry → Entry → Bool
  comes_before a b =
      ltb (rank a) (rank b) || (nat_eq (rank a) (rank b) && compare_names a.name b.name)

  unfoldable pub insert_entry : Entry → List Entry → List Entry
  insert_entry e [] = e ∷ []
  insert_entry e (x ∷ xs) = if comes_before e x then e ∷ x ∷ xs else x ∷ insert_entry e xs

  unfoldable pub sort_entries : List Entry → List Entry
  sort_entries [] = []
  sort_entries (e ∷ es) = insert_entry e (sort_entries es)

module _ {W Handle : Type 0} (files : Files W Handle) where
  unfoldable pub safe_workspace_path : String → String → Act W SafePath
  safe_workspace_path root path = do
    root_real ← files.realpath root
    segments ← of_result (workspace_segments files.is_absolute path)
    let absolute = files.resolve root segments
    demand (inside files.sep (files.resolve root []) absolute) escapes
    info ← files.lstat absolute
    demand (not (is_symlink info.kind)) "[invalid_argument] workspace symlinks cannot be opened"
    candidate ← files.realpath absolute
    demand (inside files.sep root_real candidate) escapes
    give (record { absolute = candidate; root_real = root_real })

  -- One row; `path` is relative to the root, with slashes.
  unfoldable pub entry_of : SafePath → (sep_char : ℕ) → String → Act W Entry
  entry_of place sep_char name = do
    info ← files.lstat (files.join place.absolute name)
    give (record {
      name = name;
      path =
          join_with "/"
            (split_on sep_char (files.relative place.root_real (files.join place.absolute name)));
      kind = entry_kind info.kind;
      size = info.size;
      modified_at_ms = info.modified_at_ms;
    })

  unfoldable pub entries_of : SafePath → (sep_char : ℕ) → List String → Act W (List Entry)
  entries_of place sep_char [] = give []
  entries_of place sep_char (name ∷ names) = do
    e ← entry_of place sep_char name
    rest ← entries_of place sep_char names
    give (e ∷ rest)

  -- `sep_char` is the one character of `sep`.
  unfoldable pub list_agent_workspace :
      (String → String → Bool)
      → (sep_char : ℕ) → (root dir_path : String) → Bool
      → Act W (List Entry)
  list_agent_workspace compare_names sep_char root dir_path include_hidden = do
    place ← safe_workspace_path root dir_path
    info ← files.lstat place.absolute
    demand (is_directory info.kind) "[invalid_argument] workspace path is not a directory"
    rows ← files.readdir place.absolute
    es ← entries_of place sep_char (filter (λ name. include_hidden || not (is_hidden name)) rows)
    give (sort_entries compare_names es)
