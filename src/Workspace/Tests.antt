-- ===== src/Workspace/Tests.antt =====
-- Runs of the workspace's code at concrete values.
use dsh_chaos.Common.{
  ℕ, suc, String, Bool, true, false, none, some, List, [], ◌∷◌, take, drop, ◌≡◌, refl, arith,
  if◌then◌else◌, ◌==◌, leb,
}
use mathlib.Core.List.{Permᴰ}
use dsh_chaos.Common.Texts.{append, strip_prefix}
use dsh_chaos.Common.Splits.{join_with, split_on}
use dsh_chaos.Common.Results.{ok, throws}
use dsh_chaos.Common.Acts.{acting}
use dsh_chaos.Workspace.Files.{Files, Info, directory, file, exists}
use dsh_chaos.Common.{map, filter, not, ◌||◌}
use dsh_chaos.Workspace.Paths.{directory_entry, file_entry, is_hidden}
use dsh_chaos.Workspace.Paths.{
  SafePath, Entry, safe_workspace_path, workspace_segments, list_agent_workspace, inside, has_char,
  sort_entries, insert_entry, comes_before, entries_of, entry_of,
}
use dsh_chaos.Workspace.Preview.{Preview}
use dsh_chaos.Workspace.Seeds.{seed_file}
use dsh_chaos.Workspace.Confinement.{safe_workspace_path-IsConfined, IsConfined}
use dsh_chaos.Workspace.Listing.{IsNameOrder, IsListed, list_agent_workspace-perm}
use dsh_chaos.Workspace.Seeding.{seed_file-removes}

abbrev hello : List ℕ
hello = 104 ∷ 105 ∷ []

abbrev plain : Info
plain = record { kind = file; size = 2; modified_at_ms = 7 }

abbrev folder : Info
folder = record { kind = directory; size = 0; modified_at_ms = 7 }

abbrev stat_of : String → Info
stat_of path = if path == "/w/a" then plain else folder

-- A root with one file of two bytes, on a file system that does not change.
abbrev disk : Files (Unit {0}) (Unit {0})
disk = record {
  sep = "/";
  is_absolute = λ path. elim (strip_prefix "/" path) [ none ↦ false | some _ ↦ true ];
  resolve = λ root segments. join_with "/" (root ∷ segments);
  join = λ place name. append place (append "/" name);
  relative =
      λ from path. elim (strip_prefix (append from "/") path) [ none ↦ "" | some rest ↦ rest ];
  lstat = λ path w. (ok (stat_of path), w);
  realpath = λ path w. (ok path, w);
  readdir = λ path w. (ok ("a" ∷ "d" ∷ ".git" ∷ []), w);
  open_read = λ path w. (ok tt, w);
  read = λ handle asked position w. (ok (take asked (drop position hello)), w);
  close = λ handle w. (ok tt, w);
  make_directory = λ path w. (ok tt, w);
  open_new = λ path w. (ok tt, w);
  write = λ handle content w. (ok tt, w);
  link = λ from path w. (ok exists, w);
  remove = λ path w. (ok tt, w);
  random_uuid = λ w. (ok "u", w);
  is_utf8 = λ bytes. true;
  text_of = λ bytes. "hi";
}

abbrev found : SafePath
found = record { absolute = "/w/a"; root_real = "/w" }

safe_workspace_path-IsConfined_example : IsConfined disk "/w" "a" tt found
unfolding safe_workspace_path workspace_segments split_on has_char inside acting strip_prefix
safe_workspace_path-IsConfined_example = safe_workspace_path-IsConfined disk "/w" "a" tt found refl

refuses_parent :
    safe_workspace_path disk "/w" "../x" tt
    ≡ (throws "[invalid_argument] workspace path contains an invalid segment", tt)
unfolding safe_workspace_path workspace_segments split_on has_char inside acting strip_prefix
refuses_parent = refl

abbrev shown : Preview
shown = record {
  path = "a";
  size = 2;
  modified_at_ms = 7;
  binary = false;
  truncated = false;
  content = some "hi";
}

seed_file-removes_example :
    (v : Unit {0}) × ((seed_file disk "/w" "MEMORY.md" "m" tt).1
      ≡ (disk.remove (disk.join "/w" (append ".chaos-seed-" "u")) v).1)
seed_file-removes_example = seed_file-removes disk "/w" "MEMORY.md" "m" "u" tt tt refl refl

abbrev size_of : String → ℕ
size_of String.[] = 0
size_of (String.◌∷◌ c s) = suc (size_of s)

-- Names by their length.
abbrev shorter : String → String → Bool
shorter a b = leb (size_of a) (size_of b)

shorter-IsNameOrder : IsNameOrder shorter
shorter-IsNameOrder = record { total = λ a b. ground arith; trans = λ a b c h k. ground arith }

abbrev rows : List Entry
rows =
    (record { name = "d"; path = "d"; kind = directory_entry; size = 0; modified_at_ms = 7 })
    ∷ (record { name = "a"; path = "a"; kind = file_entry; size = 2; modified_at_ms = 7 })
    ∷ []

list_agent_workspace-perm_example :
    (place : SafePath) × (info : Info) × (names : List String) × (v u : Unit {0})
    × ((safe_workspace_path disk "/w" "" tt).0 ≡ ok place)
    × ((disk.lstat place.absolute v).0 ≡ ok info)
    × (info.kind ≡ directory)
    × ((disk.readdir place.absolute u).0 ≡ ok names)
    × Permᴰ (map (λ e. e.name) rows) (filter (λ n. false || not (is_hidden n)) names)
    × IsListed shorter rows
unfolding list_agent_workspace safe_workspace_path workspace_segments inside strip_prefix split_on
    entries_of entry_of sort_entries insert_entry comes_before acting
list_agent_workspace-perm_example =
    list_agent_workspace-perm disk shorter shorter-IsNameOrder 47 "/w" "" false tt rows refl
