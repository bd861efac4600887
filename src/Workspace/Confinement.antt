-- ===== src/Workspace/Confinement.antt =====
-- A path that was found safe stays inside of its root.
use dsh_chaos.Common.{
  String, Bool, true, false, some, List, [], ◌∷◌, ◌≡◌, ◌≢◌, ◌⊎◌, inl, inr, refl, sym, ap, ◌∙◌,
  arith, any, All, Bool-cases, Option-cases, ◌==◌, eq_iff,
}
use Prim.Native.Char.{code}
use text.Mathlib.TextEquality.{Char-path}
use dsh_chaos.Common.Texts.{append, is_empty, strip_prefix}
use dsh_chaos.Common.Splits.{split_on, join_with, join_with-split_on}
use dsh_chaos.Common.Results.{ok}
use dsh_chaos.Common.Acts.{bind-eq-ok, of_result-eq-ok, demand-eq-ok, give-eq-ok}
use dsh_chaos.Workspace.Files.{Files, Info, Kind, symlink}
use dsh_chaos.Workspace.Paths.{
  workspace_segments, is_bad_segment, inside, SafePath, safe_workspace_path, is_symlink, has_char,
}

any-All : (p : String → Bool) (ss : List String) → any p ss ≡ false → All (λ s. p s ≡ false) ss
any-All p [] h = tt
any-All p (s ∷ ss) h = (ground arith, any-All p ss (ground arith))

is_empty-eq : (s : String) → is_empty s ≡ true → s ≡ ""
is_empty-eq String.[] h = refl
is_empty-eq (String.◌∷◌ c s) h = cc

-- A workspace path that is not refused is taken apart into segments that, joined by slashes, are the
-- path again; none of them is empty, one dot or two dots, and unless the path is empty it is not
-- absolute and has no backslash.
pub workspace_segments-join_with :
    (is_absolute : String → Bool) (path : String) (segments : List String)
    → workspace_segments is_absolute path ≡ ok segments
    → (join_with "/" segments ≡ path)
      × All (λ s. is_bad_segment s ≡ false) segments
      × ((path ≡ "") ⊎ ((is_absolute path ≡ false) × (has_char 92 path ≡ false)))
unfolding workspace_segments
workspace_segments-join_with is_absolute path segments h = elim (Bool-cases (is_empty path)) [
  | inl empty ↦
      let none_left : segments ≡ [] = ground arith in
      let nothing = is_empty-eq path empty in rw none_left (sym nothing, tt, inl nothing)
  | inr full ↦
      let pieces : segments ≡ split_on b'/' path = ground arith in
      let clean : any is_bad_segment (split_on b'/' path) ≡ false = ground arith in
      rw pieces (
        join_with-split_on "/" path,
        any-All is_bad_segment (split_on b'/' path) clean,
        inr (ground arith, ground arith),
      )
]

strip_prefix_sound : (p s t : String) → strip_prefix p s ≡ some t → s ≡ append p t
unfolding strip_prefix
strip_prefix_sound String.[] s t h = ground arith
strip_prefix_sound (String.◌∷◌ c p) String.[] t h = cc
strip_prefix_sound (String.◌∷◌ c p) (String.◌∷◌ d s) t h =
    let same : code c ≡ code d = ground arith in
    rw (Char-path d c (sym same)) (ap (String.◌∷◌ c) (strip_prefix_sound p s t (ground arith)))

-- The candidate is the root, or stands behind the root and a separator.
abbrev pub IsUnder : (sep root candidate : String) → Type 0
IsUnder sep root candidate =
    (candidate ≡ root) ⊎ ((rest : String) × (candidate ≡ append (append root sep) rest))

inside-IsUnder :
    (sep root candidate : String) → inside sep root candidate ≡ true → IsUnder sep root candidate
unfolding inside
inside-IsUnder sep root candidate h = elim (Bool-cases (candidate == root)) [
  | inl e ↦ inl ((eq_iff candidate root).0 e)
  | inr e ↦ elim (Option-cases (strip_prefix (append root sep) candidate)) [
    | inl f ↦ absurd (ground arith)
    | inr (rest, f) ↦ inr (rest, strip_prefix_sound (append root sep) candidate rest f)
  ]
]

module _ {W Handle : Type 0} (files : Files W Handle) where
  open files use {sep, resolve, is_absolute, realpath, lstat}

  -- What was checked on the way to a safe path.
  abbrev Checked : String → String → W → SafePath → Type 0
  Checked root path w p =
      (segments : List String) × (info : Info) × (v u : W) × ((realpath root w).0 ≡ ok p.root_real)
      × (workspace_segments is_absolute path ≡ ok segments)
      × (inside sep (resolve root []) (resolve root segments) ≡ true)
      × ((lstat (resolve root segments) v).0 ≡ ok info)
      × (is_symlink info.kind ≡ false)
      × ((realpath (resolve root segments) u).0 ≡ ok p.absolute)
      × (inside sep p.root_real p.absolute ≡ true)

  safe_workspace_path-Checked :
      (root path : String) (w : W) (p : SafePath)
      → (safe_workspace_path files root path w).0 ≡ ok p
      → Checked root path w p
  unfolding safe_workspace_path
  safe_workspace_path-Checked root path w p h =
      let (rr, found, h1) = bind-eq-ok _ _ w p h in
      let (segments, split, h2) = of_result-eq-ok _ _ _ p h1 in
      let (lexical, h3) = demand-eq-ok _ _ _ _ p h2 in
      let (info, seen, h4) = bind-eq-ok _ _ _ p h3 in
      let (plain, h5) = demand-eq-ok _ _ _ _ p h4 in
      let (candidate, real, h6) = bind-eq-ok _ _ _ p h5 in
      let (within, h7) = demand-eq-ok _ _ _ _ p h6 in
      let same = give-eq-ok _ p _ h7 in
      (
        segments,
        info,
        (realpath root w).1,
        (lstat (resolve root segments) (realpath root w).1).1,
        ground arith,
        split,
        lexical,
        seen,
        ground arith,
        ground arith,
        ground arith,
      )

-- Neither empty nor a step that stays or goes up.
abbrev pub IsStep : String → Type 0
IsStep s = (s ≢ "") × (s ≢ ".") × (s ≢ "..")

bad-ne : (s t : String) → is_bad_segment s ≡ false → is_bad_segment t ≡ true → s ≢ t
bad-ne s t h k e = let c : false ≡ true = sym h ∙ ap is_bad_segment e ∙ k in cc

good-IsStep : (s : String) → is_bad_segment s ≡ false → IsStep s
good-IsStep s h = (bad-ne s "" h refl, bad-ne s "." h refl, bad-ne s ".." h refl)

All-IsStep : (ss : List String) → All (λ s. is_bad_segment s ≡ false) ss → All IsStep ss
All-IsStep [] h = tt
All-IsStep (s ∷ ss) (h, hs) = (good-IsStep s h, All-IsStep ss hs)

not_symlink : (k : Kind) → is_symlink k ≡ false → k ≢ symlink
not_symlink k h e = let c : false ≡ true = sym h ∙ ap is_symlink e in cc

module _ {W Handle : Type 0} (files : Files W Handle) where
  open files use {sep, resolve, is_absolute, realpath, lstat}

  -- A path that is found safe is made of steps, none of which stays or goes up, that joined by
  -- slashes are the path; resolved from the root they stay in it, what is there was no symbolic
  -- link when it was looked at, and the real path that is handed out stands in the real root.
  abbrev pub IsConfined : String → String → W → SafePath → Type 0
  IsConfined root path w p =
      (segments : List String) × (info : Info) × (v u : W) × (join_with "/" segments ≡ path)
      × All IsStep segments
      × IsUnder sep (resolve root []) (resolve root segments)
      × ((lstat (resolve root segments) v).0 ≡ ok info)
      × (info.kind ≢ symlink)
      × ((realpath root w).0 ≡ ok p.root_real)
      × ((realpath (resolve root segments) u).0 ≡ ok p.absolute)
      × IsUnder sep p.root_real p.absolute

  -- A path that is found safe is made of steps, none of which is empty, stays or goes up, and which
  -- joined by slashes are the path. Resolved from the root, they stand in the resolved root. What is
  -- there was no symbolic link when it was looked at. The path handed out is its real path, and is
  -- the real path of the root or stands behind it and a separator.
  pub safe_workspace_path-IsConfined :
      (root path : String) (w : W) (p : SafePath)
      → (safe_workspace_path files root path w).0 ≡ ok p
      → IsConfined root path w p
  safe_workspace_path-IsConfined root path w p h =
      let (segments, info, v, u, rooted, split, lexical, seen, plain, real, within) =
        safe_workspace_path-Checked files root path w p h in
      let (joined, good, _) = workspace_segments-join_with is_absolute path segments split in
      (
        segments,
        info,
        v,
        u,
        joined,
        All-IsStep segments good,
        inside-IsUnder sep (resolve root []) (resolve root segments) lexical,
        seen,
        not_symlink info.kind plain,
        rooted,
        real,
        inside-IsUnder sep p.root_real p.absolute within,
      )
