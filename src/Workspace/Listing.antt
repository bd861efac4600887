-- ===== src/Workspace/Listing.antt =====
-- A listing shows every entry that is asked for once, in its order.
use dsh_chaos.Common.{
  ℕ, ◌<◌, String, Bool, true, false, not, ◌||◌, List, [], ◌∷◌, map, filter, All, ltb, nat_eq, ◌≡◌,
  refl, sym, ap, ◌∙◌, subst, ◌⊎◌, inl, inr, arith, Bool-cases,
}
use mathlib.Core.List.{Permᴰ}
use mathlib.Core.List.Permᴰ
use dsh_chaos.Common.Results.{ok}
use dsh_chaos.Common.Acts.{bind-eq-ok, demand-eq-ok, give-eq-ok}
use dsh_chaos.Workspace.Files.{Files, Info, Kind, directory}
use dsh_chaos.Workspace.Paths.{
  SafePath, Entry, rank, is_hidden, is_directory, comes_before, insert_entry, sort_entries,
  entry_of, entries_of, list_agent_workspace, safe_workspace_path,
}

only_directory : (k : Kind) → is_directory k ≡ true → k ≡ directory
only_directory k h = ground arith

-- `localeCompare` orders the names: any two are comparable, and the order is transitive.
pub record IsNameOrder (compare_names : String → String → Bool) : Type 0 where
  pub total : (a b : String) → (compare_names a b ≡ true) ⊎ (compare_names b a ≡ true)
  pub trans :
      (a b c : String)
      → compare_names a b ≡ true
      → compare_names b c ≡ true
      → compare_names a c ≡ true

module _ (compare_names : String → String → Bool) where
  -- Directories stand before files and files before links; those of one kind stand by name.
  abbrev pub IsBefore : Entry → Entry → Type 0
  IsBefore a b = (rank a < rank b) ⊎ ((rank a ≡ rank b) × (compare_names a.name b.name ≡ true))

  abbrev pub IsListed : List Entry → Type 0
  IsListed [] = Unit
  IsListed (e ∷ es) = All (IsBefore e) es × IsListed es

  comes_before-IsBefore : (a b : Entry) → comes_before compare_names a b ≡ true → IsBefore a b
  unfolding comes_before
  comes_before-IsBefore a b h = elim (Bool-cases (ltb (rank a) (rank b))) [
    | inl less ↦ inl (ground arith)
    | inr other ↦ inr (ground arith, ground arith)
  ]

  insert_entry-perm :
      (e : Entry) (es : List Entry)
      → Permᴰ (map (λ x. x.name) (insert_entry compare_names e es)) (e.name ∷ map (λ x. x.name) es)
  unfolding insert_entry
  insert_entry-perm e [] = Permᴰ.refl _
  insert_entry-perm e (x ∷ xs) = elim (Bool-cases (comes_before compare_names e x)) [
    | inl before ↦ rw before (Permᴰ.refl _)
    | inr behind ↦
        rw behind (Permᴰ.trans (Permᴰ.cons refl (insert_entry-perm e xs)) (Permᴰ.swap refl refl))
  ]

  sort_entries-perm :
      (es : List Entry)
      → Permᴰ (map (λ x. x.name) (sort_entries compare_names es)) (map (λ x. x.name) es)
  unfolding sort_entries
  sort_entries-perm [] = Permᴰ.nil
  sort_entries-perm (e ∷ es) =
      Permᴰ.trans (insert_entry-perm e (sort_entries compare_names es))
        (Permᴰ.cons refl (sort_entries-perm es))

  insert_entry-All :
      (P : Entry → Type 0) (e : Entry) (es : List Entry)
      → P e
      → All P es
      → All P (insert_entry compare_names e es)
  unfolding insert_entry
  insert_entry-All P e [] p h = (p, tt)
  insert_entry-All P e (x ∷ xs) p (q, h) = elim (Bool-cases (comes_before compare_names e x)) [
    | inl before ↦ rw before (p, (q, h))
    | inr behind ↦ rw behind (q, insert_entry-All P e xs p h)
  ]

  module _ (order : IsNameOrder compare_names) where
    behind-IsBefore : (a b : Entry) → comes_before compare_names a b ≡ false → IsBefore b a
    unfolding comes_before
    behind-IsBefore a b h = elim (order.total a.name b.name) [
      | inl ab ↦ inl (ground arith)
      | inr ba ↦ elim (Bool-cases (nat_eq (rank a) (rank b))) [
        | inl same ↦ inr (ground arith, ba)
        | inr other ↦ inl (ground arith)
      ]
    ]

    IsBefore-trans : (a b c : Entry) → IsBefore a b → IsBefore b c → IsBefore a c
    IsBefore-trans a b c (inl h) (inl k) = inl (omega arith)
    IsBefore-trans a b c (inl h) (inr k) = inl (ground arith)
    IsBefore-trans a b c (inr h) (inl k) = inl (ground arith)
    IsBefore-trans a b c (inr h) (inr k) = inr (h.0 ∙ k.0, order.trans a.name b.name c.name h.1 k.1)

    All-IsBefore :
        (a b : Entry) (es : List Entry) → IsBefore a b → All (IsBefore b) es → All (IsBefore a) es
    All-IsBefore a b [] h k = tt
    All-IsBefore a b (e ∷ es) h (k, ks) = (IsBefore-trans a b e h k, All-IsBefore a b es h ks)

    insert_entry-IsListed :
        (e : Entry) (es : List Entry) → IsListed es → IsListed (insert_entry compare_names e es)
    unfolding insert_entry
    insert_entry-IsListed e [] h = (tt, tt)
    insert_entry-IsListed e (x ∷ xs) (k, h) = elim (Bool-cases (comes_before compare_names e x)) [
      | inl before ↦
          let first = comes_before-IsBefore e x before in
          rw before ((first, All-IsBefore e x xs first k), (k, h))
      | inr behind ↦ rw behind (
        insert_entry-All (IsBefore x) e xs (behind-IsBefore e x behind) k,
        insert_entry-IsListed e xs h,
      )
    ]

    sort_entries-IsListed : (es : List Entry) → IsListed (sort_entries compare_names es)
    unfolding sort_entries
    sort_entries-IsListed [] = tt
    sort_entries-IsListed (e ∷ es) =
        insert_entry-IsListed e (sort_entries compare_names es) (sort_entries-IsListed es)

module _ {W Handle : Type 0} (files : Files W Handle) where
  names-entry_of :
      (place : SafePath) (sep_char : ℕ) (name : String) (w : W) (e : Entry)
      → (entry_of files place sep_char name w).0 ≡ ok e
      → e.name ≡ name
  unfolding entry_of
  names-entry_of place sep_char name w e h =
      let (info, seen, h1) = bind-eq-ok _ _ w e h in sym (ap (λ x. x.name) (give-eq-ok _ e _ h1))

  names-entries_of :
      (place : SafePath) (sep_char : ℕ) (names : List String) (w : W) (es : List Entry)
      → (entries_of files place sep_char names w).0 ≡ ok es
      → map (λ e. e.name) es ≡ names
  unfolding entries_of
  names-entries_of place sep_char [] w es h = ap (map (λ e. e.name)) (sym (give-eq-ok _ es _ h))
  names-entries_of place sep_char (name ∷ names) w es h =
      let (e, one, h1) = bind-eq-ok _ _ w es h in
      let (rest, others, h2) = bind-eq-ok _ _ _ es h1 in
      let head_name = names-entry_of place sep_char name w e one in
      let tail_names = names-entries_of place sep_char names _ rest others in
      ap (map (λ x. x.name)) (sym (give-eq-ok _ es _ h2))
      ∙ ap (λ n. n ∷ map (λ x. x.name) rest) head_name
      ∙ ap (λ ns. name ∷ ns) tail_names

  module _ (compare_names : String → String → Bool) (order : IsNameOrder compare_names) where
    -- A listing that is returned is of a directory behind the safe path. Its names are those that
    -- the directory was read to have, without the hidden ones unless they are asked for, each as
    -- often, and they stand with directories before files, files before links, and by name.
    pub list_agent_workspace-perm :
        (sep_char : ℕ) (root path : String) (hidden_too : Bool) (w : W) (es : List Entry)
        → (list_agent_workspace files compare_names sep_char root path hidden_too w).0 ≡ ok es
        → (place : SafePath) × (info : Info) × (names : List String) × (v u : W)
          × ((safe_workspace_path files root path w).0 ≡ ok place)
          × ((files.lstat place.absolute v).0 ≡ ok info)
          × (info.kind ≡ directory)
          × ((files.readdir place.absolute u).0 ≡ ok names)
          × Permᴰ (map (λ e. e.name) es) (filter (λ n. hidden_too || not (is_hidden n)) names)
          × IsListed compare_names es
    unfolding list_agent_workspace
    list_agent_workspace-perm sep_char root path hidden_too w es h =
        let (place, safe, h1) = bind-eq-ok _ _ w es h in
        let (info, seen, h2) = bind-eq-ok _ _ _ es h1 in
        let (a_directory, h3) = demand-eq-ok _ _ _ _ es h2 in
        let (names, found, h4) = bind-eq-ok _ _ _ es h3 in
        let (rows, read, h5) = bind-eq-ok _ _ _ es h4 in
        let sorted = give-eq-ok _ es _ h5 in
        let named = names-entries_of place sep_char _ _ rows read in
        (
          place,
          info,
          names,
          _,
          _,
          safe,
          seen,
          only_directory info.kind a_directory,
          found,
          subst
              (λ xs.
                Permᴰ (map (λ e. e.name) xs) (filter (λ n. hidden_too || not (is_hidden n)) names))
              sorted
              (subst (Permᴰ (map (λ e. e.name) (sort_entries compare_names rows))) named
                (sort_entries-perm compare_names rows)),
          subst (IsListed compare_names) sorted (sort_entries-IsListed compare_names order rows),
        )
