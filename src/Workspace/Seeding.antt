-- ===== src/Workspace/Seeding.antt =====
-- A seed is published whole or not at all, and its temporary name goes in every case.
use dsh_chaos.Common.{String, ◌≡◌, refl, ap, ◌∙◌, ◌⊎◌, inl, inr, arith}
use dsh_chaos.Common.Texts.{append}
use dsh_chaos.Common.Results.{ok, Result-cases}
use dsh_chaos.Common.Acts.{
  Act, give, acting, bind_at, bind-eq-ok, demand, finally_do-eq-ok, finally_do,
}
use dsh_chaos.Workspace.Files.{Files, Info, Linked, linked, exists, file}
use dsh_chaos.Workspace.Seeds.{require_regular_file, publish_seed, drop_seed, seed_file}

module _ {W Handle : Type 0} (files : Files W Handle) where
  drop_seed-removes :
      (handle : Handle) (temporary : String) (w : W)
      → (v : W) × (drop_seed files handle temporary w ≡ files.remove temporary v)
  unfolding drop_seed acting
  drop_seed-removes handle temporary w = elim (Result-cases (files.close handle w).0) [
    | inl (u, e) ↦ ((files.close handle w).1, ground arith)
    | inr (e, failed) ↦ ((files.close handle w).1, ground arith)
  ]

  finally-ends :
      {A : Type 0} (act : Act W A) (cleanup : Act W (Unit {0})) (w : W)
      → (v : W) × ((finally_do act cleanup w).1 ≡ (cleanup v).1)
  unfolding acting
  finally-ends act cleanup w = elim (Result-cases (cleanup (act w).1).0) [
    | inl (u, e) ↦ ((act w).1, ground arith)
    | inr (e, failed) ↦ ((act w).1, ground arith)
  ]

  -- Where the temporary file of a seed was made, the last call that `seedFile` makes removes its
  -- name, however the writing, the closing and the linking end.
  pub seed_file-removes :
      (root name content uuid : String) (handle : Handle) (w : W)
      → (files.random_uuid w).0 ≡ ok uuid
      → (files.open_new (files.join root (append ".chaos-seed-" uuid)) (files.random_uuid w).1).0
        ≡ ok handle
      → (v : W) × ((seed_file files root name content w).1
          ≡ (files.remove (files.join root (append ".chaos-seed-" uuid)) v).1)
  unfolding seed_file
  seed_file-removes root name content uuid handle w drawn made =
      let temporary = files.join root (append ".chaos-seed-" uuid) in
      let u = (files.open_new temporary (files.random_uuid w).1).1 in
      let (v, ended) =
        finally-ends (publish_seed files handle temporary (files.join root name) content)
          (drop_seed files handle temporary) u in
      let (x, dropped) = drop_seed-removes handle temporary v in
      let opened = bind_at files.random_uuid _ w uuid drawn in
      let within = bind_at (files.open_new temporary) _ (files.random_uuid w).1 handle made in
      (x, ap (λ r. r.1) opened ∙ ap (λ r. r.1) within ∙ ended ∙ ap (λ r. r.1) dropped)

  published :
      (target : String) (outcome : Linked) (w : W)
      → ((elim outcome as (λ _. Act W (Unit {0})) [
        | linked ↦ give tt
        | exists ↦ require_regular_file files target
      ])
          w).0
        ≡ ok tt
      → (outcome ≡ linked)
        ⊎ ((info : Info) × (u : W) × ((files.lstat target u).0 ≡ ok info) × (info.kind ≡ file))
  unfolding require_regular_file demand
  published target linked w h = inl refl
  published target exists w h =
      let (info, seen, h1) = bind-eq-ok _ _ w tt h in inr (info, w, seen, ground arith)

  -- A seed that is reported as published was linked under its name, or a regular file was there.
  pub seed_file-publishes :
      (root name content : String) (w : W)
      → (seed_file files root name content w).0 ≡ ok tt
      → (temporary : String) × (outcome : Linked) × (v : W) × ((files.link temporary
            (files.join root name)
            v).0
          ≡ ok outcome)
        × ((outcome ≡ linked)
            ⊎ ((info : Info) × (u : W) × ((files.lstat (files.join root name) u).0 ≡ ok info)
                × (info.kind ≡ file)))
  unfolding seed_file publish_seed
  seed_file-publishes root name content w h =
      let (uuid, drawn, h1) = bind-eq-ok _ _ w tt h in
      let (handle, made, h2) = bind-eq-ok _ _ _ tt h1 in
      let h3 = finally_do-eq-ok _ _ _ tt h2 in
      let (a, written, h4) = bind-eq-ok _ _ _ tt h3 in
      let (b, closed, h5) = bind-eq-ok _ _ _ tt h4 in
      let (outcome, joined, h6) = bind-eq-ok _ _ _ tt h5 in
      (
        files.join root (append ".chaos-seed-" uuid),
        outcome,
        _,
        joined,
        published (files.join root name) outcome _ h6,
      )
