-- ===== src/Service/Deletion.antt =====
-- A deleted Agent leaves nothing with the manager.
use dsh_chaos.Common.{
  ℕ, String, Bool, not, Option, none, some, List, [], ◌∷◌, ◌≡◌, refl, ap, ◌∙◌, inl, inr, arith,
  Bool-cases, Option-cases,
}
use dsh_chaos.Common.Maps.{lookup, lookup-delete_self}
use dsh_chaos.Common.Texts.{trim, is_empty}
use dsh_chaos.Common.Results.{Result, ok, throws}
use dsh_chaos.Common.Acts.{Act, ◌>>◌, bind_at, bind-eq-ok, acting}
use dsh_chaos.Runtime.Host.{Host, Machine, Manager, monad}
use dsh_chaos.Runtime.Manager.{require_text, forget_identity}
use dsh_chaos.Runtime.Lifecycle.{stop}
use dsh_chaos.Runtime.Leases.{dispose_lease-removes}
use dsh_chaos.Workspace.Files.{Files}
use dsh_chaos.Service.Core.{Core, Platform}
use dsh_chaos.Service.State.{
  Service, require_handle, require_runtimes, heard, notify_each, publish_change, host_of,
}
use dsh_chaos.Service.Agents.{managed, stop_runtime, update_runtimes, delete_agent}

stop-removes :
    {W : Type 0} (host : Host W) (id : String) (s : Machine W)
    → (stop host id s).0 ≡ ok tt
    → lookup id (stop host id s).1.manager.active ≡ none
unfolding stop require_text monad
stop-removes host id s h = elim (Bool-cases (not (is_empty (trim id)))) [
  | inl given ↦ ground (arith, dispose_lease-removes host id s)
  | inr blank ↦ absurd (ground arith)
]

module _ {W : Type 0} (platform : Platform W) where
  heard-runtimes :
      (s : Service W) (x : (Result (Unit {0}) × List ℕ) × W)
      → (heard platform s x).runtimes ≡ s.runtimes
  heard-runtimes s ((ok u, ls), w) = refl
  heard-runtimes s ((throws e, ls), w) = refl

  pub notify_each-runtimes :
      (ls : List ℕ) (s : Service W) → (notify_each platform ls s).runtimes ≡ s.runtimes
  unfolding notify_each
  notify_each-runtimes [] s = refl
  notify_each-runtimes (l ∷ ls) s =
      let x = platform.notify l s.listeners s.world in
      notify_each-runtimes ls (heard platform s x) ∙ heard-runtimes s x

-- The manager, where there is one, has nothing of this Agent.
abbrev pub Forgotten : {W : Type 0} → String → Service W → Type 0
Forgotten agent s =
    (m : Manager) × (s.runtimes ≡ some m)
    × (lookup agent m.active ≡ none)
    × (lookup agent m.identities ≡ none)

module _ {W Handle : Type 0} (core : Core W) (platform : Platform W) (files : Files W Handle)
    (instructions : String) (compare_names : String → String → Bool) (sep_char : ℕ) where
  stop_runtime-removes :
      (agent : String) (s : Service W)
      → (stop_runtime core platform files instructions compare_names sep_char agent s).0 ≡ ok tt
      → (m : Manager) × ((stop_runtime core platform files instructions compare_names sep_char agent
            s).1.runtimes
          ≡ some m)
        × (lookup agent m.active ≡ none)
  unfolding stop_runtime managed require_runtimes
  stop_runtime-removes agent s h = elim (Option-cases s.runtimes) [
    | inl missing ↦ absurd (ground arith)
    | inr (m, found) ↦
        let machine : Machine W = record { manager = m; world = s.world; warnings = s.warnings } in
        let host = host_of core platform files instructions s.active in
        let gone = stop-removes host agent machine (ground arith) in
        ((stop host agent machine).1.manager, ground arith, gone)
  ]

  require_handle-runtimes :
      {A : Type 0} (c : Act W A) (s : Service W) → (require_handle c s).1.runtimes ≡ s.runtimes
  unfolding require_handle
  require_handle-runtimes c s = ground arith

  ending :
      (agent : String) (m : Manager) (t : Service W)
      → t.runtimes ≡ some m
      → ((update_runtimes core platform files instructions compare_names sep_char
              (forget_identity agent)
            >> publish_change platform)
          t).1.runtimes
        ≡ some (forget_identity agent m)
  unfolding update_runtimes publish_change acting
  ending agent m t h =
      notify_each-runtimes platform t.listeners _
      ∙ ap
          (λ o. elim o as (λ _. Option Manager) [
            | none ↦ none
            | some n ↦ some (forget_identity agent n)
          ])
          h

  -- Where an Agent is deleted, its Session was stopped: the manager has no lease of it, and no
  -- identity.
  pub delete_agent-Forgotten :
      (agent : String) (s : Service W)
      → (delete_agent core platform files instructions compare_names sep_char agent s).0 ≡ ok tt
      → Forgotten agent
          (delete_agent core platform files instructions compare_names sep_char agent s).1
  unfolding delete_agent forget_identity
  delete_agent-Forgotten agent s h =
      let (u, stopped, h1) = bind-eq-ok _ _ s tt h in
      let (v, deleted, h2) = bind-eq-ok _ _ _ tt h1 in
      let (m, left, gone) = stop_runtime-removes agent s stopped in
      let start =
        (stop_runtime core platform files instructions compare_names sep_char agent s).1 in
      let t = (require_handle (core.delete_agent agent) start).1 in
      let kept : t.runtimes ≡ some m =
        require_handle-runtimes (core.delete_agent agent) start ∙ left in
      let whole = bind_at _ _ s u stopped ∙ bind_at _ _ start v deleted in
      (
        forget_identity agent m,
        ap (λ r. r.1.runtimes) whole ∙ ending agent m t kept,
        gone,
        lookup-delete_self agent m.identities,
      )
