-- ===== src/Service/Visibility.antt =====
-- An Agent that the viewer does not see is out of reach.
use dsh_chaos.Common.{
  ℕ, String, Bool, true, ◌&&◌, Option, none, some, List, [], ◌∷◌, All, find, ◌≡◌, ◌≢◌, refl, subst,
  sym, ap, ◌∙◌, ◌⊎◌, inl, inr, arith, ◌==◌, eq_iff, Bool-cases,
}
use dsh_chaos.Common.Texts.{concat}
use dsh_chaos.Common.Results.{Result, ok, throws}
use dsh_chaos.Common.Acts.{Act, give, refuse, ◌>>=◌, ◌>>◌, bind_throws, bind_ok}
use dsh_chaos.Wire.{Actor, ActorKind}
use dsh_chaos.Remote.Request.{Request}
use dsh_chaos.Workspace.Files.{Files}
use dsh_chaos.Service.Core.{Core, Platform}
use dsh_chaos.Service.State.{Service, require_handle}
use dsh_chaos.Service.Agents.{
  is_agent, found_agent, require_visible_agent, agent_profile, update_agent_profile,
  update_agent_avatar, replace_agent_runtime, agent_workspace, agent_workspace_file,
}
use dsh_chaos.Service.Serve.{Reply, as_reply, serve}

-- The viewer and the Agent of the calls that are guarded.
abbrev pub guarded : Request → Option (String × String)
guarded (Request.agent_profile v g) = some (v, g)
guarded (Request.update_agent_profile v g _ _ _) = some (v, g)
guarded (Request.update_agent_avatar v g _ _) = some (v, g)
guarded (Request.replace_agent_runtime v g _ _ _ _) = some (v, g)
guarded (Request.agent_workspace v g _ _) = some (v, g)
guarded (Request.agent_workspace_file v g _) = some (v, g)
guarded _ = none

-- No Agent of this id is among the actors.
abbrev pub IsUnseen : String → List Actor → Type 0
IsUnseen agent actors = All (λ a. (a.id ≢ agent) ⊎ (a.kind ≡ ActorKind.user)) actors

find-unseen :
    (agent : String) (actors : List Actor)
    → IsUnseen agent actors
    → find (λ a. a.id == agent && is_agent a.kind) actors ≡ none
find-unseen agent [] h = refl
find-unseen agent (a ∷ rest) (inl other, hs) =
    let others = find-unseen agent rest hs in
    elim (Bool-cases (a.id == agent)) [
      | inl same ↦ absurd (other ((eq_iff a.id agent).0 same))
      | inr differs ↦ ground arith
    ]
find-unseen agent (a ∷ rest) (inr user, hs) = let others = find-unseen agent rest hs in ground arith

some_inj : {A : Type 0} {a b : A} → some a ≡ some b → a ≡ b
some_inj h = cc

module _ {W Handle : Type 0} (core : Core W) (platform : Platform W) (files : Files W Handle)
    (instructions : String) (compare_names : String → String → Bool) (sep_char : ℕ) where
  -- What a refused call leaves.
  abbrev pub refused : {A : Type 0} (viewer agent : String) → Service W → Result A × Service W
  refused viewer agent s = (
    throws (concat ("[not_found] Agent " ∷ agent ∷ " is not visible" ∷ [])),
    record s { world = (core.list_actors viewer s.world).1 },
  )

  module _ (viewer agent : String) (s : Service W) (actors : List Actor) (active : s.active ≡ true)
      (seen : (core.list_actors viewer s.world).0 ≡ ok actors)
      (unseen : IsUnseen agent actors) where
    listed :
        require_handle (core.list_actors viewer) s
        ≡ (ok actors, record s { world = (core.list_actors viewer s.world).1 })
    unfolding require_handle
    listed = ground arith

    not_visible :
        require_visible_agent core platform files instructions compare_names sep_char viewer agent s
        ≡ refused viewer agent s
    unfolding require_visible_agent found_agent refuse
    not_visible =
        let missing = find-unseen agent actors unseen in
        bind_ok _ _ s _ actors listed
        ∙ ap
            (λ o.
              found_agent core platform files instructions compare_names sep_char agent o
                (record s { world = (core.list_actors viewer s.world).1 }))
            missing

    guard_ends :
        {A : Type 0} (m : Act (Service W) A)
        → (require_visible_agent core platform files instructions compare_names sep_char viewer
                agent
              >>= (λ _. give tt)
              >> m)
            s
          ≡ refused viewer agent s
    guard_ends m = bind_throws _ _ s _ _ (bind_throws _ _ s _ _ not_visible)

    no_profile :
        agent_profile core platform files instructions compare_names sep_char viewer agent s
        ≡ refused viewer agent s
    unfolding agent_profile
    no_profile = guard_ends _

    replied :
        {A : Type 0} (f : A → Reply) (m : Act (Service W) A)
        → m s ≡ refused viewer agent s
        → as_reply f m s ≡ refused viewer agent s
    unfolding as_reply
    replied f m h = bind_throws m _ s _ _ h

    -- Of an Agent that is not among the actors that the core lists for the viewer, the active
    -- service shows nothing and changes nothing: each call about the Agent's profile, avatar,
    -- runtime or workspace throws that it is not visible, after that one call of the core.
    pub serve-hides :
        (req : Request)
        → guarded req ≡ some (viewer, agent)
        → serve core platform files instructions compare_names sep_char req s
          ≡ refused viewer agent s
    unfolding serve update_agent_profile update_agent_avatar replace_agent_runtime agent_workspace
        agent_workspace_file
    serve-hides (Request.agent_profile v g) h =
        subst
          (λ p.
            serve core platform files instructions compare_names sep_char
              (Request.agent_profile p.0 p.1) s
            ≡ refused viewer agent s)
          (some_inj (sym h)) (replied _ _ no_profile)
    serve-hides (Request.update_agent_profile v g n d x) h =
        subst
          (λ p.
            serve core platform files instructions compare_names sep_char
              (Request.update_agent_profile p.0 p.1 n d x) s
            ≡ refused viewer agent s)
          (some_inj (sym h)) (replied _ _ (guard_ends _))
    serve-hides (Request.update_agent_avatar v g u x) h =
        subst
          (λ p.
            serve core platform files instructions compare_names sep_char
              (Request.update_agent_avatar p.0 p.1 u x) s
            ≡ refused viewer agent s)
          (some_inj (sym h)) (replied _ _ (guard_ends _))
    serve-hides (Request.replace_agent_runtime v g p1 m q e) h =
        subst
          (λ p.
            serve core platform files instructions compare_names sep_char
              (Request.replace_agent_runtime p.0 p.1 p1 m q e) s
            ≡ refused viewer agent s)
          (some_inj (sym h)) (replied _ _ (bind_throws _ _ s _ _ no_profile))
    serve-hides (Request.agent_workspace v g d hidden) h =
        subst
          (λ p.
            serve core platform files instructions compare_names sep_char
              (Request.agent_workspace p.0 p.1 d hidden) s
            ≡ refused viewer agent s)
          (some_inj (sym h)) (replied _ _ (bind_throws _ _ s _ _ no_profile))
    serve-hides (Request.agent_workspace_file v g path) h =
        subst
          (λ p.
            serve core platform files instructions compare_names sep_char
              (Request.agent_workspace_file p.0 p.1 path) s
            ≡ refused viewer agent s)
          (some_inj (sym h)) (replied _ _ (bind_throws _ _ s _ _ no_profile))
    serve-hides req h = cc
