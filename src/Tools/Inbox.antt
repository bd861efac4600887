-- ===== src/Tools/Inbox.antt =====
-- What `message_check` hands to the model, and what it leaves behind.
use dsh_chaos.Common.{
  ℕ, ◌≤◌, String, Option, none, some, List, [], ◌∷◌, map, All, or_else, ◌≡◌, refl, sym, ap, subst,
  ◌⊎◌, inl, inr, arith,
}
use dsh_chaos.Common.Results.{ok}
use dsh_chaos.Common.Acts.{bind-eq-ok, demand-eq-ok, give-eq-ok}
use dsh_chaos.Wire.{Membership, IdentityContext, InboxBatch, RuntimeBinding}
use dsh_chaos.Tools.Resolve.{Core}
use dsh_chaos.Tools.Reading.{
  Inbox, actor_for_model, member_for_model, identity_context_for_model, record_batch, message_check,
}

-- No actor of the context has an avatar.
abbrev pub IsBare : IdentityContext → Type 0
IsBare c =
    (c.agent.actor.avatar_data_url ≡ none) × All (λ m. m.actor.avatar_data_url ≡ none) c.members

members-bare :
    (ms : List Membership) → All (λ m. m.actor.avatar_data_url ≡ none) (map member_for_model ms)
unfolding member_for_model actor_for_model
members-bare [] = tt
members-bare (m ∷ ms) = (refl, members-bare ms)

contexts-IsBare : (cs : List IdentityContext) → All IsBare (map identity_context_for_model cs)
unfolding identity_context_for_model actor_for_model
contexts-IsBare [] = tt
contexts-IsBare (c ∷ cs) = ((refl, members-bare c.members), contexts-IsBare cs)

-- Whether the batch was recorded, where it has an id.
abbrev pub Records : {W : Type 0} → Inbox W → RuntimeBinding → Option String → W → Type 0
Records inbox binding id v =
    (id ≡ none)
    ⊎ ((given : String) × (id ≡ some given)
        × ((inbox.record_inbox_batch binding given v).0 ≡ ok tt))

module _ {W : Type 0} (core : Core W) (inbox : Inbox W) where
  recorded_lem :
      (binding : RuntimeBinding) (id : Option String) (v : W)
      → (record_batch core inbox binding id v).0 ≡ ok tt
      → Records inbox binding id v
  unfolding record_batch
  recorded_lem binding none v h = inl refl
  recorded_lem binding (some id) v h = inr (id, refl, h)

  -- A batch that `message_check` returns is of 1 to 100 messages asked of the core for the calling
  -- Agent's own binding, has the core's messages, shows no avatar in its contexts, and was recorded
  -- for that binding if it has an id.
  pub message_check-Records :
      (binding : RuntimeBinding) (limit : Option ℕ) (w : W) (batch : InboxBatch)
      → (message_check core inbox binding limit w).0 ≡ ok batch
      → (read : InboxBatch) × (v : W) × ((1 ≤ or_else limit 50) × (or_else limit 50 ≤ 100))
        × ((inbox.check_inbox binding.agent_id binding.generation binding.session_id
              (or_else limit 50)
              w).0
            ≡ ok read)
        × (batch.messages ≡ read.messages)
        × All IsBare batch.contexts
        × Records inbox binding read.id v
  unfolding message_check
  message_check-Records binding limit w batch h =
      let (page, h1) = demand-eq-ok _ _ _ w batch h in
      let (read, found, h2) = bind-eq-ok _ _ w batch h1 in
      let (u, kept, h3) = bind-eq-ok _ _ _ batch h2 in
      let same = give-eq-ok _ batch _ h3 in
      (
        read,
        _,
        (ground arith, ground arith),
        found,
        sym (ap (λ b. b.messages) same),
        subst (λ b. All IsBare b.contexts) same (contexts-IsBare read.contexts),
        recorded_lem binding read.id _ kept,
      )
