-- ===== src/Runtime/Manager.antt =====
-- src/runtime.ts: the manager's maps: leases, identity projections and pending receipts.
use dsh_chaos.Common.{
  String, Bool, not, ◌&&◌, ◌||◌, Option, none, some, List, [], ◌∷◌, leb, nat_eq, is_some,
  if◌then◌else◌, or_else, find, ◌==◌,
}
use dsh_chaos.Common.Maps.{lookup, insert, delete, values}
use dsh_chaos.Common.Texts.{concat, big_int, trim, is_empty}
use dsh_chaos.Common.Results.{Result, ok, throws}
use dsh_chaos.Wire.{Profile, RuntimeBinding}
use dsh_chaos.Runtime.Host.{
  Agent, Host, Lease, Receipt, Manager, M, pure, fail, ◌>>=◌, ◌>>◌, try_catch, require, call,
  manager_of, set_manager, warn,
}

unfoldable pub same_binding : RuntimeBinding → RuntimeBinding → Bool
same_binding left right =
    left.agent_id == right.agent_id
    && left.session_id == right.session_id
    && left.generation == right.generation

unfoldable pub require_text : {W : Type 0} → String → String → M W (Unit {0})
require_text name value =
    require (not (is_empty (trim value))) (concat (name ∷ " must not be blank" ∷ []))

unfoldable pub assert_active : {W : Type 0} → M W (Unit {0})
assert_active = do m ← manager_of; require (not m.closing) "dsh-chaos RuntimeManager is closing"

-- A projection is replaced by one of no older version.
unfoldable pub update_identity_projection : Profile → Manager → Manager
update_identity_projection profile m = elim (lookup profile.actor.id m.identities) [
  | none ↦ record m { identities = insert profile.actor.id profile m.identities }
  | some current ↦
      if leb (big_int current.version) (big_int profile.version)
      then record m { identities = insert profile.actor.id profile m.identities }
      else m
]

unfoldable pub forget_identity : String → Manager → Manager
forget_identity agent_id m = record m { identities = delete agent_id m.identities }

unfoldable pub require_identity : String → Manager → Result Profile
require_identity agent_id m = elim (lookup agent_id m.identities) [
  | none ↦ throws (concat ("no identity projection for Agent " ∷ agent_id ∷ []))
  | some identity ↦ ok identity
]

-- The Agent whose lease is the binding's exact generation.
unfoldable pub resolve : RuntimeBinding → Manager → Option Agent
resolve binding m = elim (lookup binding.agent_id m.active) [
  | none ↦ none
  | some lease ↦ if same_binding lease.binding binding then some lease.agent else none
]

unfoldable pub record_inbox_batch : RuntimeBinding → String → Manager → Result Manager
record_inbox_batch binding batch_id m =
    let receipts = or_else (lookup binding.session_id m.pending_receipts) [] in
    let receipt : Receipt = record { batch_id = batch_id; binding = binding } in
    let recorded : Manager = record m {
      pending_receipts =
          insert binding.session_id (insert batch_id receipt receipts) m.pending_receipts;
    } in
    let stale : String =
      concat ("cannot record inbox batch for stale Agent " ∷ binding.agent_id ∷ []) in
    elim (lookup binding.agent_id m.active) [
      | none ↦ throws stale
      | some lease ↦ if same_binding lease.binding binding then ok recorded else throws stale
    ]

module _ {W : Type 0} (host : Host W) where
  -- The lease leaves the map before its handle is disposed, and comes back where that fails and
  -- no other lease has taken its place.
  unfoldable pub dispose_lease : String → M W (Unit {0})
  dispose_lease agent_id = do
    m ← manager_of
    elim (lookup agent_id m.active) [
      | none ↦ pure tt
      | some lease ↦ do
        set_manager (record m {
          active = delete agent_id m.active;
          pending_receipts = delete lease.binding.session_id m.pending_receipts;
        })
        try_catch (call (host.dispose lease.agent)) λ error. do
          now ← manager_of
          set_manager (
              if is_some (lookup agent_id now.active)
              then now
              else record now { active = insert agent_id lease now.active })
          fail error
    ]

  unfoldable pub binding_for_execution : Agent → M W RuntimeBinding
  binding_for_execution agent = do
    found ← call (host.runtime_binding_for_session agent.id)
    elim found [
      | none ↦ fail (concat ("DSH Session " ∷ agent.id ∷ " is not bound to a collab Agent" ∷ []))
      | some binding ↦ do
        m ← manager_of
        let stale : String =
            concat ("DSH Session " ∷ agent.id ∷ " is not the current runtime generation" ∷ [])
        elim (lookup binding.agent_id m.active) [
          | none ↦ fail stale
          | some lease ↦
              if not (nat_eq lease.agent.key agent.key) || not (same_binding lease.binding binding)
              then fail stale
              else pure binding
        ]
    ]

  -- One receipt: the error of a confirmation is logged, and the receipt stays.
  unfoldable pub confirm_receipt : String → Receipt → M W (Unit {0})
  confirm_receipt session_id receipt =
      try_catch
        (do
          call (
              host.mark_model_seen receipt.batch_id receipt.binding.agent_id
                receipt.binding.generation receipt.binding.session_id)
          m ← manager_of
          let receipts = or_else (lookup session_id m.pending_receipts) []
          set_manager (record m {
            pending_receipts =
                insert session_id (delete receipt.batch_id receipts) m.pending_receipts;
          }))
        λ error. warn (concat ("dsh-chaos: failed to confirm inbox batch " ∷ receipt.batch_id ∷ []))

  unfoldable pub confirm_receipts : String → List Receipt → M W (Unit {0})
  confirm_receipts session_id [] = pure tt
  confirm_receipts session_id (r ∷ rs) = do
    confirm_receipt session_id r
    confirm_receipts session_id rs

  unfoldable pub confirm_model_seen : String → M W (Unit {0})
  confirm_model_seen session_id = do
    m ← manager_of
    elim (or_else (lookup session_id m.pending_receipts) []) [
      | [] ↦ pure tt
      | r ∷ rs ↦ do
        confirm_receipts session_id (values (r ∷ rs))
        after ← manager_of
        elim (or_else (lookup session_id after.pending_receipts) []) [
          | [] ↦
              set_manager
                (record after { pending_receipts = delete session_id after.pending_receipts })
          | _ ∷ _ ↦ pure tt
        ]
    ]

  unfoldable pub rearm_unconfirmed : Agent → M W (Unit {0})
  rearm_unconfirmed agent = do
    m ← manager_of
    elim (find (λ (l : Lease). nat_eq l.agent.key agent.key) (values m.active)) [
      | none ↦ pure tt
      | some lease ↦ elim (lookup lease.binding.session_id m.pending_receipts) [
        | none ↦ pure tt
        | some _ ↦ call (
            host.rearm_runtime_wake lease.binding.agent_id lease.binding.generation
              lease.binding.session_id)
      ]
    ]
