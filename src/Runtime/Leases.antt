-- ===== src/Runtime/Leases.antt =====
-- What the operations of the manager do to its leases.
use dsh_chaos.Common.{String, Option, none, some, ◌≡◌, inl, inr, refl, ◌∙◌, arith, Option-cases}
use dsh_chaos.Common.Maps.{lookup, delete, lookup-delete_self, lookup-insert_self}
use dsh_chaos.Common.Results.{ok, throws}
use dsh_chaos.Wire.{Profile}
use dsh_chaos.Runtime.Host.{Host, Manager, Machine, monad}
use dsh_chaos.Common.Results.{Result-cases}
use dsh_chaos.Runtime.Frame.{Within, IsPreorder, frame}
use dsh_chaos.Runtime.Manager.{
  dispose_lease, update_identity_projection, assert_active, require_text,
}
use dsh_chaos.Runtime.Lifecycle.{
  CreateInput, prepare_runtime, prepare_identity, resolve_preset, session_id_of,
}

abbrev pub SameActive : Manager → Manager → Type 0
SameActive m n = n.active ≡ m.active

SameActive-IsPreorder : IsPreorder SameActive
SameActive-IsPreorder = record { same = λ m. refl; trans = λ m n p h k. k ∙ h }

module _ {W : Type 0} (host : Host W) where
  pub prepare_identity-SameActive :
      (path : String) (identity : Profile) → Within SameActive (prepare_identity host path identity)
  unfolding prepare_identity update_identity_projection monad
  prepare_identity-SameActive path identity = record { apply = λ s. ground arith }

  pub assert_active-SameActive : Within SameActive (assert_active {W = W})
  unfolding assert_active
  assert_active-SameActive = search (frame, SameActive-IsPreorder)

  pub resolve_preset-SameActive : (p : String) → Within SameActive (resolve_preset host p)
  unfolding resolve_preset
  resolve_preset-SameActive p = search (frame, SameActive-IsPreorder)

  session_id_of-SameActive : (o : Option String) → Within SameActive (session_id_of host o)
  unfolding session_id_of
  session_id_of-SameActive none = search (frame, SameActive-IsPreorder)
  session_id_of-SameActive (some id) = search (frame, SameActive-IsPreorder)

  -- Checking and initialising a replacement leaves the leases alone.
  pub prepare_runtime-SameActive :
      (input : CreateInput) → Within SameActive (prepare_runtime host input)
  unfolding prepare_runtime require_text
  prepare_runtime-SameActive input =
      search
        (
          frame, SameActive-IsPreorder, prepare_identity-SameActive, assert_active-SameActive,
          resolve_preset-SameActive, session_id_of-SameActive,
        )
        depth 20

  -- Where disposing the lease of an Agent returns, that Agent has no lease any more.
  pub dispose_lease-removes :
      (id : String) (s : Machine W)
      → (dispose_lease host id s).0 ≡ ok tt
      → lookup id (dispose_lease host id s).1.active ≡ none
  unfolding dispose_lease monad
  dispose_lease-removes id s done = elim (Option-cases (lookup id s.active)) [
    | inl e ↦ ground arith
    | inr (lease, e) ↦ elim (Result-cases (host.dispose lease.agent s.world).0) [
      | inl (x, f) ↦ ground (arith, lookup-delete_self id s.active)
      | inr (message, f) ↦ ground arith
    ]
  ]

  -- Where disposing the lease of an Agent throws, the map has for that Agent what it had before.
  pub dispose_lease-keeps :
      (id message : String) (s : Machine W)
      → (dispose_lease host id s).0 ≡ throws message
      → lookup id (dispose_lease host id s).1.active ≡ lookup id s.active
  unfolding dispose_lease monad
  dispose_lease-keeps id message s failed = elim (Option-cases (lookup id s.active)) [
    | inl e ↦ ground arith
    | inr (lease, e) ↦ elim (Result-cases (host.dispose lease.agent s.world).0) [
      | inl (x, f) ↦ ground arith
      | inr (m, f) ↦
          ground (
            arith,
            lookup-delete_self id s.active,
            lookup-insert_self id lease (delete id s.active),
          )
    ]
  ]
