-- ===== src/Broker/Bus/Told.antt =====
-- What the bus of crates/tinybus/src/broker.rs announces about the owners of names.
use tinybus.Prelude.{
  ℕ, ◌≡◌, inl, inr, arith, get, get-insert, get-remove, nat_eq, list_eq, option_eq, eq_iff, eq_refl,
  Option-cases,
}
use tinybus.Name.Types.{BusName, bus_name_eq}
use tinybus.Error.{ok}
use tinybus.Router.{Router, NameChange, owner_of, unique_of, request_name, release_name}

module _ {Sender : Type 0} where
  -- The change tells who owned the name before, and who owns it now.
  abbrev pub IsTrue : Router Sender → Router Sender → NameChange → Type 0
  IsTrue before after c =
      (c.old_owner ≡ owner_of before c.name) × (c.new_owner ≡ owner_of after c.name)

  pub request_name-told :
      (r after : Router Sender) (id : ℕ) (name : BusName) (c : NameChange)
      → request_name r id name ≡ (after, ok c)
      → IsTrue r after c
  unfolding request_name unique_of owner_of
  request_name-told r after id name c h = elim (Option-cases (get r.names name)) [
    | inl e ↦
        ground (
          arith,
          h,
          e,
          get-insert r.names name name id,
          eq_refl name,
          Option-cases (get r.peers id),
        )
    | inr (owner, e) ↦ ground (arith, h, e, eq_iff owner id, Option-cases (get r.peers id))
  ]

  pub release_name-told :
      (r after : Router Sender) (id : ℕ) (name : BusName) (c : NameChange)
      → release_name r id name ≡ (after, ok c)
      → IsTrue r after c
  unfolding release_name unique_of owner_of
  release_name-told r after id name c h = elim (Option-cases (get r.names name)) [
    | inl e ↦ ground (arith, h, e)
    | inr (owner, e) ↦ ground (
      arith,
      h,
      e,
      eq_iff owner id,
      get-remove r.names name name,
      eq_refl name,
      Option-cases (get r.peers id),
    )
  ]
