-- ===== src/Router/Detach.antt =====
-- `detach` of crates/tinybus/src/router.rs: the names it releases and the callback scopes it revokes.
use tinybus.Prelude.{
  ℕ, ◌≡◌, none, some, arith, get, get-remove, nat_eq, eq_iff, ◌==◌, option_eq, if◌then◌else◌,
  Option-cases, inl, inr,
}
use tinybus.Name.Types.{BusName, bus_name_eq}
use tinybus.Router.{Peer, Router, detach, owner_of}
use tinybus.Router.Callbacks.{Heap}
use tinybus.Router.Laws.{names-detach}
use tinybus.Router.Coherent.{IsCoherent}

module _ {Sender : Type 0} where
  peers-detach :
      (heap : Heap) (r : Router Sender) (id : ℕ) (p : Peer Sender) (j : ℕ)
      → get r.peers id ≡ some p
      → get (detach heap r id).1.0.peers j ≡ (if id == j then none else get r.peers j)
  unfolding detach
  peers-detach heap r id p j e = rw (e, detach) (get-remove r.peers id j)

  -- Detaching an attached peer of a coherent table takes away exactly the names that it owned:
  -- every other name keeps its owner.
  pub detach-owner_of :
      (heap : Heap) (r : Router Sender) (id : ℕ) (p : Peer Sender) (n : BusName)
      → IsCoherent r
      → get r.peers id ≡ some p
      → owner_of (detach heap r id).1.0 n
        ≡ (if get r.names n == some id then none else owner_of r n)
  unfolding owner_of
  detach-owner_of heap r id p n c e = elim (Option-cases (get r.names n)) [
    | inl free ↦ ground (arith, names-detach heap r id p n c.distinct_names e, free)
    | inr (j, y) ↦ ground (
      arith,
      names-detach heap r id p n c.distinct_names e,
      y,
      peers-detach heap r id p j e,
      eq_iff j id,
      eq_iff id j,
    )
  ]
