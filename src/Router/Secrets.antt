-- ===== src/Router/Secrets.antt =====
-- Which outbox a confidential call reaches, and what becomes of an attestation, in
-- crates/tinybus/src/router.rs.
use tinybus.Prelude.{
  ℕ, ◌+◌, ◌%◌, ◌≡◌, ◌≢◌, ◌∙◌, ◌↔◌, ◌⊎◌, true, false, Option, none, some, arith, get, insert,
  get-insert, nat_eq, eq_iff, eq_refl, ◌!=◌, option_eq, is_some, is_some_and, and_then, any, any→In,
  In→any, In,
}
use tinybus.Text.Decimal.{u64_size}
use tinybus.Name.Types.{BusName, bus_name_eq}
use tinybus.Name.BusName.{unique, is_unique}
use tinybus.Error.{ok}
use tinybus.Message.Types.{Header}
use tinybus.Router.{Router, attach, request_name, bus_name, new_peer, attestation_of, owner_of}
use tinybus.Router.Callbacks.{Heap, matches}
use tinybus.Router.Resolve.{resolve, resolve_attested, resolve_call}
use tinybus.Router.Laws.{request_name-leaves, unique-is_unique}

module _ {Sender : Type 0} where
  -- The confidential lookup is the plain lookup, narrowed to the names that are attested.
  pub resolve_attested_iff :
      (r : Router Sender) (destination : BusName) (outbox : Sender)
      → (resolve_attested r destination ≡ ok outbox)
        ↔ ((resolve r destination ≡ ok outbox) × (is_some (attestation_of r destination) ≡ true))
  unfolding resolve_attested resolve attestation_of
  resolve_attested_iff r destination outbox = ground arith

  -- A live callback scope of the table that names this header.
  abbrev pub IsScoped : Heap → Router Sender → Header → Type 0
  IsScoped heap r header = (c : ℕ) × In c r.host_callbacks × (matches (heap c) header ≡ true)

  abbrev pub IsExpected : Router Sender → BusName → Option BusName → Type 0
  IsExpected r destination none = Unit
  IsExpected r destination (some owner) = owner_of r destination ≡ some owner

  IsExpected-test :
      (r : Router Sender) (destination : BusName) (expected : Option BusName)
      → (is_some_and expected (λ expected. owner_of r destination != some expected) ≡ false)
        ↔ IsExpected r destination expected
  IsExpected-test r destination none = ground arith
  IsExpected-test r destination (some owner) =
      ground (arith, eq_iff (owner_of r destination) (some owner))

  scope_test :
      (heap : Heap) (r : Router Sender) (header : Header)
      → (any (λ c. matches (heap c) header) r.host_callbacks ≡ true) ↔ IsScoped heap r header
  scope_test heap r header = (
    any→In (λ c. matches (heap c) header) r.host_callbacks,
    λ (c, i, y). In→any (λ c. matches (heap c) header) r.host_callbacks c i y,
  )

  -- A confidential call is delivered exactly to the outbox of its destination, while the expected
  -- owner (if any) has that name, and only if the destination is attested, or is a unique name that
  -- a callback scope of the table opens to this header.
  pub resolve_call-confidential_iff :
      (heap : Heap) (r : Router Sender) (destination : BusName) (expected : Option BusName)
      (header : Header) (outbox : Sender)
      → (resolve_call heap r destination expected true header ≡ ok outbox) ↔ (
          IsExpected r destination expected
          × (resolve r destination ≡ ok outbox)
          × ((is_some (attestation_of r destination) ≡ true)
              ⊎ ((is_unique destination ≡ true) × IsScoped heap r header)))
  unfolding resolve_call
  resolve_call-confidential_iff heap r destination expected header outbox = ground (
    arith,
    IsExpected-test r destination expected,
    scope_test heap r header,
    resolve_attested_iff r destination outbox,
  )

  -- A call that is not confidential is delivered exactly to the outbox of its destination, while the
  -- expected owner (if any) has that name.
  pub resolve_call-plain_iff :
      (heap : Heap) (r : Router Sender) (destination : BusName) (expected : Option BusName)
      (header : Header) (outbox : Sender)
      → (resolve_call heap r destination expected false header ≡ ok outbox)
        ↔ (IsExpected r destination expected × (resolve r destination ≡ ok outbox))
  unfolding resolve_call
  resolve_call-plain_iff heap r destination expected header outbox =
      ground (arith, IsExpected-test r destination expected)

  -- Whoever takes a free name, neither unique nor the bus's own, gets the attestation that the host
  -- recorded for that peer and that name, and nothing from an earlier owner.
  pub request_name-attestation_of :
      (r : Router Sender) (id : ℕ) (n : BusName)
      → is_unique n ≡ false
      → n ≢ bus_name
      → get r.names n ≡ none
      → attestation_of (request_name r id n).0 n
        ≡ and_then (get r.peers id) (λ p. get p.attestations n)
  unfolding attestation_of
  request_name-attestation_of r id n plain other free =
      rw (request_name-leaves r id n) (
        ground (arith, eq_iff n bus_name, get-insert r.names n n id, eq_refl n, plain, other, free))

  abbrev newcomer : Router Sender → Sender → ℕ → Router Sender
  newcomer r outbox id = record r {
    next_id = id;
    peers = insert r.peers id (new_peer id outbox);
    names = insert r.names (unique id) id;
  }

  newcomer-unattested :
      (r : Router Sender) (outbox : Sender) (id : ℕ) (n : BusName)
      → is_unique n ≡ false
      → n ≢ bus_name
      → get r.names n ≡ none
      → (attestation_of (request_name (newcomer r outbox id) id n).0 n ≡ none)
        × (attestation_of (request_name (newcomer r outbox id) id n).0 (unique id) ≡ none)
  unfolding attestation_of get
  newcomer-unattested r outbox id n plain other free = (
    request_name-attestation_of (newcomer r outbox id) id n plain other still
        ∙ ground (arith, get-insert r.peers id id (new_peer id outbox), eq_refl id),
    rw (request_name-leaves (newcomer r outbox id) id n) (
        ground (
          arith,
          still,
          unique-is_unique id,
          get-insert r.peers id id (new_peer id outbox),
          eq_refl id,
          get-insert r.names (unique id) (unique id) id,
          get-insert (insert r.names (unique id) id) n (unique id) id,
          eq_refl (unique id),
        )),
  )
    where
      still : get (insert r.names (unique id) id) n ≡ none
      still = ground (
        arith,
        get-insert r.names (unique id) n id,
        free,
        eq_iff (unique id) n,
        plain,
        unique-is_unique id,
      )

  -- A new connection that takes a free name, neither unique nor the bus's own, is attested neither
  -- under it nor under its own unique name, whatever the table recorded before.
  attach-attestation_of :
      (r : Router Sender) (outbox : Sender) (n : BusName)
      → is_unique n ≡ false
      → n ≢ bus_name
      → get r.names n ≡ none
      → (attestation_of (request_name (attach r outbox).0 (attach r outbox).1.0 n).0 n ≡ none)
        × (attestation_of
              (request_name (attach r outbox).0 (attach r outbox).1.0 n).0
              (attach r outbox).1.1
            ≡ none)
  unfolding attach
  attach-attestation_of r outbox n plain other free =
      newcomer-unattested r outbox ((r.next_id + 1) % u64_size) n plain other free
