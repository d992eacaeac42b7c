-- ===== src/Broker/Gates.antt =====
-- What `Broker::route` of crates/tinybus/src/broker.rs lets through.
use tinybus.Prelude.{
  ℕ, ◌≡◌, ◌≢◌, refl, sym, ap, ◌∙◌, Option-cases, true, false, ◌||◌, Option, none, some, arith,
  nat_eq, list_eq, eq_iff, is_some, is_some_and, ◌⊎◌, inl, inr, option_eq,
}
use tinybus.Name.Types.{BusName, bus_name_eq, member_name_eq}
use tinybus.Name.BusName.{is_unique}
use tinybus.Error.{Error, ok}
use tinybus.Message.Types.{MessageKind, kind_eq, Message}
use tinybus.Message.Validate.{validate, check_flags, check_private}
use tinybus.Router.{Router, bus_name, ensure_peer_attached, attestation_of}
use tinybus.Router.Callbacks.{Heap}
use tinybus.Router.Resolve.{
  resolve, resolve_call, resolve_call_from, subscribers_from, directed_signal_target_from,
}
use tinybus.Router.Secrets.{IsScoped, resolve_call-confidential_iff}
use tinybus.Broker.{Outcome, route, route_to_bus, route_to_peer, configures_module, stamped}

abbrev pub message_of : {Sender Value : Type 0} → Outcome Sender Value → Message Value
message_of (Outcome.broadcast targets message) = message
message_of (Outcome.directed target message) = message
message_of (Outcome.handle_bus_call message) = message
message_of (Outcome.send target destination message) = message

module _ {Sender Value : Type 0} (first second : BusName → Option Error) (heap : Heap)
    (r : Router Sender) (from : ℕ) (name : BusName) where
  route_to_bus-message_of :
      (m : Message Value) (o : Outcome Sender Value) → route_to_bus m ≡ ok o → message_of o ≡ m
  unfolding route_to_bus
  route_to_bus-message_of m o h = ground (arith, h)

  route_to_peer-message_of :
      (d : BusName) (m : Message Value) (o : Outcome Sender Value)
      → route_to_peer first second heap r from name d m ≡ ok o
      → message_of o ≡ m
  unfolding route_to_peer
  route_to_peer-message_of d m o h = ground (arith, h)

  -- Whatever is passed on, to subscribers, to one peer or to the bus itself, is a valid message,
  -- with the sender replaced by the name of the connection and nothing else changed.
  pub route-stamped :
      (m : Message Value) (o : Outcome Sender Value)
      → route first second heap r from name m ≡ ok o
      → (validate m ≡ ok tt) × (message_of o ≡ stamped name m)
  unfolding route
  route-stamped m o h = ground (
    arith,
    h,
    route_to_bus-message_of (stamped name m) o,
    λ (d : BusName). route_to_peer-message_of d (stamped name m) o,
  )

  private-kind :
      (m : Message Value)
      → validate m ≡ ok tt
      → (m.header.confidential || m.header.sensitive) ≡ true
      → (m.header.kind ≢ MessageKind.signal) × (m.header.kind ≢ MessageKind.directed_signal)
  unfolding validate check_flags check_private
  private-kind m h p = (λ e. ground (arith, h, p, e), λ e. ground (arith, h, p, e))

  to_bus-member :
      (m : Message Value) (o : Outcome Sender Value)
      → route_to_bus m ≡ ok o
      → m.header.sensitive ≡ true
      → (o ≡ Outcome.handle_bus_call m) × (is_some_and m.header.member configures_module ≡ true)
  unfolding route_to_bus
  to_bus-member m o h s = ground (arith, h, s)

  to_peer-sensitive :
      (d : BusName) (m : Message Value) (o : Outcome Sender Value)
      → route_to_peer first second heap r from name d m ≡ ok o
      → m.header.sensitive ≡ false
  unfolding route_to_peer
  to_peer-sensitive d m o h = ground (arith, h)

  -- A sensitive message that is passed on goes to the bus itself, and its member is one of those
  -- that configure a module.
  pub route-sensitive :
      (m : Message Value) (o : Outcome Sender Value)
      → route first second heap r from name m ≡ ok o
      → m.header.sensitive ≡ true
      → (o ≡ Outcome.handle_bus_call (stamped name m))
        × (m.header.destination ≡ some bus_name)
        × (is_some_and m.header.member configures_module ≡ true)
  unfolding route
  route-sensitive m o h s = elim (Option-cases m.header.destination) [
    | inl e ↦ ground (arith, h, s, e, private-kind m)
    | inr (d, e) ↦ ground (
      arith,
      h,
      s,
      e,
      private-kind m,
      to_bus-member (stamped name m) o,
      to_peer-sensitive d (stamped name m) o,
      eq_iff d bus_name,
    )
  ]

  to_peer-attached :
      (d : BusName) (m : Message Value) (o : Outcome Sender Value)
      → route_to_peer first second heap r from name d m ≡ ok o
      → ensure_peer_attached r from name ≡ ok tt
  unfolding route_to_peer resolve_call_from
  to_peer-attached d m o h = ground (arith, h)

  -- What is delivered to peers comes from a connection that is attached under its name; only a call
  -- of the bus itself is passed on without that test.
  route-attached :
      (m : Message Value) (o : Outcome Sender Value)
      → route first second heap r from name m ≡ ok o
      → (o ≡ Outcome.handle_bus_call (stamped name m)) ⊎ (ensure_peer_attached r from name ≡ ok tt)
  unfolding route subscribers_from directed_signal_target_from route_to_bus
  route-attached m o h = elim (Option-cases m.header.destination) [
    | inl e ↦ ground (arith, h, e)
    | inr (d, e) ↦ ground (arith, h, e, to_peer-attached d (stamped name m) o)
  ]

  to_peer-send :
      (d d' : BusName) (m m' : Message Value) (outbox : Sender)
      → route_to_peer first second heap r from name d m ≡ ok (Outcome.send outbox d' m')
      → m.header.kind ≡ MessageKind.method_call
      → (d ≡ d')
        × (resolve_call heap r d m.header.expected_responder m.header.confidential m.header
            ≡ ok outbox)
        × (second d ≡ none)
  unfolding route_to_peer resolve_call_from
  to_peer-send d d' m m' outbox h k = ground (arith, h, k)

  -- A call that is put on a queue is addressed to the name that was resolved, the resolution took
  -- its expected responder and its confidentiality into account, and the module host did not report
  -- that name as unavailable.
  pub route-send :
      (m m' : Message Value) (d : BusName) (outbox : Sender)
      → route first second heap r from name m ≡ ok (Outcome.send outbox d m')
      → m.header.kind ≡ MessageKind.method_call
      → (m.header.destination ≡ some d)
        × (resolve_call heap r d m.header.expected_responder m.header.confidential
              (stamped name m).header
            ≡ ok outbox)
        × (second d ≡ none)
  unfolding route route_to_bus
  route-send m m' d outbox h k = elim (Option-cases m.header.destination) [
    | inl e ↦ ground (arith, h, k, e)
    | inr (d', e) ↦ ground (arith, h, k, e, to_peer-send d' d (stamped name m) m' outbox)
  ]

  only_send :
      (m : Message Value) (o : Outcome Sender Value)
      → route first second heap r from name m ≡ ok o
      → m.header.confidential ≡ true
      → m.header.kind ≡ MessageKind.method_call
      → (outbox : Sender) × (d : BusName) × (m' : Message Value) × (o ≡ Outcome.send outbox d m')
  unfolding route route_to_bus route_to_peer
  only_send m (Outcome.send outbox d m') h c k = (outbox, d, m', refl)
  only_send m (Outcome.broadcast targets m') h c k = ground (arith, h, c, k)
  only_send m (Outcome.directed target m') h c k = ground (arith, h, c, k)
  only_send m (Outcome.handle_bus_call m') h c k = ground (arith, h, c, k)

  -- A confidential call that is passed on goes to one outbox, that of the peer that owns its
  -- destination, and only if the destination is attested, or is a unique name that a callback scope
  -- of the table opens to the call as it came from this connection.
  pub route-confidential :
      (m : Message Value) (o : Outcome Sender Value)
      → route first second heap r from name m ≡ ok o
      → m.header.confidential ≡ true
      → m.header.kind ≡ MessageKind.method_call
      → (outbox : Sender) × (d : BusName) × (o ≡ Outcome.send outbox d (stamped name m))
        × (m.header.destination ≡ some d)
        × (resolve r d ≡ ok outbox)
        × ((is_some (attestation_of r d) ≡ true)
            ⊎ ((is_unique d ≡ true) × IsScoped heap r (stamped name m).header))
  route-confidential m o h c k =
      let (outbox, d, m', e) = only_send m o h c k in
      let (there, resolved, up) = route-send m m' d outbox (h ∙ ap ok e) k in
      let (expected, delivered, admitted) =
        (resolve_call-confidential_iff heap r d m.header.expected_responder (stamped name m).header
            outbox).0
          (ap (λ b. resolve_call heap r d m.header.expected_responder b (stamped name m).header)
              (sym c)
            ∙ resolved) in
      let same = (route-stamped m o h).1 in
      (
        outbox,
        d,
        e ∙ ap (Outcome.send outbox d) (sym (ap message_of e) ∙ same),
        there,
        delivered,
        admitted,
      )
