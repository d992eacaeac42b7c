-- ===== src/Connection/Identity.antt =====
-- Whose replies a call of crates/tinybus/src/connection.rs takes.
use tinybus.Prelude.{
  ◌≡◌, ◌≢◌, ◌⊎◌, inl, inr, Bool, true, false, Option, some, arith, nat_eq, list_eq, option_eq,
  eq_iff, Option-cases,
}
use tinybus.Name.Types.{BusName, bus_name_eq}
use tinybus.Name.BusName.{is_unique}
use tinybus.Error.{Result, Result-cases, ok}
use tinybus.Message.Types.{MessageKind, kind_eq, Message}
use tinybus.Router.{bus_name}
use tinybus.Connection.{PendingReply, accepts, expect_responder}

module _ {Value : Type 0} where
  -- A call of a connection that has its name, to a peer that was resolved.
  pub accepts-expected :
      (p : PendingReply) (reply : Message Value) (brokered : Bool) (e : BusName)
      → p.expected ≡ some e
      → p.bus_control ≡ false
      → p.unverified_direct ≡ false
      → accepts p reply brokered ≡ true
      → ((reply.header.sender ≡ some e)
          × ((reply.header.kind ≢ MessageKind.error)
              → p.confidential ≡ true
              → reply.header.confidential ≡ true))
        ⊎ ((reply.header.kind ≡ MessageKind.error) × (reply.header.sender ≡ some bus_name))
  unfolding accepts
  accepts-expected p reply brokered e he hb hu h = elim (Option-cases reply.header.sender) [
    | inl none_there ↦ ground (arith, he, hb, hu, h, none_there)
    | inr (s, there) ↦ ground (
      arith,
      he,
      hb,
      hu,
      h,
      there,
      eq_iff s e,
      eq_iff s bus_name,
      eq_iff reply.header.kind MessageKind.error,
    )
  ]

  -- The responder of a call that names a peer other than the bus is a unique name, and the call that
  -- goes out either is addressed to it or states it.
  pub expect_responder-is_unique :
      (unique_name : Option BusName) (resolve : BusName → Result BusName) (m m' : Message Value)
      (e : BusName)
      → expect_responder unique_name resolve m ≡ ok (m', some e)
      → (is_unique e ≡ true)
        × (m'.header.destination ≡ m.header.destination)
        × ((m'.header.destination ≡ some e) ⊎ (m'.header.expected_responder ≡ some e))
        × (m.header.destination ≢ some bus_name)
  unfolding expect_responder
  expect_responder-is_unique unique_name resolve m m' e h =
      elim (Option-cases m.header.destination) [
        | inl none_there ↦ ground (arith, h, none_there)
        | inr (d, there) ↦ elim (Result-cases (resolve d)) [
          | inl (x, hx) ↦ ground (arith, h, there, hx, eq_iff d bus_name)
          | inr (owner, ho) ↦ ground (arith, h, there, ho, eq_iff d bus_name)
        ]
      ]
