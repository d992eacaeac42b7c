-- ===== src/Broker.antt =====
-- `Broker::route` of crates/tinybus/src/broker.rs: where one inbound message goes.
mod Tests
pub mod Gates
pub mod Bus
use tinybus.Prelude.{
  ℕ, Bool, true, false, not, ◌&&◌, ◌||◌, Option, none, some, List, ◌==◌, nat_eq, list_eq,
  if◌then◌else◌, is_some_and,
}
use tinybus.Text.{txt}
use tinybus.Name.Types.{BusName, MemberName, bus_name_eq, member_name_eq}
use tinybus.Error.{Error, Result, ok, err, ◌>>=◌, ◌>>◌, refuse_if, ok_or}
use tinybus.Message.Types.{MessageKind, kind_eq, Header, Message}
use tinybus.Message.Validate.{validate}
use tinybus.Router.{Router, bus_name}
use tinybus.Router.Callbacks.{Heap}
use tinybus.Router.Resolve.{subscribers_from, directed_signal_target_from, resolve_call_from}

-- What `route` does once it has decided. A signal is tried on each queue and may be lost there;
-- `send` waits for room, and answers that the destination has no owner if its queue is closed.
pub data Outcome (Sender Value : Type 0) : Type 0 where
  broadcast : List Sender → Message Value → Outcome Sender Value
  directed : Sender → Message Value → Outcome Sender Value
  handle_bus_call : Message Value → Outcome Sender Value
  send : Sender → BusName → Message Value → Outcome Sender Value

-- The members that may carry a sensitive body.
unfoldable pub configures_module : MemberName → Bool
configures_module member =
    member.text == txt "LoadModule"
    || member.text == txt "LoadGithubModule"
    || member.text == txt "ReinitializeModule"

abbrev pub stamped : {Value : Type 0} → BusName → Message Value → Message Value
stamped name message = record message { header = record message.header { sender = some name } }

-- A refused attestation survives; any other refusal gives way to the state of the module.
explain : (BusName → Option Error) → BusName → Error → Error
explain unavailable_for destination (Error.not_attested name reason) =
    Error.not_attested name reason
explain unavailable_for destination error = elim (unavailable_for destination) [
  | some state ↦ state
  | none ↦ error
]

module _ {Sender Value : Type 0} where
  route_to_bus : Message Value → Result (Outcome Sender Value)
  unfolding configures_module
  route_to_bus message = do
    refuse_if (message.header.confidential && message.header.kind == MessageKind.method_call)
        (Error.not_attested bus_name (txt "the bus itself is never an attested recipient"))
    refuse_if
        (message.header.sensitive && not (is_some_and message.header.member configures_module))
        (Error.protocol (txt "sensitive control bodies are reserved for module configuration"))
    ok (Outcome.handle_bus_call message)

  -- The answer of the module host for the destination: when the lookup failed, and just before the
  -- message is queued.
  route_to_peer :
      (first second : BusName → Option Error)
      → Heap
      → Router Sender
      → ℕ
      → BusName
      → BusName
      → Message Value
      → Result (Outcome Sender Value)
  unfolding explain
  route_to_peer first second heap r from from_name destination message = do
    refuse_if message.header.sensitive
        (Error.protocol (txt "sensitive control calls must address the bus module host"))
    let is_call = message.header.kind == MessageKind.method_call
    target ←
        (elim (resolve_call_from heap r from from_name destination message.header.expected_responder
            (message.header.confidential && is_call) message.header)
          as (λ x. Result Sender) [
            | ok target ↦ ok target
            | err e ↦ err (explain first destination e)
          ])
    elim (if is_call then second destination else none) [
      | some error ↦ err error
      | none ↦ ok (Outcome.send target destination message)
    ]

  unfoldable pub route :
      (first second : BusName → Option Error)
      → Heap
      → Router Sender
      → ℕ
      → BusName
      → Message Value
      → Result (Outcome Sender Value)
  unfolding route_to_bus route_to_peer
  route first second heap r from from_name inbound = do
    validate inbound
    let message = stamped from_name inbound
    elim message.header.kind [
      | MessageKind.signal ↦
          (subscribers_from r message from from_name >>= λ targets.
          ok (Outcome.broadcast targets message))
      | MessageKind.directed_signal ↦ do
        destination ←
            ok_or message.header.destination
              (Error.protocol (txt "directed signal has no destination"))
        target ← directed_signal_target_from heap r from from_name destination message.header
        ok (Outcome.directed target message)
      | _ ↦ do
        destination ←
            ok_or message.header.destination (Error.protocol (txt "message has no destination"))
        if destination == bus_name
            then route_to_bus message
            else route_to_peer first second heap r from from_name destination message
    ]
