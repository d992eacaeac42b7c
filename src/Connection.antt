-- ===== src/Connection.antt =====
-- crates/tinybus/src/connection.rs: the calls that a connection waits for, and the replies that end
-- them. The state between two awaits is one value; a `oneshot` channel is named by the serial of its
-- call, and what was sent over it stands in `delivered`, with the waiter that it was for.
pub mod Identity
pub mod Calls
pub mod Answered
mod Tests
use mathlib.Core.Option
use tinybus.Prelude.{
  ℕ, ◌+◌, ◌%◌, Bool, true, false, not, ◌&&◌, ◌||◌, Option, none, some, List, [], ◌∷◌, Map, get,
  insert, remove, is_some, is_none, is_some_and, nat_eq, list_eq, option_eq, ◌==◌, ◌!=◌,
  if◌then◌else◌,
}
use tinybus.Text.{Str, txt}
use tinybus.Text.Decimal.{u64_size}
use tinybus.Name.Types.{BusName, MemberName, bus_name_eq}
use tinybus.Name.BusName.{is_unique}
use tinybus.Error.{Error, Result, ok, err, ◌>>=◌, ◌>>◌, refuse_if}
use tinybus.Message.Types.{MessageKind, kind_eq, Header, Message, JsonText}
use tinybus.Message.Build.{plain}
use tinybus.Message.Reply.{error_reply, into_error}
use tinybus.Message.Validate.{validate}
use tinybus.Router.{bus_name}

pub record PendingReply : Type 0 where
  pub expected : Option BusName
  pub bus_control : Bool
  pub confidential : Bool
  pub unverified_direct : Bool

module _ {Value : Type 0} where
  unfoldable pub accepts : PendingReply → Message Value → Bool → Bool
  accepts p reply brokered =
      let sender = reply.header.sender in
      let is_error = reply.header.kind == MessageKind.error in
      let broker_sender = is_some_and sender (λ s. s == bus_name) in
      let identity_matches =
        if p.bus_control then is_none sender || broker_sender else elim p.expected [
          | some expected ↦
              sender == some expected
              || (is_error && broker_sender
                  || p.unverified_direct && not brokered && is_none sender)
          | none ↦ not brokered
        ] in
      identity_matches && (is_error || not p.confidential || reply.header.confidential)

pub record Delivery (Value : Type 0) : Type 0 where
  pub waiter : PendingReply
  pub reply : Message Value

pub record Connection (Value : Type 0) : Type 0 where
  pub serial : ℕ
  pub unique_name : Option BusName
  pub pending : Map ℕ PendingReply
  pub delivered : Map ℕ (Delivery Value)

-- How the wait of a call ends: with a reply, with a channel that is gone, or out of time.
pub data Waited (Value : Type 0) : Type 0 where
  answered : Message Value → Waited Value
  dropped : Waited Value
  timed_out : Waited Value

module _ {Value : Type 0} where
  -- What `call_raw_message` refuses before anything is sent; `has_handle` is the search of the body for
  -- a stream handle.
  unfoldable pub check_call : (Value → Bool) → Message Value → Result (Unit {0})
  check_call has_handle m = do
    validate (record m { header = record (m.header) { serial = 1 } })
    refuse_if (m.header.confidential && m.header.stream_reply)
        (Error.protocol (txt "a confidential call cannot request a streamed reply"))
    refuse_if ((m.header.confidential || m.header.sensitive) && has_handle m.body) (
        Error.protocol (
          txt
            "a private call cannot carry a stream handle: the stream's bytes travel as separate unattested writes, so the payload would not be private even though the handle was"))

  -- The peer that must answer, and the call as it goes out; `resolve` is the call of the bus's
  -- `ResolveCallTarget`.
  unfoldable pub expect_responder :
      Option BusName
      → (BusName → Result BusName)
      → Message Value
      → Result (Message Value × Option BusName)
  expect_responder unique_name resolve m = elim m.header.destination [
    | none ↦ ok (m, none)
    | some destination ↦
        if destination == bus_name
        then ok (m, none)
        else if is_unique destination
        then ok (m, some destination)
        else if is_some unique_name
        then (do
          owner ← resolve destination
          refuse_if (not (is_unique owner))
              (Error.protocol (txt "broker returned a non-unique call target"))
          refuse_if (is_some_and m.header.expected_responder (λ e. e != owner))
              (Error.name_has_no_owner destination)
          ok (
            record m { header = record (m.header) { expected_responder = some owner } },
            some owner,
          ))
        else ok (m, none)
  ]

  -- The next serial.
  abbrev pub advance : Connection Value → Connection Value
  advance c = record c { serial = (c.serial + 1) % u64_size }

  abbrev pub waiter_of : Connection Value → Message Value → Option BusName → PendingReply
  waiter_of c m expected = record {
    expected = expected;
    bus_control = is_some_and m.header.destination (λ d. d == bus_name);
    confidential = m.header.confidential;
    unverified_direct = is_none c.unique_name;
  }

  -- The call takes the next serial, and its waiter is listed before it is put on the queue.
  unfoldable pub register :
      Connection Value → Message Value → Option BusName → Connection Value × Message Value
  register c m expected = (
    record (advance c) { pending = insert c.pending c.serial (waiter_of c m expected) },
    record m { header = record (m.header) { serial = c.serial } },
  )

  -- `pending.remove(&serial)`, when the queue is closed and when the time is up.
  abbrev pub give_up : Connection Value → ℕ → Connection Value
  give_up c serial = record c { pending = remove c.pending serial }

  abbrev pub hand_over : Connection Value → ℕ → PendingReply → Message Value → Connection Value
  hand_over c serial waiter reply = record c {
    pending = remove c.pending serial;
    delivered = (serial, record { waiter = waiter; reply = reply }) ∷ c.delivered;
  }

  -- A reply in `dispatch_loop`: one that nobody waits for, or that the waiter does not accept, is
  -- dropped.
  unfoldable pub dispatch_reply : Connection Value → Message Value → Bool → Connection Value
  unfolding accepts
  dispatch_reply c reply brokered = elim reply.header.reply_serial [
    | none ↦ c
    | some serial ↦ elim (get c.pending serial) [
      | none ↦ c
      | some waiter ↦ if accepts waiter reply brokered then hand_over c serial waiter reply else c
    ]
  ]

  -- `refuse_call`, for a call that the transport did not take.
  unfoldable pub refuse_call :
      JsonText Value → (Str → Str) → Connection Value → ℕ → Error → Connection Value
  unfolding error_reply
  refuse_call json debug c serial refusal = elim (get c.pending serial) [
    | none ↦ c
    | some waiter ↦ hand_over c serial waiter (
        error_reply json debug (record (plain MessageKind.method_call) { serial = serial }) refusal)
  ]

  -- The end of `dispatch_loop`.
  abbrev pub hang_up : Connection Value → Connection Value
  hang_up c = record c { pending = [] }

  -- What the caller is told.
  unfoldable pub answer : JsonText Value → MemberName → ℕ → Waited Value → Result (Message Value)
  unfolding into_error
  answer json member timeout (Waited.answered reply) =
      if reply.header.kind == MessageKind.error then err (into_error json reply) else ok reply
  answer json member timeout Waited.dropped = err Error.connection_closed
  answer json member timeout Waited.timed_out = err (Error.timeout member timeout)
