-- ===== src/Message/Validate.antt =====
-- `Message::validate` of crates/tinybus/src/message/mod.rs.
pub mod Routable
use tinybus.Prelude.{
  String, Bool, ◌&&◌, ◌||◌, not, ◌==◌, ◌!=◌, nat_eq, list_eq, if◌then◌else◌, is_some, is_none,
  is_some_and, is_none_or,
}
use tinybus.Text.{txt}
use tinybus.Name.BusName.{is_unique}
use tinybus.Error.{Error, Result, ok, ◌>>◌, refuse_if}
use tinybus.Message.Types.{MessageKind, kind_eq, Header, Message}

-- `validate`, in its order: the flags that any kind may carry, then the kind's own fields.
abbrev protocol : String → Error
protocol reason = Error.protocol (txt reason)

unfoldable pub check_flags : Header → Result (Unit {0})
check_flags h = do
  refuse_if (h.stream_reply && h.kind != MessageKind.method_call)
      (protocol "only a method call can request a streamed reply")
  refuse_if
      (is_some_and h.expected_responder
        (λ expected. h.kind != MessageKind.method_call || not (is_unique expected)))
      (protocol "expected responder must be unique and only accompany a call")

unfoldable pub check_private : Header → Result (Unit {0})
check_private h =
    if h.confidential || h.sensitive
    then refuse_if (h.kind == MessageKind.signal || h.kind == MessageKind.directed_signal)
        (protocol "signals cannot carry a private body")
      >> refuse_if (is_none h.destination) (protocol "a private message needs a destination")
    else ok tt

abbrev unaddressed : Header → Bool
unaddressed h = is_none h.path || is_none h.interface || is_none h.member

check_kind : MessageKind → Header → Result (Unit {0})
check_kind MessageKind.method_call h = do
  refuse_if (is_none h.destination) (protocol "method call has no destination")
  refuse_if (unaddressed h) (protocol "method call needs a path, an interface and a member")
check_kind MessageKind.method_return h =
    refuse_if (is_none h.reply_serial) (protocol "reply has no reply_serial")
check_kind MessageKind.error h =
    refuse_if (is_none h.reply_serial) (protocol "reply has no reply_serial")
check_kind MessageKind.signal h = do
  refuse_if (is_none h.interface || is_none h.member)
      (protocol "signal needs an interface and a member")
  refuse_if (is_some_and h.destination (λ name. not (is_unique name)))
      (protocol "a signal can only be addressed to a unique name")
check_kind MessageKind.directed_signal h = do
  refuse_if (is_none_or h.destination (λ name. not (is_unique name)))
      (protocol "directed signal needs a unique destination")
  refuse_if (unaddressed h) (protocol "directed signal needs a path, an interface and a member")
  refuse_if
      (is_some h.reply_serial
        || is_some h.error_name
        || is_some h.expected_responder
        || h.stream_reply)
      (protocol "directed signal has invalid routing fields")

unfoldable pub validate : {Value : Type 0} → Message Value → Result (Unit {0})
unfolding check_flags check_private check_kind
validate m = do check_flags m.header; check_private m.header; check_kind m.header.kind m.header
