-- ===== src/Message/Build.antt =====
-- The builders of crates/tinybus/src/message/mod.rs.
use tinybus.Prelude.{true, false, none, some, nat_eq, list_eq}
use tinybus.Name.Types.{BusName, ObjectPath, InterfaceName, MemberName}
use tinybus.Message.Types.{MessageKind, Header, Message}

-- A header of one kind with every optional field unset.
abbrev pub plain : MessageKind → Header
plain kind = record {
  kind = kind;
  serial = 0;
  reply_serial = none;
  sender = none;
  expected_responder = none;
  destination = none;
  path = none;
  interface = none;
  member = none;
  error_name = none;
  module_lifecycle = none;
  confidential = false;
  sensitive = false;
  stream_reply = false;
}

module _ {Value : Type 0} where
  unfoldable pub method_call :
      BusName → ObjectPath → InterfaceName → MemberName → Value → Message Value
  method_call destination path interface member body = record {
    header = record (plain MessageKind.method_call) {
      destination = some destination;
      path = some path;
      interface = some interface;
      member = some member;
    };
    body = body;
  }

  unfoldable pub confidential_call :
      BusName → ObjectPath → InterfaceName → MemberName → Value → Message Value
  unfolding method_call
  confidential_call d p i m body =
      let message = method_call d p i m body in
      record message { header = record (message.header) { confidential = true } }

  unfoldable pub sensitive_control_call :
      BusName → ObjectPath → InterfaceName → MemberName → Value → Message Value
  unfolding method_call
  sensitive_control_call d p i m body =
      let message = method_call d p i m body in
      record message { header = record (message.header) { sensitive = true } }

  unfoldable pub streaming_call :
      BusName → ObjectPath → InterfaceName → MemberName → Value → Message Value
  unfolding method_call
  streaming_call d p i m body =
      let message = method_call d p i m body in
      record message { header = record (message.header) { stream_reply = true } }

  unfoldable pub method_return : Header → Value → Message Value
  method_return call body = record {
    header = record (plain MessageKind.method_return) {
      reply_serial = some call.serial;
      destination = call.sender;
      confidential = call.confidential;
    };
    body = body;
  }

  unfoldable pub signal : ObjectPath → InterfaceName → MemberName → Value → Message Value
  signal path interface member body = record {
    header = record (plain MessageKind.signal) {
      path = some path;
      interface = some interface;
      member = some member;
    };
    body = body;
  }

  unfoldable pub signal_to :
      BusName → ObjectPath → InterfaceName → MemberName → Value → Message Value
  unfolding signal
  signal_to destination p i m body =
      let message = signal p i m body in
      record message { header = record (message.header) { destination = some destination } }

  unfoldable pub directed_signal :
      BusName → ObjectPath → InterfaceName → MemberName → Value → Message Value
  directed_signal destination path interface member body = record {
    header = record (plain MessageKind.directed_signal) {
      destination = some destination;
      path = some path;
      interface = some interface;
      member = some member;
    };
    body = body;
  }
