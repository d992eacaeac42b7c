-- ===== src/Error/Wire.antt =====
-- `wire_name`, `Display` and `wire_message` of crates/tinybus/src/error.rs. Rust's `Debug` print of a
-- text, `{:?}`, is the parameter `debug`.
use tinybus.Prelude.{◌++◌}
use tinybus.Text.{Str, txt}
use tinybus.Text.Decimal.{decimal}
use tinybus.Error.{
  Error, unknown_method_name, not_attested_name, confidentiality_required_name,
  module_unavailable_name,
}

unfoldable pub wire_name : Error → Str
wire_name (Error.invalid_name kind input reason) = txt "ai.tinyhumans.tinybus.Error.InvalidName"
wire_name (Error.protocol m) = txt "ai.tinyhumans.tinybus.Error.Protocol"
wire_name (Error.transport m) = txt "ai.tinyhumans.tinybus.Error.Transport"
wire_name (Error.io m) = txt "ai.tinyhumans.tinybus.Error.Transport"
wire_name Error.connection_closed = txt "ai.tinyhumans.tinybus.Error.ConnectionClosed"
wire_name Error.backpressure = txt "ai.tinyhumans.tinybus.Error.Backpressure"
wire_name (Error.name_has_no_owner n) = txt "ai.tinyhumans.tinybus.Error.NameHasNoOwner"
wire_name (Error.not_attested n reason) = not_attested_name
wire_name (Error.confidentiality_required i m) = confidentiality_required_name
wire_name (Error.name_taken n owner) = txt "ai.tinyhumans.tinybus.Error.NameTaken"
wire_name (Error.unknown_object p) = txt "ai.tinyhumans.tinybus.Error.UnknownObject"
wire_name (Error.unknown_interface p i) = txt "ai.tinyhumans.tinybus.Error.UnknownInterface"
wire_name (Error.unknown_method i m) = unknown_method_name
wire_name (Error.bad_arguments m reason) = txt "ai.tinyhumans.tinybus.Error.BadArguments"
wire_name (Error.invalid_domain d reason) = txt "ai.tinyhumans.tinybus.Error.InvalidDomain"
wire_name (Error.timeout m ms) = txt "ai.tinyhumans.tinybus.Error.Timeout"
wire_name (Error.incompatible_version p i d) = txt "ai.tinyhumans.tinybus.Error.IncompatibleVersion"
wire_name (Error.module_refused f reason) = txt "ai.tinyhumans.tinybus.Error.ModuleRefused"
wire_name (Error.module_unavailable m s d) = module_unavailable_name
wire_name (Error.path p m) = txt "ai.tinyhumans.tinybus.Error.Path"
wire_name (Error.unknown_stream id) = txt "ai.tinyhumans.tinybus.Error.UnknownStream"
wire_name (Error.stream_aborted reason) = txt "ai.tinyhumans.tinybus.Error.StreamAborted"
wire_name (Error.stream_too_large limit) = txt "ai.tinyhumans.tinybus.Error.StreamTooLarge"
wire_name (Error.too_many_streams limit) = txt "ai.tinyhumans.tinybus.Error.TooManyStreams"
wire_name (Error.feature_disabled a b) = txt "ai.tinyhumans.tinybus.Error.FeatureDisabled"
wire_name (Error.json m) = txt "ai.tinyhumans.tinybus.Error.Json"
wire_name (Error.method_failed name message) = name

module _ (debug : Str → Str) where
  -- The `#[error(...)]` attributes.
  unfoldable pub display : Error → Str
  display (Error.invalid_name kind input reason) =
      txt "invalid " ++ (kind ++ (txt " " ++ (debug input ++ (txt ": " ++ reason))))
  display (Error.protocol m) = txt "protocol: " ++ m
  display (Error.transport m) = txt "transport: " ++ m
  display Error.connection_closed = txt "connection closed"
  display Error.backpressure = txt "outbound queue is full; message dropped"
  display (Error.name_has_no_owner n) = txt "no peer owns the name `" ++ (n.text ++ txt "`")
  display (Error.not_attested n reason) =
      txt "`" ++ (n.text ++ (txt "` is not an attested recipient: " ++ reason))
  display (Error.confidentiality_required i m) =
      i.text ++ (txt "." ++ (m.text ++ txt " requires a confidential call"))
  display (Error.name_taken n owner) =
      txt "`" ++ (n.text ++ (txt "` is already owned by " ++ owner.text))
  display (Error.unknown_object p) = txt "no object at `" ++ (p.text ++ txt "`")
  display (Error.unknown_interface p i) = p.text ++ (txt ": no interface `" ++ (i.text ++ txt "`"))
  display (Error.unknown_method i m) = i.text ++ (txt ": no member `" ++ (m.text ++ txt "`"))
  display (Error.invalid_domain d reason) =
      txt "event domain " ++ (debug d ++ (txt " is not a usable path element: " ++ reason))
  display (Error.bad_arguments m reason) = m.text ++ (txt ": bad arguments: " ++ reason)
  display (Error.incompatible_version p i d) =
      p ++ (txt " is not compatible on " ++ (i ++ (txt ": " ++ d)))
  display (Error.method_failed name message) = name ++ (txt ": " ++ message)
  display (Error.timeout m ms) =
      txt "call to `" ++ (m.text ++ (txt "` timed out after " ++ (decimal ms ++ txt "ms")))
  display (Error.path p m) = p ++ (txt ": " ++ m)
  display (Error.feature_disabled a b) =
      a ++ (txt " requires the `" ++ (b ++ (txt "` feature; rebuild with --features " ++ b)))
  display (Error.module_refused f reason) = txt "module `" ++ (f ++ (txt "` refused: " ++ reason))
  display (Error.module_unavailable m s d) =
      txt "module `" ++ (m ++ (txt "` is unavailable (" ++ (s ++ (txt "): " ++ d))))
  display (Error.unknown_stream id) = txt "no stream `" ++ (id ++ txt "`")
  display (Error.stream_aborted reason) = txt "stream aborted: " ++ reason
  display (Error.stream_too_large limit) =
      txt "stream exceeds the " ++ (decimal limit ++ txt "-byte limit")
  display (Error.too_many_streams limit) =
      txt "already at the limit of " ++ (decimal limit ++ txt " open streams")
  display (Error.io m) = txt "io: " ++ m
  display (Error.json m) = txt "json: " ++ m

  unfoldable pub wire_message : Error → Str
  unfolding display
  wire_message (Error.method_failed name message) = message
  wire_message e = display e
