-- ===== src/Message/Reply/RoundTrip.antt =====
-- An error sent as a reply and read back.
use tinybus.Prelude.{◌≡◌, none, arith, eq_iff, nat_eq, list_eq}
use tinybus.Text.{Str}
use tinybus.Error.{Error, failed_name, module_unavailable_name}
use tinybus.Error.Wire.{wire_name, wire_message}
use tinybus.Message.Types.{Header, Message, JsonText}
use tinybus.Message.Reply.{error_reply, into_error, lifecycle_of, or_else}

into_error_name :
    {Value : Type 0} (json : JsonText Value) (m : Message Value)
    → wire_name (into_error json m) ≡ or_else m.header.error_name failed_name
unfolding into_error wire_name
into_error_name json m =
    ground (arith, eq_iff (or_else m.header.error_name failed_name) module_unavailable_name)

module _ {Value : Type 0} (json : JsonText Value) (debug : Str → Str) (call : Header) where
  -- An error whose lifecycle is not "initializing" arrives as a failed method under the same stable
  -- name, with the same message.
  pub into_error-error_reply :
      (e : Error)
      → lifecycle_of e ≡ none
      → into_error json (error_reply json debug call e)
        ≡ Error.method_failed (wire_name e) (wire_message debug e)
  unfolding into_error error_reply
  into_error-error_reply e h = ground (arith, json.as_string-string (wire_message debug e))

  -- The stable name survives the wire for every error, also where the lifecycle metadata rebuilds
  -- the typed error.
  pub wire_name-into_error :
      (e : Error) → wire_name (into_error json (error_reply json debug call e)) ≡ wire_name e
  unfolding error_reply
  wire_name-into_error e = into_error_name json (error_reply json debug call e)
