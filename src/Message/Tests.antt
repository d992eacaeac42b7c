-- ===== src/Message/Tests.antt =====
-- Examples of the theorems about crates/tinybus/src/message.
use tinybus.Prelude.{ℕ, ◌≡◌, refl, ◌↔◌, List, [], ◌∷◌, some}
use tinybus.Text.{Str, txt}
use tinybus.Error.{Error, ok}
use tinybus.Error.Wire.{wire_name, wire_message}
use tinybus.Message.Types.{Message, JsonText}
use tinybus.Message.Build.{method_call}
use tinybus.Message.Validate.{validate}
use tinybus.Message.Validate.Routable.{IsRoutable, validate-eq-ok_iff}
use tinybus.Message.Reply.{error_reply, into_error, lifecycle_of}
use tinybus.Message.Reply.RoundTrip.{into_error-error_reply}

-- Bodies that are texts.
json : JsonText Str
json = record {
  null = [];
  string = λ s. s;
  as_string = some;
  print = λ s. s;
  as_string-string = λ s. refl;
}

abbrev call : Message Str
call =
    method_call (record { text = txt "ai.tinyhumans.Mail" }) (record { text = txt "/ai/mail" })
      (record { text = txt "ai.tinyhumans.Mail" }) (record { text = txt "Send" }) (txt "hello")

abbrev failure : Error
failure = Error.timeout (record { text = txt "Send" }) 30

validate-eq-ok_iff_example : (validate call ≡ ok tt) ↔ IsRoutable call.header
validate-eq-ok_iff_example = validate-eq-ok_iff call

into_error-error_reply_example :
    into_error json (error_reply json (λ s. s) call.header failure)
    ≡ Error.method_failed (wire_name failure) (wire_message (λ s. s) failure)
unfolding lifecycle_of
into_error-error_reply_example = into_error-error_reply json (λ s. s) call.header failure refl

abbrev payload : List ℕ
payload = 1 ∷ 2 ∷ 3 ∷ []
