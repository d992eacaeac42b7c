-- ===== src/Connection/Tests.antt =====
-- Examples of the theorems about the calls of crates/tinybus/src/connection.rs: one call, its reply,
-- and a reply of a stranger before it. A JSON value is a text here.
use tinybus.Prelude.{◌≡◌, refl, true, some, [], arith, get, insert, remove, list_beq, nat_eq}
use tinybus.Text.{Str, txt, starts_with}
use tinybus.Name.Types.{BusName, bus_name_eq}
use tinybus.Name.BusName.{is_unique}
use tinybus.Error.{ok}
use tinybus.Message.Types.{MessageKind, Message, JsonText}
use tinybus.Message.Build.{method_call, plain}
use tinybus.Connection.{Connection, Delivery, waiter_of, expect_responder, register, dispatch_reply}
use tinybus.Connection.Calls.{Step, Steps, IsMatched, Steps-IsMatched}
use tinybus.Connection.Answered.{register-answered}

abbrev text : JsonText Str
text = record {
  null = [];
  string = λ s. s;
  as_string = λ s. some s;
  print = λ s. s;
  as_string-string = λ s. refl;
}

abbrev me : BusName
me = record { text = txt ":1.4" }

abbrev peer : BusName
peer = record { text = txt ":1.7" }

abbrev stranger : BusName
stranger = record { text = txt ":1.9" }

abbrev mailer : BusName
mailer = record { text = txt "ai.tinyhumans.Mail" }

abbrev start : Connection Str
start = record { serial = 1; unique_name = some me; pending = []; delivered = [] }

start-IsMatched : IsMatched text (λ s. s) start
unfolding get
start-IsMatched = record {
  waiting = tt;
  taken = λ s h. ground (arith, h);
  once = tt;
  ended = λ s h. ground (arith, h);
  answers = tt;
}

abbrev call : Message Str
call =
    method_call mailer (record { text = txt "/mail" }) (record { text = txt "ai.tinyhumans.Mail" })
      (record { text = txt "Send" }) []

-- The call as it goes out, once the name is resolved.
abbrev stated : Message Str
stated = record call { header = record (call.header) { expected_responder = some peer } }

abbrev reply_of : BusName → Message Str
reply_of sender = record {
  header = record (plain MessageKind.method_return) { reply_serial = some 1; sender = some sender };
  body = txt "sent";
}

abbrev called : Connection Str
called = (register start stated (some peer)).0

abbrev refused : Connection Str
refused = dispatch_reply called (reply_of stranger) true

abbrev finished : Connection Str
finished = dispatch_reply refused (reply_of peer) true

to_finished : Steps text (λ s. s) called finished
to_finished =
    Steps.then called refused finished
      (Steps.then called called refused (Steps.done called)
        (Step.receives called (reply_of stranger) true))
      (Step.receives refused (reply_of peer) true)

whole_run : Steps text (λ s. s) start finished
whole_run =
    Steps.then start refused finished
      (Steps.then start called refused
        (Steps.then start start called (Steps.done start)
          (Step.registers start stated (some peer) (omega arith)))
        (Step.receives called (reply_of stranger) true))
      (Step.receives refused (reply_of peer) true)

Steps-IsMatched_example : IsMatched text (λ s. s) finished
Steps-IsMatched_example = Steps-IsMatched text (λ s. s) whole_run start-IsMatched

abbrev delivery : Delivery Str
delivery = record { waiter = waiter_of start stated (some peer); reply = reply_of peer }

register-answered_example :
    (is_unique peer ≡ true)
    × (delivery.reply.header.reply_serial ≡ some start.serial)
    × (delivery.reply.header.sender ≡ some peer)
    × (stated.header.confidential ≡ true → delivery.reply.header.confidential ≡ true)
unfolding expect_responder is_unique starts_with register dispatch_reply get insert remove txt
    list_beq bus_name_eq method_call
register-answered_example =
    register-answered text (λ s. s) (λ n. ok peer) (some me) start call stated peer me delivery refl
      refl start-IsMatched (omega arith) to_finished refl (λ e. cc)
