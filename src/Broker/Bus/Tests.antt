-- ===== src/Broker/Bus/Tests.antt =====
-- Examples of the theorems about the bus's own service in crates/tinybus/src/broker.rs: one
-- connection asks for a name. A JSON value is a text here, and an outbox is a number.
use tinybus.Prelude.{
  ◌≢◌, ◌↔◌, Option, In, ℕ, ◌≡◌, refl, inl, inr, none, some, [], arith, get, insert, remove,
  list_beq, nat_eq, All,
}
use tinybus.Text.{Str, txt}
use tinybus.Text.Decimal.{decimal}
use tinybus.Name.Types.{MemberName, bus_name_eq}
use tinybus.Name.BusName.{unique}
use tinybus.Error.{ok}
use tinybus.Message.Types.{Message, JsonText}
use tinybus.Message.Build.{method_call}
use tinybus.Router.{Router, new_peer, attach, bus_name}
use tinybus.Router.Coherent.{IsCoherent, empty-IsCoherent, attach-IsCoherent}
use tinybus.Broker.Bus.{
  BusJson, Sent, ModuleControllerBinding, ModuleControl, ControlAnswer, Controlled, module_method,
  bus_interface, bus_path, module_member, bus_method, handle_bus_call,
}
use tinybus.Broker.Bus.Told.{IsTrue}
use tinybus.Broker.Bus.Answers.{OnAnswer, IsStill, bus_method-told, handle_bus_call-reply}
use tinybus.Broker.Bus.Denied.{changing_members, denied, bus_method-denied}
use tinybus.Router.{ensure_peer_attached}

abbrev text : JsonText Str
text = record {
  null = [];
  string = λ s. s;
  as_string = λ s. some s;
  print = λ s. s;
  as_string-string = λ s. refl;
}

abbrev json : BusJson Str
json = record {
  text = text;
  name_arg = λ s. inr (record { text = s });
  manifest_arg = λ s. inl (txt "invalid type");
  rule_arg = λ s. inr s;
  bool = λ b. txt "true";
  from_name = λ n. ok n.text;
  from_names = λ ns. ok [];
  from_owner = λ o. ok [];
  from_manifest = λ m. ok [];
  from_records = λ rs. ok [];
  from_attestation = λ a. ok [];
  change = λ c. c.name.text;
}

abbrev empty : Router ℕ
empty = record { peers = []; names = []; next_id = 0; host_callbacks = [] }

abbrev one : Router ℕ
one = (attach empty 10).0

one-IsCoherent : IsCoherent one
one-IsCoherent = attach-IsCoherent empty 10 empty-IsCoherent (omega arith)

abbrev mail : Str
mail = txt "ai.tinyhumans.Mail"

abbrev request : MemberName
request = record { text = txt "RequestName" }

abbrev call : Message Str
call = method_call bus_name bus_path bus_interface request mail

bus_method-told_example :
    OnAnswer
      (λ a. All (IsTrue one a.router) a.changes)
      (bus_method json (txt "bus") none none one 1 (unique 1) request mail)
bus_method-told_example = bus_method-told json (txt "bus") none none one 1 (unique 1) request mail

abbrev stop : MemberName
stop = record { text = txt "StopModule" }

abbrev stop_call : Message Str
stop_call = method_call bus_name bus_path bus_interface stop (txt "vault")

-- A host whose calls come back with the table as they found it.
abbrev host : ModuleControl ℕ Str
host = record {
  run = λ operation member body r. some (record { router = r; result = ok body; states = [] });
  unavailable_for = λ name. none;
}

abbrev stopped : ControlAnswer ℕ Str
stopped = record { router = one; result = ok (txt "vault"); states = [] }

host_runs :
    module_method none (some host) one (unique 1) stop (txt "vault")
    ≡ Controlled.runs (some stopped)
unfolding module_method module_member txt list_beq
host_runs = refl

stopped-IsStill : IsStill json (txt "bus") none (some host) one 1 (unique 1) (new_peer 1 10) one
unfolding attach get unique insert remove
stopped-IsStill = record {
  coherent = one-IsCoherent;
  entry = new_peer 1 10;
  listed = refl;
  same_name = refl;
  same_queue = refl;
}

runs_inj :
    (a b : Option (ControlAnswer ℕ Str)) (c : Controlled ℕ Str)
    → c ≡ Controlled.runs a
    → c ≡ Controlled.runs b
    → a ≡ b
runs_inj a b c e f = ground (arith, e, f)

handle_bus_call-reply_example :
    (after : Router ℕ) × (sent : Sent ℕ Str) × (handle_bus_call json
        (txt "bus")
        none
        (some host)
        (λ s. s)
        one
        1
        (unique 1)
        stop_call
      ≡ some (after, ok sent))
    × (sent.outbox ≡ 10)
    × (sent.reply.header.reply_serial ≡ some stop_call.header.serial)
    × (sent.reply.header.destination ≡ stop_call.header.sender)
unfolding attach get unique insert remove method_call
handle_bus_call-reply_example =
    handle_bus_call-reply json (txt "bus") none (some host) one 1 (unique 1) (λ s. s)
      (new_peer 1 10) stop_call stop one-IsCoherent refl refl refl
      (λ back e. (stopped, runs_inj back (some stopped) _ e host_runs, stopped-IsStill))

bus_method-denied_example :
    ((modules : Option (ModuleControl ℕ Str))
      → bus_method json
          (txt "bus")
          (some ModuleControllerBinding.unselected)
          modules
          one
          1
          (unique 1)
          stop
          []
        ≡ some (denied one))
    ↔ (In stop.text changing_members
        × (ModuleControllerBinding.unselected ≢ ModuleControllerBinding.selected (unique 1)))
unfolding ensure_peer_attached attach get unique insert remove bus_name_eq list_beq decimal
bus_method-denied_example =
    bus_method-denied json (txt "bus") one 1 (unique 1) ModuleControllerBinding.unselected stop []
      refl (inl (inr (inr (inr (inl refl)))))
