-- ===== src/Message/Types.antt =====
-- The data types of crates/tinybus/src/message/mod.rs. A JSON body is a value of the parameter
-- `Value`; `JsonText` is what the source asks of it.
use tinybus.Prelude.{ℕ, ◌≡◌, ◌↔◌, Bool, true, false, Option, some, arith, Eq, nat_eq, list_eq}
use tinybus.Text.{Str}
use tinybus.Name.Types.{BusName, ObjectPath, InterfaceName, MemberName}

pub data MessageKind : Type 0 where
  method_call method_return error signal directed_signal : MessageKind

abbrev kind_beq : MessageKind → MessageKind → Bool
kind_beq MessageKind.method_call MessageKind.method_call = true
kind_beq MessageKind.method_return MessageKind.method_return = true
kind_beq MessageKind.error MessageKind.error = true
kind_beq MessageKind.signal MessageKind.signal = true
kind_beq MessageKind.directed_signal MessageKind.directed_signal = true
kind_beq _ _ = false

pub kind_beq_iff : (a b : MessageKind) → (kind_beq a b ≡ true) ↔ (a ≡ b)
kind_beq_iff a b = ground arith

instance abbrev pub kind_eq : Eq MessageKind
kind_eq = record { beq = kind_beq; beq_iff = kind_beq_iff }

pub data ModuleLifecycle : Type 0 where
  initializing unknown : ModuleLifecycle

pub record Header : Type 0 where
  pub kind : MessageKind
  pub serial : ℕ
  pub reply_serial : Option ℕ
  pub sender : Option BusName
  pub expected_responder : Option BusName
  pub destination : Option BusName
  pub path : Option ObjectPath
  pub interface : Option InterfaceName
  pub member : Option MemberName
  pub error_name : Option Str
  pub module_lifecycle : Option ModuleLifecycle
  pub confidential : Bool
  pub sensitive : Bool
  pub stream_reply : Bool

pub record Message (Value : Type 0) : Type 0 where
  pub header : Header
  pub body : Value

-- What the source asks of `serde_json::Value`: string bodies and the printed form.
pub record JsonText (Value : Type 0) : Type 0 where
  pub null : Value
  pub string : Str → Value
  pub as_string : Value → Option Str
  pub print : Value → Str
  pub as_string-string : (s : Str) → as_string (string s) ≡ some s
