-- ===== src/Message/Reply.antt =====
-- The error replies of crates/tinybus/src/message/mod.rs, out and back in.
pub mod RoundTrip
use tinybus.Prelude.{
  ℕ, ◌+◌, map, leb, Bool, true, false, ◌&&◌, Option, none, some, ◌==◌, nat_eq, list_eq,
  if◌then◌else◌,
}
use tinybus.Text.{Str, txt}
use tinybus.Error.{Error, failed_name, module_unavailable_name}
use tinybus.Error.Wire.{wire_name, wire_message}
use tinybus.Message.Types.{MessageKind, kind_eq, ModuleLifecycle, Header, Message, JsonText}
use tinybus.Message.Build.{plain}

-- `str::eq_ignore_ascii_case`
abbrev lowered : ℕ → ℕ
lowered c = if leb b'A' c && leb c b'Z' then c + 32 else c

abbrev eq_ignore_ascii_case : Str → Str → Bool
eq_ignore_ascii_case a b = map lowered a == map lowered b

unfoldable pub lifecycle_of : Error → Option ModuleLifecycle
lifecycle_of (Error.module_unavailable m state detail) =
    if eq_ignore_ascii_case state (txt "initializing")
    then some ModuleLifecycle.initializing
    else none
lifecycle_of _ = none

abbrev lifecycle_beq : Option ModuleLifecycle → Option ModuleLifecycle → Bool
lifecycle_beq none none = true
lifecycle_beq (some ModuleLifecycle.initializing) (some ModuleLifecycle.initializing) = true
lifecycle_beq (some ModuleLifecycle.unknown) (some ModuleLifecycle.unknown) = true
lifecycle_beq _ _ = false

abbrev or_else {ℓ} : {A : Type ℓ} → Option A → A → A
or_else none d = d
or_else (some a) d = a

module _ {Value : Type 0} (json : JsonText Value) where
  unfoldable pub error_reply : (Str → Str) → Header → Error → Message Value
  error_reply debug call e = record {
    header = record (plain MessageKind.error) {
      reply_serial = some call.serial;
      destination = call.sender;
      error_name = some (wire_name e);
      module_lifecycle = lifecycle_of e;
    };
    body = json.string (wire_message debug e);
  }

  unfoldable pub into_error : Message Value → Error
  into_error m =
      let name = or_else m.header.error_name failed_name in
      if m.header.kind == MessageKind.error
        && name == module_unavailable_name
        && lifecycle_beq m.header.module_lifecycle (some ModuleLifecycle.initializing)
      then Error.module_unavailable (txt "module") (txt "initializing")
          (txt "module initialization is still in progress")
      else Error.method_failed name
          (elim (json.as_string m.body) [ some s ↦ s | none ↦ json.print m.body ])
