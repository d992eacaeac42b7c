-- ===== src/Broker/Tests.antt =====
-- Examples of the theorems about `route` of crates/tinybus/src/broker.rs, on the bus of the router's
-- examples: the second connection calls the mail service.
use tinybus.Prelude.{
  ℕ, ◌≡◌, refl, ◌⊎◌, true, Option, none, some, is_some, is_some_and, get, insert, remove, update,
  list_beq,
}
use tinybus.Text.{Str, txt, starts_with}
use tinybus.Text.Decimal.{decimal}
use tinybus.Name.Types.{BusName, bus_name_eq, member_name_eq}
use tinybus.Name.BusName.{unique, is_unique}
use tinybus.Error.{Error, ok}
use tinybus.Message.Types.{Message}
use tinybus.Message.Build.{sensitive_control_call, confidential_call}
use tinybus.Message.Validate.{validate, check_flags, check_private}
use tinybus.Router.{
  bus_name, attach, request_name, set_attestation_for_unique, set_attestation, ensure_peer_attached,
  attestation_of, owner_of,
}
use tinybus.Router.Resolve.{resolve, resolve_attested, resolve_call, resolve_call_from}
use tinybus.Router.Secrets.{IsScoped}
use tinybus.Router.Tests.{mail, heap, attested, secret}
use tinybus.Broker.{Outcome, route, stamped, configures_module}
use tinybus.Broker.Gates.{message_of, route-stamped, route-sensitive, route-confidential}

abbrev available : BusName → Option Error
available name = none

abbrev caller : BusName
caller = unique 2

abbrev sent : Outcome ℕ Str
sent = Outcome.send 10 mail (stamped caller secret)

secret_routed : route available available heap attested 2 caller secret ≡ ok sent
unfolding route validate check_flags check_private confidential_call resolve_call_from resolve_call
    resolve_attested ensure_peer_attached attach request_name set_attestation_for_unique
    set_attestation owner_of get insert remove update is_unique starts_with unique txt bus_name_eq
    list_beq decimal
secret_routed = refl

route-stamped_example : (validate secret ≡ ok tt) × (message_of sent ≡ stamped caller secret)
route-stamped_example =
    route-stamped available available heap attested 2 caller secret sent secret_routed

route-confidential_example :
    (outbox : ℕ) × (d : BusName) × (sent ≡ Outcome.send outbox d (stamped caller secret))
    × (secret.header.destination ≡ some d)
    × (resolve attested d ≡ ok outbox)
    × ((is_some (attestation_of attested d) ≡ true)
        ⊎ ((is_unique d ≡ true) × IsScoped heap attested (stamped caller secret).header))
unfolding confidential_call
route-confidential_example =
    route-confidential available available heap attested 2 caller secret sent secret_routed refl
      refl

abbrev configuration : Message Str
configuration =
    sensitive_control_call bus_name (record { text = txt "/bus" })
      (record { text = txt "ai.tinyhumans.Bus" }) (record { text = txt "LoadModule" }) (txt "{}")

abbrev to_bus : Outcome ℕ Str
to_bus = Outcome.handle_bus_call (stamped caller configuration)

configuration_routed : route available available heap attested 2 caller configuration ≡ ok to_bus
unfolding route configures_module validate check_flags check_private sensitive_control_call attach
    request_name set_attestation_for_unique set_attestation owner_of get insert remove update
    is_unique starts_with unique txt bus_name_eq list_beq decimal
configuration_routed = refl

route-sensitive_example :
    (to_bus ≡ Outcome.handle_bus_call (stamped caller configuration))
    × (configuration.header.destination ≡ some bus_name)
    × (is_some_and configuration.header.member configures_module ≡ true)
unfolding sensitive_control_call
route-sensitive_example =
    route-sensitive available available heap attested 2 caller configuration to_bus
      configuration_routed refl
