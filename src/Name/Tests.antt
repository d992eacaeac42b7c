-- ===== src/Name/Tests.antt =====
-- Examples of the theorems about crates/tinybus/src/name.rs.
use tinybus.Prelude.{◌≡◌, refl, ◌↔◌, ◌⊎◌, [], ◌∷◌}
use tinybus.Text.{Str, txt}
use tinybus.Name.Types.{BusName, ObjectPath, InterfaceName, MemberName}
use tinybus.Name.BusName
use tinybus.Name.BusName.{unique, is_unique}
use tinybus.Name.BusName.Grammar.{IsUnique, new_bus_name_iff}
use tinybus.Name.Dotted.Grammar.{IsDotted}
use tinybus.Name.ObjectPath.Grammar.{IsWord}
use tinybus.Error.{ok}

abbrev mail : BusName
mail = record { text = txt "ai.tinyhumans.Mail" }

abbrev mail_interface : InterfaceName
mail_interface = record { text = txt "ai.tinyhumans.Mail" }

abbrev send : MemberName
send = record { text = txt "Send" }

abbrev a : Str
a = b'a' ∷ []

abbrev ab : Str
ab = b'a' ∷ b'b' ∷ []

abbrev mailbox : ObjectPath
mailbox = record { text = txt "/ai/mail" }

new_bus_name_iff_example :
    (BusName.new mail.text ≡ ok mail)
    ↔ ((IsUnique mail.text ⊎ IsDotted mail.text) × (mail.text ≡ mail.text))
new_bus_name_iff_example = new_bus_name_iff mail.text mail

a-IsWord : IsWord a
a-IsWord = ((λ e. cc), (refl, tt))

ab-IsWord : IsWord ab
ab-IsWord = ((λ e. cc), (refl, (refl, tt)))
