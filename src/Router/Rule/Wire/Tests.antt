-- ===== src/Router/Rule/Wire/Tests.antt =====
-- An example of the round trip of a match rule: signals of one member below one path.
use tinybus.Prelude.{◌≡◌, refl, none, some, list_beq}
use tinybus.Text.Split.{split}
use tinybus.Text.{txt, len, starts_with, ends_with}
use tinybus.Name.Types.{MemberName, ObjectPath}
use tinybus.Name.MemberName as MemberName
use tinybus.Name.ObjectPath as ObjectPath
use tinybus.Error.{ok}
use tinybus.Message.Types.{MessageKind}
use tinybus.Router.Rule.{MatchRule}
use tinybus.Router.Rule.Parse.{parse}
use tinybus.Router.Rule.Wire.{rule_to_wire}
use tinybus.Router.Rule.Wire.RoundTrip.{IsValid, parse-rule_to_wire}

abbrev sent : MemberName
sent = record { text = txt "Sent" }

abbrev mail : ObjectPath
mail = record { text = txt "/mail" }

abbrev mail_sent : MatchRule
mail_sent = record {
  kind = some MessageKind.signal;
  sender = none;
  interface = none;
  member = some sent;
  path = none;
  path_namespace = some mail;
}

member_ok : MemberName.new sent.text ≡ ok sent
unfolding MemberName.new txt len
member_ok = refl

path_ok : ObjectPath.new mail.text ≡ ok mail
unfolding ObjectPath.new txt len list_beq starts_with ends_with split
path_ok = refl

mail_sent-IsValid : IsValid mail_sent
mail_sent-IsValid = record {
  sender = tt;
  interface = tt;
  member = member_ok;
  path = tt;
  path_namespace = path_ok;
}

parse-rule_to_wire_example : parse (rule_to_wire mail_sent) ≡ ok mail_sent
parse-rule_to_wire_example = parse-rule_to_wire mail_sent mail_sent-IsValid
