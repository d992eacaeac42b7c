-- ===== src/Name/Types.antt =====
-- The newtypes of crates/tinybus/src/name.rs, over their text.
use tinybus.Prelude.{◌≡◌, ◌↔◌, true, arith, nat_eq, Eq, ◌==◌, eq_iff, list_eq}
use tinybus.Text.{Str}

pub record BusName : Type 0 where
  pub text : Str

pub record ObjectPath : Type 0 where
  pub text : Str

pub record InterfaceName : Type 0 where
  pub text : Str

pub record MemberName : Type 0 where
  pub text : Str

pub bus_name_eq_iff : (a b : BusName) → ((a.text == b.text) ≡ true) ↔ (a ≡ b)
bus_name_eq_iff a b = ground (arith, eq_iff a.text b.text)

pub object_path_eq_iff : (a b : ObjectPath) → ((a.text == b.text) ≡ true) ↔ (a ≡ b)
object_path_eq_iff a b = ground (arith, eq_iff a.text b.text)

pub interface_name_eq_iff : (a b : InterfaceName) → ((a.text == b.text) ≡ true) ↔ (a ≡ b)
interface_name_eq_iff a b = ground (arith, eq_iff a.text b.text)

pub member_name_eq_iff : (a b : MemberName) → ((a.text == b.text) ≡ true) ↔ (a ≡ b)
member_name_eq_iff a b = ground (arith, eq_iff a.text b.text)

instance unfoldable pub bus_name_eq : Eq BusName
bus_name_eq = record { beq = λ a b. a.text == b.text; beq_iff = bus_name_eq_iff }

instance unfoldable pub object_path_eq : Eq ObjectPath
object_path_eq = record { beq = λ a b. a.text == b.text; beq_iff = object_path_eq_iff }

instance unfoldable pub interface_name_eq : Eq InterfaceName
interface_name_eq = record { beq = λ a b. a.text == b.text; beq_iff = interface_name_eq_iff }

instance unfoldable pub member_name_eq : Eq MemberName
member_name_eq = record { beq = λ a b. a.text == b.text; beq_iff = member_name_eq_iff }
