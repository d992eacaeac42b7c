-- ===== src/Router/Rule.antt =====
-- `MatchRule` of crates/tinybus/src/router.rs: the filter of a subscription.
pub mod Parse
pub mod Matches
pub mod Wire
use tinybus.Prelude.{
  Bool, ◌&&◌, Option, none, some, ◌≡◌, refl, ◌↔◌, arith, is_some_and, is_none_or, Eq, ◌==◌, ◌!=◌,
  eq_iff, option_eq, nat_eq, list_eq, if◌then◌else◌, false, true,
}
use tinybus.Name.Types.{
  BusName, ObjectPath, InterfaceName, MemberName, bus_name_eq, object_path_eq, interface_name_eq,
  member_name_eq,
}
use tinybus.Name.ObjectPath.{is_beneath}
use tinybus.Message.Types.{MessageKind, kind_eq, Header, Message}

pub record MatchRule : Type 0 where
  pub kind : Option MessageKind
  pub sender : Option BusName
  pub interface : Option InterfaceName
  pub member : Option MemberName
  pub path : Option ObjectPath
  pub path_namespace : Option ObjectPath

abbrev pub new : MatchRule
new = record {
  kind = none;
  sender = none;
  interface = none;
  member = none;
  path = none;
  path_namespace = none;
}

abbrev pub signals : MatchRule → MatchRule
signals r = record r { kind = some MessageKind.signal }

abbrev pub directed_signals : MatchRule → MatchRule
directed_signals r = record r { kind = some MessageKind.directed_signal }

abbrev pub set_interface : MatchRule → InterfaceName → MatchRule
set_interface r interface = record r { interface = some interface }

abbrev pub set_member : MatchRule → MemberName → MatchRule
set_member r member = record r { member = some member }

abbrev pub set_sender : MatchRule → BusName → MatchRule
set_sender r sender = record r { sender = some sender }

abbrev pub set_path_namespace : MatchRule → ObjectPath → MatchRule
set_path_namespace r path = record r { path_namespace = some path }

-- The last test of `matches`.
in_namespace : Option ObjectPath → Option ObjectPath → Bool
unfolding is_beneath
in_namespace none path = true
in_namespace (some namespace) none = false
in_namespace (some namespace) (some path) = is_beneath path namespace

unfoldable pub matches : {Value : Type 0} → MatchRule → Message Value → Bool
unfolding in_namespace
matches self message =
    let h = message.header in
    if is_some_and self.kind (λ kind. kind != h.kind)
    then false
    else if is_some_and self.sender (λ sender. h.sender != some sender)
    then false
    else if is_some_and self.interface (λ interface. h.interface != some interface)
    then false
    else if is_some_and self.member (λ member. h.member != some member)
    then false
    else if is_some_and self.path (λ path. h.path != some path)
    then false
    else in_namespace self.path_namespace h.path

-- The derived `PartialEq`.
abbrev rule_beq : MatchRule → MatchRule → Bool
rule_beq a b =
    a.kind == b.kind
    && (a.sender == b.sender
        && (a.interface == b.interface
            && (a.member == b.member
                && (a.path == b.path && a.path_namespace == b.path_namespace))))

both_iff : {a b : Bool} {P Q : Type 0} → (a ≡ true) ↔ P → (b ≡ true) ↔ Q → (a && b ≡ true) ↔ (P × Q)
both_iff {a} {b} p q = ground (arith, p, q)

Fields : MatchRule → MatchRule → Type 0
Fields a b =
    (a.kind ≡ b.kind)
    × ((a.sender ≡ b.sender)
        × ((a.interface ≡ b.interface)
            × ((a.member ≡ b.member)
                × ((a.path ≡ b.path) × (a.path_namespace ≡ b.path_namespace)))))

Fields-iff : (a b : MatchRule) → (rule_beq a b ≡ true) ↔ Fields a b
unfolding Fields
Fields-iff a b = both_iff (eq_iff a.kind b.kind) (
    both_iff (eq_iff a.sender b.sender) (
      both_iff (eq_iff a.interface b.interface) (
        both_iff (eq_iff a.member b.member)
          (both_iff (eq_iff a.path b.path) (eq_iff a.path_namespace b.path_namespace)))))

pub rule_beq_iff : (a b : MatchRule) → (rule_beq a b ≡ true) ↔ (a ≡ b)
unfolding Fields
rule_beq_iff a b = (
  λ h. let (k, (s, (i, (m, (p, n))))) = (Fields-iff a b).0 h in cc,
  λ e. (Fields-iff a b).1 (rw e (refl, (refl, (refl, (refl, (refl, refl)))))),
)

instance unfoldable pub rule_eq : Eq MatchRule
rule_eq = record { beq = rule_beq; beq_iff = rule_beq_iff }
