-- ===== src/Router/Rule/Matches.antt =====
-- `MatchRule::matches` of crates/tinybus/src/router.rs against the fields of a message.
use tinybus.Prelude.{
  Bool, true, false, ◌≡◌, ◌↔◌, Option, none, some, arith, Eq, ◌!=◌, eq_iff, is_some_and, option_eq,
  if◌then◌else◌,
}
use tinybus.Name.Types.{ObjectPath, bus_name_eq, object_path_eq, interface_name_eq, member_name_eq}
use tinybus.Name.ObjectPath.Beneath.{IsBeneath, is_beneath_iff}
use tinybus.Message.Types.{MessageKind, kind_eq, Header, Message}
use tinybus.Router.Rule.{MatchRule, matches, in_namespace}

-- What one field of a rule asks of a field of the header: nothing, or that it is there and equal.
abbrev pub Asks : {A : Type 0} → Option A → Option A → Type 0
Asks none field = Unit
Asks (some a) field = field ≡ some a

abbrev pub AsksBeneath : Option ObjectPath → Option ObjectPath → Type 0
AsksBeneath none path = Unit
AsksBeneath (some namespace) none = ⊥
AsksBeneath (some namespace) (some path) = IsBeneath path namespace

pub record IsWanted (r : MatchRule) (h : Header) : Type 0 where
  pub kind : Asks r.kind (some h.kind)
  pub sender : Asks r.sender h.sender
  pub interface : Asks r.interface h.interface
  pub member : Asks r.member h.member
  pub path : Asks r.path h.path
  pub namespace : AsksBeneath r.path_namespace h.path

field_test :
    {A : Type 0} ⦃e : Eq A⦄ (o field : Option A)
    → (is_some_and o (λ a. field != some a) ≡ false) ↔ Asks o field
field_test none field = ground arith
field_test (some a) field = ground (arith, eq_iff field (some a))

kind_test :
    (o : Option MessageKind) (k : MessageKind)
    → (is_some_and o (λ a. a != k) ≡ false) ↔ Asks o (some k)
kind_test none k = ground arith
kind_test (some a) k = ground (arith, eq_iff a k)

namespace_test : (n p : Option ObjectPath) → (in_namespace n p ≡ true) ↔ AsksBeneath n p
unfolding in_namespace
namespace_test none p = ground arith
namespace_test (some n) none = ground arith
namespace_test (some n) (some p) = is_beneath_iff p n

pass :
    {P Q : Type 0} {b c : Bool}
    → (b ≡ false) ↔ P
    → (c ≡ true) ↔ Q
    → ((if b then false else c) ≡ true) ↔ (P × Q)
pass p q = ground (arith, p, q)

-- A rule matches a message exactly when each field that it sets is in the header with that very
-- value, the sender by the name that the message bears, and its namespace is the root, the path
-- itself, or what stands before a slash of the path.
pub matches_iff :
    {Value : Type 0} (r : MatchRule) (m : Message Value)
    → (matches r m ≡ true) ↔ IsWanted r m.header
unfolding matches
matches_iff r m =
    let h = m.header in
    let tests = pass (kind_test r.kind h.kind) (
      pass (field_test r.sender h.sender) (
        pass (field_test r.interface h.interface) (
          pass (field_test r.member h.member)
            (pass (field_test r.path h.path) (namespace_test r.path_namespace h.path))))) in
    (
      λ e.
          let (k, (s, (i, (b, (p, n))))) = tests.0 e in
          record { kind = k; sender = s; interface = i; member = b; path = p; namespace = n },
      λ w. tests.1 (w.kind, (w.sender, (w.interface, (w.member, (w.path, w.namespace))))),
    )
