-- ===== src/Service/Tree/Tests.antt =====
-- Examples of the theorems about crates/tinybus/src/service/tree.rs.
use tinybus.Prelude.{
  ℕ, ◌≡◌, refl, true, false, not, ◌&&◌, some, [], ◌∷◌, ◌==◌, any, insert, remove, get, list_beq,
}
use tinybus.Text.{txt}
use tinybus.Name.Types.{
  InterfaceName, MemberName, ObjectPath, interface_name_eq, member_name_eq, object_path_eq,
}
use tinybus.Error.{ok}
use tinybus.Service.Tree.{
  Interface, ObjectTree, new, insert_owned, lookup, dispatch_with_context, invoke,
}
use tinybus.Service.Tree.Laws.{dispatch_with_context-eq-ok}

abbrev mail : InterfaceName
mail = record { text = txt "ai.tinyhumans.Mail" }

abbrev path : ObjectPath
path = record { text = txt "/ai/mail" }

abbrev send : MemberName
send = record { text = txt "Send" }

-- Answers a call of `Send` with its argument.
abbrev echo : Interface ℕ ℕ
echo = record {
  name = mail;
  members = send ∷ [];
  requires_confidential = λ m. false;
  call_with_context = λ m value context. ok value;
}

abbrev registered : ObjectTree ℕ ℕ
registered = record {
  objects = (path, (record { id = 1; name = mail; interface = echo } ∷ [])) ∷ [];
  next_registration = 1;
}

first_registration : insert_owned new path mail echo ≡ some (registered, (1, []))
unfolding insert_owned insert remove get
first_registration = refl

answered : dispatch_with_context registered path mail send 4 false 0 ≡ ok 4
unfolding dispatch_with_context lookup invoke get list_beq txt object_path_eq interface_name_eq
    member_name_eq
answered = refl

dispatch_with_context-eq-ok_example :
    (i : Interface ℕ ℕ) × (lookup registered path mail ≡ ok i)
    × (any (λ m. m == send) i.members ≡ true)
    × ((i.requires_confidential send && not false) ≡ false)
    × (i.call_with_context send 4 0 ≡ ok 4)
dispatch_with_context-eq-ok_example =
    dispatch_with_context-eq-ok registered path mail send 4 4 false 0 answered
