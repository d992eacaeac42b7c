-- ===== src/Service/Tree.antt =====
-- `ObjectTree` of crates/tinybus/src/service/tree.rs. An implementation (`Arc<dyn Interface>`) is a
-- record of the methods that the tree calls; its `Value` and `Context` are parameters, and a call
-- is the answer it comes back with.
mod Tests
pub mod Laws
use mathlib.Core.Option
use tinybus.Prelude.{
  ℕ, ◌+◌, Bool, true, false, not, ◌&&◌, Option, none, some, List, [], ◌∷◌, ◌++◌, map, Map, get,
  insert, remove, contains_key, is_some, ltb, ◌==◌, ◌!=◌, nat_eq, if◌then◌else◌, filter, find, any,
  is_empty, and_then,
}
use tinybus.Text.Decimal.{u64_size}
use tinybus.Name.Types.{
  InterfaceName, MemberName, ObjectPath, interface_name_eq, member_name_eq, object_path_eq,
}
use tinybus.Error.{Error, Result, ok, err, ◌>>=◌, ◌>>◌, refuse_if, ok_or}

pub record Interface (Value Context : Type 0) : Type 0 where
  pub name : InterfaceName
  pub members : List MemberName
  pub requires_confidential : MemberName → Bool
  pub call_with_context : MemberName → Value → Context → Result Value

pub record ObjectRegistration (Value Context : Type 0) : Type 0 where
  pub id : ℕ
  pub name : InterfaceName
  pub interface : Interface Value Context

pub record ObjectTree (Value Context : Type 0) : Type 0 where
  pub objects : Map ObjectPath (List (ObjectRegistration Value Context))
  pub next_registration : ℕ

-- `position` of the first entry that passes, and `Vec::remove` there.
unfoldable pub take_first : {A : Type 0} → (A → Bool) → List A → Option (A × List A)
take_first p [] = none
take_first p (x ∷ xs) =
    let rest = Option.map (λ (a, ys). (a, x ∷ ys)) (take_first p xs) in
    if p x then some (x, xs) else rest

module _ {Value Context : Type 0} where
  abbrev pub new : ObjectTree Value Context
  new = record { objects = []; next_registration = 0 }

  -- `entry(path).or_default()`
  abbrev entries_at :
      ObjectTree Value Context → ObjectPath → List (ObjectRegistration Value Context)
  entries_at t path = elim (get t.objects path) [ none ↦ [] | some list ↦ list ]

  -- `none` is the panic of an exhausted counter.
  unfoldable pub insert_owned :
      ObjectTree Value Context
      → ObjectPath
      → InterfaceName
      → Interface Value Context
      → Option (ObjectTree Value Context × (ℕ × List (Interface Value Context)))
  insert_owned t path name interface =
      let id = t.next_registration + 1 in
      let entry = entries_at t path in
      let replaced = map (λ e. e.interface) (filter (λ e. e.name == name) entry) in
      let retained = filter (λ e. e.name != name) entry in
      let registration : ObjectRegistration Value Context = record {
        id = id;
        name = name;
        interface = interface;
      } in
      if ltb id u64_size
      then some (
        record {
          objects = insert t.objects path (retained ++ (registration ∷ []));
          next_registration = id;
        },
        (id, replaced),
      )
      else none

  unfoldable pub insert_at :
      ObjectTree Value Context
      → ObjectPath
      → Interface Value Context
      → Option (ObjectTree Value Context)
  unfolding insert_owned
  insert_at t path interface =
      Option.map (λ (t', r). t') (insert_owned t path interface.name interface)

  unfoldable pub insert_if_absent :
      ObjectTree Value Context
      → ObjectPath
      → Interface Value Context
      → Option (ObjectTree Value Context × Bool)
  unfolding insert_at
  insert_if_absent t path interface =
      if contains_key t.objects path
      then some (t, false)
      else Option.map (λ t'. (t', true)) (insert_at t path interface)

  unfoldable pub take_if_owned :
      ObjectTree Value Context
      → ObjectPath
      → InterfaceName
      → ℕ
      → ObjectTree Value Context × Option (Interface Value Context)
  unfolding take_first
  take_if_owned t path interface id =
      elim (and_then (get t.objects path) (take_first (λ e. e.id == id && e.name == interface))) [
        | none ↦ (t, none)
        | some (removed, rest) ↦ (
          record t {
            objects = if is_empty rest then remove t.objects path else insert t.objects path rest;
          },
          some removed.interface,
        )
      ]

  unfoldable pub remove_at : ObjectTree Value Context → ObjectPath → ObjectTree Value Context × Bool
  remove_at t path = (record t { objects = remove t.objects path }, is_some (get t.objects path))

  unfoldable pub interfaces_at : ObjectTree Value Context → ObjectPath → List InterfaceName
  interfaces_at t path = map (λ e. e.name) (entries_at t path)

  unfoldable pub lookup :
      ObjectTree Value Context → ObjectPath → InterfaceName → Result (Interface Value Context)
  lookup t path interface = do
    list ← ok_or (get t.objects path) (Error.unknown_object path)
    ok_or (Option.map (λ e. e.interface) (find (λ e. e.name == interface) list))
        (Error.unknown_interface path interface)

  unfoldable pub invoke :
      Interface Value Context → InterfaceName → MemberName → Value → Bool → Context → Result Value
  invoke target interface member args confidential context = do
    refuse_if (not (any (λ m. m == member) target.members)) (Error.unknown_method interface member)
    refuse_if (target.requires_confidential member && not confidential)
        (Error.confidentiality_required interface member)
    target.call_with_context member args context

  unfoldable pub dispatch_with_context :
      ObjectTree Value Context
      → ObjectPath
      → InterfaceName
      → MemberName
      → Value
      → Bool
      → Context
      → Result Value
  unfolding lookup invoke
  dispatch_with_context t path interface member args confidential context = do
    target ← lookup t path interface
    invoke target interface member args confidential context
