-- ===== src/Service/Tree/Laws.antt =====
-- Registration, lookup and dispatch of crates/tinybus/src/service/tree.rs.
use tinybus.Prelude.{
  ℕ, ◌≡◌, ◌≢◌, Bool, true, false, not, ◌&&◌, Option, none, some, List, [], ◌∷◌, ◌++◌, get, insert,
  get-insert, ◌==◌, ◌!=◌, eq_iff, eq_refl, nat_eq, if◌then◌else◌, filter, find, any, arith,
  Option-cases,
}
use tinybus.Name.Types.{
  InterfaceName, MemberName, ObjectPath, interface_name_eq, member_name_eq, object_path_eq,
}
use tinybus.Error.{Result, ok, err, >>=-eq-ok}
use tinybus.Service.Tree.{
  Interface, ObjectRegistration, ObjectTree, insert_owned, take_if_owned, lookup, invoke,
  dispatch_with_context, take_first, entries_at,
}

-- `Result::ok`
abbrev pub answer : {A : Type 0} → Result A → Option A
answer (ok a) = some a
answer (err e) = none

module _ {Value Context : Type 0} where
  find-replaced :
      (l : List (ObjectRegistration Value Context)) (new : ObjectRegistration Value Context)
      (m : InterfaceName)
      → find (λ e. e.name == m) (filter (λ e. e.name != new.name) l ++ (new ∷ []))
        ≡ (if new.name == m then some new else find (λ e. e.name == m) l)
  find-replaced [] new m = ground arith
  find-replaced (e ∷ l) new m =
      ground
        (arith, find-replaced l new m, eq_iff e.name m, eq_iff new.name m, eq_iff e.name new.name)

  abbrev registration :
      InterfaceName → Interface Value Context → ℕ → ObjectRegistration Value Context
  registration name i id = record { id = id; name = name; interface = i }

  abbrev stored :
      List (ObjectRegistration Value Context)
      → ObjectRegistration Value Context
      → List (ObjectRegistration Value Context)
  stored l new = filter (λ e. e.name != new.name) l ++ (new ∷ [])

  insert_owned-objects :
      (t t' : ObjectTree Value Context) (path : ObjectPath) (name : InterfaceName)
      (i : Interface Value Context) (id : ℕ) (replaced : List (Interface Value Context))
      → insert_owned t path name i ≡ some (t', (id, replaced))
      → t'.objects ≡ insert t.objects path (stored (entries_at t path) (registration name i id))
  unfolding insert_owned
  insert_owned-objects t t' path name i id replaced h = ground (arith, h)

  -- After a registration that returns, its interface is served at its path under its name; every
  -- other path and name is served as before.
  insert_owned-lookup :
      (t t' : ObjectTree Value Context) (path q : ObjectPath) (name m : InterfaceName)
      (i : Interface Value Context) (id : ℕ) (replaced : List (Interface Value Context))
      → insert_owned t path name i ≡ some (t', (id, replaced))
      → answer (lookup t' q m) ≡ (if path == q && name == m then some i else answer (lookup t q m))
  unfolding insert_owned lookup
  insert_owned-lookup t t' path q name m i id replaced h =
      let e = insert_owned-objects t t' path name i id replaced h in
      rw (e, lookup)
        (ground (
          arith,
          get-insert t.objects path q (stored (entries_at t path) (registration name i id)),
          find-replaced (entries_at t path) (registration name i id) m,
          eq_iff path q,
          Option-cases (get t.objects path),
        ))

  taken-replaced :
      (l : List (ObjectRegistration Value Context)) (new : ObjectRegistration Value Context)
      (old : ℕ)
      → old ≢ new.id
      → take_first
          (λ e. e.id == old && e.name == new.name)
          (filter (λ e. e.name != new.name) l ++ (new ∷ []))
        ≡ none
  unfolding take_first
  taken-replaced [] new old h = ground (arith, eq_iff new.id old, h)
  taken-replaced (e ∷ l) new old h =
      ground (arith, taken-replaced l new old h, eq_iff e.name new.name)

  -- An older owner cannot take away the registration that replaced its own: with any other
  -- identity, the tree is left as it is and nothing is handed out.
  insert_owned-take_if_owned :
      (t t' : ObjectTree Value Context) (path : ObjectPath) (name : InterfaceName)
      (i : Interface Value Context) (id old : ℕ) (replaced : List (Interface Value Context))
      → insert_owned t path name i ≡ some (t', (id, replaced))
      → old ≢ id
      → take_if_owned t' path name old ≡ (t', none)
  unfolding insert_owned take_if_owned
  insert_owned-take_if_owned t t' path name i id old replaced h other =
      let e = insert_owned-objects t t' path name i id replaced h in
      ground (
        arith,
        e,
        get-insert t.objects path path (stored (entries_at t path) (registration name i id)),
        eq_refl path,
        taken-replaced (entries_at t path) (registration name i id) old other,
      )

  -- A call is answered with a value only by an interface that is served there, that lists the
  -- member, and, if the member asks for confidentiality, for a confidential delivery; the answer is
  -- the interface's own.
  pub dispatch_with_context-eq-ok :
      (t : ObjectTree Value Context) (path : ObjectPath) (name : InterfaceName)
      (member : MemberName) (args v : Value) (confidential : Bool) (context : Context)
      → dispatch_with_context t path name member args confidential context ≡ ok v
      → (i : Interface Value Context) × (lookup t path name ≡ ok i)
        × (any (λ m. m == member) i.members ≡ true)
        × ((i.requires_confidential member && not confidential) ≡ false)
        × (i.call_with_context member args context ≡ ok v)
  unfolding dispatch_with_context invoke
  dispatch_with_context-eq-ok t path name member args v confidential context h =
      let (i, found, h) =
        >>=-eq-ok (lookup t path name) (λ i. invoke i name member args confidential context) h in
      (i, found, ground (arith, h), ground (arith, h), ground (arith, h))
