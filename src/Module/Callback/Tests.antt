-- ===== src/Module/Callback/Tests.antt =====
-- Examples of the theorems about the callback scopes of crates/tinybus/src/module/host_callbacks.rs: one
-- member is served, bound and called, and the scope is revoked while the call runs.
use tinybus.Prelude.{
  ◌+◌, ◌≡◌, if◌then◌else◌, ◌↔◌, refl, true, some, [], ◌∷◌, arith, nat_eq, list_eq, list_beq,
  option_eq, length,
}
use tinybus.Text.{txt}
use tinybus.Error.{ok}
use tinybus.Name.Types.{
  BusName, MemberName, bus_name_eq, object_path_eq, interface_name_eq, member_name_eq,
}
use tinybus.Router.Callbacks.{Endpoint}
use tinybus.Module.Callback.{
  Place, Scope, declares, prepare, start_serving, end_serving, take_binding,
  required_endpoint_count, bind_module, revoke_scope, admit, finish_call,
}
use tinybus.Module.Callback.Life.{Call, World, Step, Steps, ended_in, IsScoped}
use tinybus.Module.Callback.Scoped.{Steps-IsScoped, prepare-IsScoped}
use tinybus.Module.Callback.Drained.{Steps-drained}
use tinybus.Router.Callbacks.{matches}
use tinybus.Message.Types.{MessageKind, Header}
use tinybus.Message.Build.{plain}
use tinybus.Module.Callback.Routed.{routed, matches-admit_iff}
use tinybus.Module.Callback.Declare.{check_declaration, admit_iff}

abbrev place : Place
place = record {
  path = record { text = txt "/vault" };
  interface = record { text = txt "ai.tinyhumans.Vault" };
}

abbrev read : MemberName
read = record { text = txt "Read" }

abbrev vault : Endpoint
vault = record { path = place.path; interface = place.interface; members = read ∷ [] }

abbrev caller : BusName
caller = record { text = txt ":1.7" }

abbrev call : Call
call = record {
  place = place;
  member = read;
  context = record { sender = some caller; confidential = true };
}

abbrev fresh : World
fresh = record { scope = prepare (vault ∷ []) [] []; calls = [] }

abbrev registering : Scope
registering = record (fresh.scope) {
  lifetime = record (fresh.scope.lifetime) { registering = place ∷ [] };
}

abbrev served : Scope
served = end_serving registering place true

abbrev taken : Scope
taken = record served { lifetime = record (served.lifetime) { used = true } }

abbrev given : Scope
given = record taken { lifetime = record (taken.lifetime) { bound = some caller; active = true } }

abbrev busy : Scope
busy = record given { lifetime = record (given.lifetime) { running = 1 } }

abbrev at_work : World
at_work = record { scope = busy; calls = call ∷ [] }

abbrev world : Scope → World
world s = record { scope = s; calls = [] }

start_ok : start_serving fresh.scope place (read ∷ []) ≡ ok registering
unfolding start_serving txt list_beq object_path_eq interface_name_eq member_name_eq
start_ok = refl

take_ok : take_binding served ≡ ok taken
unfolding take_binding required_endpoint_count end_serving txt list_beq object_path_eq
    interface_name_eq
take_ok = refl

bind_ok : bind_module taken caller ≡ ok given
unfolding bind_module end_serving
bind_ok = refl

admit_ok : admit given place read call.context ≡ ok busy
unfolding admit end_serving txt list_beq object_path_eq interface_name_eq member_name_eq bus_name_eq
admit_ok = refl

to_work : Steps fresh at_work
to_work =
    Steps.then fresh (world given) at_work
      (Steps.then fresh (world taken) (world given)
        (Steps.then fresh (world served) (world taken)
          (Steps.then fresh (world registering) (world served)
            (Steps.then fresh fresh (world registering) (Steps.done fresh)
              (Step.serves fresh place (read ∷ []) registering start_ok))
            (Step.is_served (world registering) place true))
          (Step.is_taken (world served) taken take_ok))
        (Step.is_bound (world taken) caller given bind_ok))
      (Step.begins (world given) call busy admit_ok (omega arith))

Steps-IsScoped_example : IsScoped at_work
Steps-IsScoped_example = Steps-IsScoped to_work (prepare-IsScoped (vault ∷ []) [] [])

abbrev closing : World
closing = record { scope = revoke_scope busy; calls = call ∷ [] }

abbrev empty : World
empty = world (finish_call closing.scope)

last_call : Steps closing empty
last_call =
    Steps.then closing closing empty (Steps.done closing) (Step.ends closing [] [] call refl)

Steps-drained_example :
    (empty.scope.lifetime.revoked ≡ true)
    × (ended_in last_call + length empty.calls ≡ length closing.calls)
    × (empty.scope.lifetime.running ≡ 0 ↔ empty.calls ≡ [])
unfolding revoke_scope
Steps-drained_example =
    Steps-drained (prepare-IsScoped (vault ∷ []) [] [])
      (Steps.then fresh at_work closing to_work (Step.is_revoked at_work)) refl last_call

declaration_ok : check_declaration (vault ∷ []) [] [] ≡ ok tt
unfolding check_declaration txt list_beq object_path_eq interface_name_eq member_name_eq
declaration_ok = refl

admit_iff_example : ((t : Scope) × (admit given place read call.context ≡ ok t)) ↔ (
    (given.module_live ≡ true)
    × (given.lifetime.active ≡ true)
    × ((peer : BusName) × (given.lifetime.bound ≡ some peer) × (call.context.sender ≡ some peer))
    × ((if call.context.confidential
          then declares given.endpoints place read
          else declares given.stream_endpoints place read)
        ≡ true))
unfolding end_serving
admit_iff_example = admit_iff [] given place read call.context declaration_ok

abbrev vault_name : BusName
vault_name = record { text = txt ":1.4" }

abbrev reads : Header
reads = record (plain MessageKind.method_call) {
  sender = some caller;
  destination = some vault_name;
  path = some place.path;
  interface = some place.interface;
  member = some read;
  confidential = true;
}

matches-admit_iff_example :
    (matches (routed given vault_name) reads ≡ true)
    ↔ ((t : Scope) × (admit given place read call.context ≡ ok t))
unfolding end_serving
matches-admit_iff_example =
    matches-admit_iff given vault_name reads place read declaration_ok refl refl refl refl refl
