-- ===== src/Module/Callback.antt =====
-- The life of a callback scope of crates/tinybus/src/module/host_callbacks.rs: an endpoint is served,
-- the scope is bound to one module, its calls run, and it is revoked and drained. A function is what
-- runs while the lock of the lifetime is held.
pub mod Life
pub mod Scoped
pub mod Drained
pub mod Declare
pub mod Routed
mod Tests
use tinybus.Prelude.{
  ℕ, ◌+◌, ◌-◌, ◌%◌, Bool, true, false, not, ◌&&◌, ◌||◌, Option, none, some, List, [], ◌∷◌, ◌++◌,
  any, all, find, filter, length, is_some, is_none, is_some_and, nat_eq, list_eq, option_eq, ◌==◌,
  ◌!=◌, if◌then◌else◌, is_empty,
}
use tinybus.Text.{Str, txt}
use tinybus.Text.Decimal.{u64_size}
use tinybus.Name.Types.{
  BusName, ObjectPath, InterfaceName, MemberName, bus_name_eq, object_path_eq, interface_name_eq,
  member_name_eq,
}
use tinybus.Error.{Error, Result, ok, err, ◌>>=◌, ◌>>◌, refuse_if, failed}
use tinybus.Router.Callbacks.{Endpoint}

-- A path and an interface.
pub record Place : Type 0 where
  pub path : ObjectPath
  pub interface : InterfaceName

abbrev pub is_place : Place → Place → Bool
is_place a b = a.path == b.path && a.interface == b.interface

pub record Lifetime : Type 0 where
  pub active : Bool
  pub used : Bool
  pub revoked : Bool
  pub bound : Option BusName
  pub running : ℕ
  pub served : List Place
  pub registering : List Place

-- `module_live` is what the module's transport says, once there is one.
pub record Scope : Type 0 where
  pub endpoints : List Endpoint
  pub stream_endpoints : List Endpoint
  pub signals : List Endpoint
  pub module_live : Bool
  pub lifetime : Lifetime

pub record CallContext : Type 0 where
  pub sender : Option BusName
  pub confidential : Bool

-- The state that `prepare_host_callbacks_with_signals_and_stream_endpoints` makes.
abbrev pub prepare : List Endpoint → List Endpoint → List Endpoint → Scope
prepare endpoints signals stream_endpoints = record {
  endpoints = endpoints;
  stream_endpoints = stream_endpoints;
  signals = signals;
  module_live = true;
  lifetime = record {
    active = false;
    used = false;
    revoked = false;
    bound = none;
    running = 0;
    served = [];
    registering = [];
  };
}

-- The state that `create_child_binding` makes, for a module that is bound already.
abbrev pub prepare_child : List Endpoint → Option BusName → Scope
prepare_child endpoints peer = record (prepare endpoints [] []) {
  lifetime = record ((prepare endpoints [] []).lifetime) { active = true; bound = peer };
}

abbrev place_of : Endpoint → Place
place_of e = record { path = e.path; interface = e.interface }

-- The loop of `required_endpoint_count`.
unfoldable count_places : List Place → List Place → List Place
count_places known [] = known
count_places known (p ∷ ps) =
    count_places (if any (is_place p) known then known else known ++ (p ∷ [])) ps

unfoldable places : List Endpoint → List Place
places [] = []
places (e ∷ es) = place_of e ∷ places es

unfoldable pub required_endpoint_count : Scope → ℕ
unfolding count_places places
required_endpoint_count s =
    length (count_places [] (places s.endpoints ++ places s.stream_endpoints))

-- The endpoint declared at a place.
abbrev pub find_endpoint : List Endpoint → Place → Option Endpoint
find_endpoint es p = find (λ e. is_place (place_of e) p) es

abbrev pub declares : List Endpoint → Place → MemberName → Bool
declares es p member = is_some_and (find_endpoint es p) (λ e. any (λ m. m == member) e.members)

abbrev provides : List MemberName → Option Endpoint → Bool
provides provided none = true
provides provided (some e) = all (λ member. any (λ m. m == member) provided) e.members

-- `serve_at`, up to the registration with the connection.
unfoldable pub start_serving : Scope → Place → List MemberName → Result Scope
start_serving s p provided =
    let confidential_endpoint = find_endpoint s.endpoints p in
    let stream_endpoint = find_endpoint s.stream_endpoints p in
    do
      refuse_if (is_none confidential_endpoint && is_none stream_endpoint)
          (failed (txt "callback endpoint is not declared"))
      refuse_if (not (provides provided confidential_endpoint && provides provided stream_endpoint))
          (failed (txt "callback endpoint members are missing"))
      refuse_if
          (s.lifetime.used
            || s.lifetime.revoked
            || any (is_place p) s.lifetime.served
            || any (is_place p) s.lifetime.registering)
          (failed (txt "callback registration is immutable or duplicated"))
      ok (record s {
        lifetime = record (s.lifetime) { registering = s.lifetime.registering ++ (p ∷ []) };
      })

-- `serve_at`, after it.
unfoldable pub end_serving : Scope → Place → Bool → Scope
end_serving s p is_ok = record s {
  lifetime = record (s.lifetime) {
    registering = filter (λ q. not (is_place q p)) s.lifetime.registering;
    served = if is_ok then s.lifetime.served ++ (p ∷ []) else s.lifetime.served;
  };
}

-- The loader takes the binding.
unfoldable pub take_binding : Scope → Result Scope
take_binding s = do
  refuse_if
      (s.lifetime.used
        || s.lifetime.revoked
        || length s.lifetime.served != required_endpoint_count s)
      (failed (txt "callback binding is already used or endpoints are missing"))
  ok (record s { lifetime = record (s.lifetime) { used = true } })

-- The loader gives the scope to the module.
unfoldable pub bind_module : Scope → BusName → Result Scope
bind_module s peer = do
  refuse_if (s.lifetime.revoked || is_some s.lifetime.bound)
      (failed (txt "callback binding was concurrently used"))
  ok (record s { lifetime = record (s.lifetime) { bound = some peer; active = true } })

-- `CallbackState::revoke`, and the start of `wait_drained`.
unfoldable pub revoke_scope : Scope → Scope
revoke_scope s = record s { lifetime = record (s.lifetime) { active = false; revoked = true } }

-- `==` of two tests.
abbrev same : Bool → Bool → Bool
same a b = if a then b else not b

-- `GuardedInterface::call_with_context`, up to the user's future.
unfoldable pub admit : Scope → Place → MemberName → CallContext → Result Scope
admit s p member context =
    let confidential_member = declares s.endpoints p member in
    let stream_member = declares s.stream_endpoints p member in
    do
      refuse_if
          (not s.module_live
            || same confidential_member stream_member
            || confidential_member && not context.confidential
            || stream_member && context.confidential
            || not s.lifetime.active
            || is_none s.lifetime.bound
            || context.sender != s.lifetime.bound)
          (failed (txt "scoped callback authority is unavailable"))
      ok (record s {
        lifetime = record (s.lifetime) { running = (s.lifetime.running + 1) % u64_size };
      })

-- `Drop` of `Running`, when the user's future has ended or was dropped.
unfoldable pub finish_call : Scope → Scope
finish_call s = record s { lifetime = record (s.lifetime) { running = s.lifetime.running - 1 } }

-- `HostCallbackGuard::authorizes`
unfoldable pub authorizes : Scope → CallContext → Bool
authorizes s context =
    s.lifetime.active
    && s.module_live
    && context.confidential
    && is_some s.lifetime.bound
    && context.sender == s.lifetime.bound

-- `authorized_stream_module`
unfoldable pub authorized_stream_module : Scope → CallContext → Result BusName
authorized_stream_module s context = do
  refuse_if
      (context.confidential
        || is_empty s.stream_endpoints
        || not s.module_live
        || not s.lifetime.active
        || is_none s.lifetime.bound
        || context.sender != s.lifetime.bound)
      (failed (txt "callback stream authority is unavailable"))
  elim s.lifetime.bound [
    | some peer ↦ ok peer
    | none ↦ err (failed (txt "callback stream recipient is unavailable"))
  ]
