-- ===== src/Router/Callbacks.antt =====
-- The parts of `CallbackState` of crates/tinybus/src/module/host_callbacks.rs that the router reads,
-- and the heap that the router's `Arc`s point into. `module_live`, the state of the module's
-- transport, is a field.
use tinybus.Prelude.{
  ℕ, Bool, true, false, ◌&&◌, ◌||◌, Option, some, List, any, is_some, is_some_and, ◌==◌, option_eq,
  nat_eq, if◌then◌else◌,
}
use tinybus.Name.Types.{
  BusName, ObjectPath, InterfaceName, MemberName, bus_name_eq, object_path_eq, interface_name_eq,
  member_name_eq,
}
use tinybus.Message.Types.{Header}

-- `HostCallbackEndpoint` and `HostCallbackSignal` have the same fields.
pub record Endpoint : Type 0 where
  pub path : ObjectPath
  pub interface : InterfaceName
  pub members : List MemberName

pub record CallbackState : Type 0 where
  pub destination : BusName
  pub endpoints : List Endpoint
  pub signals : List Endpoint
  pub module_live : Bool
  pub active : Bool
  pub revoked : Bool
  pub module_peer : Option BusName

-- The object behind each `Arc`, by its address.
abbrev pub Heap : Type 0
Heap = ℕ → CallbackState

unfoldable pub includes_peer : CallbackState → BusName → Bool
includes_peer self peer = self.destination == peer || self.module_peer == some peer

unfoldable pub revoke : CallbackState → CallbackState
revoke self = record self { active = false; revoked = true }

-- The test of one declared endpoint.
unfoldable pub admits : Header → Endpoint → Bool
admits header endpoint =
    header.path == some endpoint.path
    && header.interface == some endpoint.interface
    && is_some_and header.member (λ member. any (λ m. m == member) endpoint.members)

unfoldable pub matches : CallbackState → Header → Bool
unfolding admits
matches self header =
    self.active
    && self.module_live
    && header.confidential
    && header.sender == self.module_peer
    && is_some self.module_peer
    && header.destination == some self.destination
    && any (admits header) self.endpoints

unfoldable pub matches_directed_signal : CallbackState → BusName → BusName → Header → Bool
unfolding admits
matches_directed_signal self source destination header =
    self.active
    && self.module_live
    && self.destination == source
    && self.module_peer == some destination
    && any (admits header) self.signals

-- `capability.revoke()` through the pointer.
unfoldable pub revoke_at : Heap → ℕ → Heap
revoke_at heap address a = if a == address then revoke (heap a) else heap a
