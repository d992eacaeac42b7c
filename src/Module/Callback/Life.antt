-- ===== src/Module/Callback/Life.antt =====
-- The callback scope of crates/tinybus/src/module/host_callbacks.rs over its life, with the user
-- futures that run in it.
use tinybus.Prelude.{
  ℕ, ◌+◌, ◌<◌, ◌≡◌, ◌⊎◌, Bool, true, false, none, List, [], ◌∷◌, ◌++◌, All, length, nat_eq,
  option_eq,
}
use tinybus.Text.Decimal.{u64_size}
use tinybus.Name.Types.{BusName, MemberName, bus_name_eq}
use tinybus.Error.{ok}
use tinybus.Module.Callback.{
  Place, Scope, CallContext, declares, start_serving, end_serving, take_binding, bind_module,
  revoke_scope, admit, finish_call,
}

-- A callback whose future has neither ended nor been dropped.
pub record Call : Type 0 where
  pub place : Place
  pub member : MemberName
  pub context : CallContext

pub record World : Type 0 where
  pub scope : Scope
  pub calls : List Call

pub data Step : World → World → Type 0 where
  serves :
      (w : World) (p : Place) (provided : List MemberName) (s : Scope)
      → start_serving w.scope p provided ≡ ok s
      → Step w (record w { scope = s })
  is_served :
      (w : World) (p : Place) (fine : Bool)
      → Step w (record w { scope = end_serving w.scope p fine })
  is_taken : (w : World) (s : Scope) → take_binding w.scope ≡ ok s → Step w (record w { scope = s })
  is_bound :
      (w : World) (peer : BusName) (s : Scope)
      → bind_module w.scope peer ≡ ok s
      → Step w (record w { scope = s })
  is_revoked : (w : World) → Step w (record w { scope = revoke_scope w.scope })
  -- The module's transport is gone or has faulted, or it has come.
  changes :
      (w : World) (live : Bool)
      → Step w (record w { scope = record (w.scope) { module_live = live } })
  begins :
      (w : World) (c : Call) (s : Scope)
      → admit w.scope c.place c.member c.context ≡ ok s
      → length w.calls + 1 < u64_size
      → Step w (record { scope = s; calls = c ∷ w.calls })
  ends :
      (w : World) (before after : List Call) (c : Call)
      → w.calls ≡ before ++ c ∷ after
      → Step w (record { scope = finish_call w.scope; calls = before ++ after })

pub data Steps : World → World → Type 0 where
  done : (w : World) → Steps w w
  then : (u v w : World) → Steps u v → Step v w → Steps u w

-- How many calls a step ends, and how many a run.
abbrev pub ended : {v w : World} → Step v w → ℕ
ended (Step.ends w before after c e) = 1
ended _ = 0

unfoldable pub ended_in : {v w : World} → Steps v w → ℕ
ended_in (Steps.done w) = 0
ended_in (Steps.then u v w run step) = ended_in run + ended step

-- The call comes from the module, and a private member is called in private only.
pub record IsAllowed (s : Scope) (c : Call) : Type 0 where
  pub caller : c.context.sender ≡ s.lifetime.bound
  pub declared :
      ((c.context.confidential ≡ true) × (declares s.endpoints c.place c.member ≡ true))
      ⊎ ((c.context.confidential ≡ false) × (declares s.stream_endpoints c.place c.member ≡ true))

pub record IsScoped (w : World) : Type 0 where
  pub counted : w.scope.lifetime.running ≡ length w.calls
  pub room : length w.calls < u64_size
  pub dead : w.scope.lifetime.revoked ≡ true → w.scope.lifetime.active ≡ false
  pub idle : w.scope.lifetime.bound ≡ none → (w.calls ≡ []) × (w.scope.lifetime.active ≡ false)
  pub allowed : All (IsAllowed w.scope) w.calls
