-- ===== src/Module/Callback/Scoped.antt =====
-- Every step of a callback scope of crates/tinybus/src/module/host_callbacks.rs, and whose calls run.
use tinybus.Prelude.{
  ◌+◌, ◌<◌, ◌≡◌, refl, sym, ap, ◌∙◌, Bool, true, none, List, [], ◌∷◌, ◌++◌, arith, All, length,
  nat_eq, option_eq, eq_iff,
}
use tinybus.Text.Decimal.{u64_size}
use tinybus.Name.Types.{BusName, MemberName, bus_name_eq}
use tinybus.Error.{ok}
use tinybus.Router.Callbacks.{Endpoint}
use tinybus.Module.Callback.{
  Place, Scope, CallContext, prepare, prepare_child, authorizes, start_serving, end_serving,
  take_binding, bind_module, revoke_scope, admit, finish_call,
}
use tinybus.Module.Callback.Life.{Call, World, Step, Steps, IsAllowed, IsScoped}

-- What an operation changes in the lifetime.
pub record IsKept (s t : Scope) : Type 0 where
  pub running : t.lifetime.running ≡ s.lifetime.running
  pub revoked : t.lifetime.revoked ≡ s.lifetime.revoked
  pub active : t.lifetime.active ≡ s.lifetime.active
  pub bound : t.lifetime.bound ≡ s.lifetime.bound
  pub confidential : t.endpoints ≡ s.endpoints
  pub stream : t.stream_endpoints ≡ s.stream_endpoints

pub start_serving-IsKept :
    (s t : Scope) (p : Place) (provided : List MemberName)
    → start_serving s p provided ≡ ok t
    → IsKept s t
unfolding start_serving
start_serving-IsKept s t p provided h = record {
  running = ground (arith, h);
  revoked = ground (arith, h);
  active = ground (arith, h);
  bound = ground (arith, h);
  confidential = ground (arith, h);
  stream = ground (arith, h);
}

pub end_serving-IsKept : (s : Scope) (p : Place) (fine : Bool) → IsKept s (end_serving s p fine)
unfolding end_serving
end_serving-IsKept s p fine = record {
  running = refl;
  revoked = refl;
  active = refl;
  bound = refl;
  confidential = refl;
  stream = refl;
}

pub take_binding-IsKept : (s t : Scope) → take_binding s ≡ ok t → IsKept s t
unfolding take_binding
take_binding-IsKept s t h = record {
  running = ground (arith, h);
  revoked = ground (arith, h);
  active = ground (arith, h);
  bound = ground (arith, h);
  confidential = ground (arith, h);
  stream = ground (arith, h);
}

IsAllowed-kept :
    (s t : Scope)
    → t.lifetime.bound ≡ s.lifetime.bound
    → t.endpoints ≡ s.endpoints
    → t.stream_endpoints ≡ s.stream_endpoints
    → (cs : List Call) → All (IsAllowed s) cs
    → All (IsAllowed t) cs
IsAllowed-kept s t hb he hs [] a = tt
IsAllowed-kept s t hb he hs (c ∷ cs) (x, a) = (
  record { caller = x.caller ∙ sym hb; declared = rw (he, hs) x.declared },
  IsAllowed-kept s t hb he hs cs a,
)

IsKept-IsScoped :
    (w : World) (t : Scope) → IsKept w.scope t → IsScoped w → IsScoped (record w { scope = t })
IsKept-IsScoped w t k f = record {
  counted = k.running ∙ f.counted;
  room = f.room;
  dead = λ h. k.active ∙ f.dead (sym k.revoked ∙ h);
  idle = λ h. let (none_run, off) = f.idle (sym k.bound ∙ h) in (none_run, k.active ∙ off);
  allowed = IsAllowed-kept w.scope t k.bound k.confidential k.stream w.calls f.allowed;
}

bind_module-IsScoped :
    (w : World) (peer : BusName) (t : Scope)
    → bind_module w.scope peer ≡ ok t
    → IsScoped w
    → IsScoped (record w { scope = t })
unfolding bind_module
bind_module-IsScoped w peer t h f =
    let unbound : w.scope.lifetime.bound ≡ none = ground (arith, h) in
    let (none_run, off) = f.idle unbound in
    record {
      counted = ground (arith, h, f.counted);
      room = f.room;
      dead = λ r. ground (arith, h, r);
      idle = λ e. absurd (ground (arith, h, e));
      allowed = rw none_run tt;
    }

revoke_scope-IsScoped :
    (w : World) → IsScoped w → IsScoped (record w { scope = revoke_scope w.scope })
unfolding revoke_scope
revoke_scope-IsScoped w f = record {
  counted = f.counted;
  room = f.room;
  dead = λ h. refl;
  idle = λ h. ((f.idle h).0, refl);
  allowed = IsAllowed-kept w.scope (revoke_scope w.scope) refl refl refl w.calls f.allowed;
}

admit-IsAllowed :
    (s t : Scope) (c : Call) → admit s c.place c.member c.context ≡ ok t → IsAllowed t c
unfolding admit
admit-IsAllowed s t c h = record {
  caller = ground (arith, h, eq_iff c.context.sender s.lifetime.bound);
  declared = ground (arith, h);
}

admit-IsScoped :
    (w : World) (c : Call) (t : Scope)
    → admit w.scope c.place c.member c.context ≡ ok t
    → length w.calls + 1 < u64_size
    → IsScoped w
    → IsScoped (record { scope = t; calls = c ∷ w.calls })
unfolding admit
admit-IsScoped w c t h room f = record {
  counted = ground (arith, h, f.counted, room);
  room = omega (arith, room);
  dead = λ r. ground (arith, h, f.dead, r);
  idle = λ e. absurd (ground (arith, h, e));
  allowed = (
    admit-IsAllowed w.scope t c h,
    IsAllowed-kept w.scope t (ground (arith, h)) (ground (arith, h)) (ground (arith, h)) w.calls
        f.allowed,
  );
}

pub length-without :
    (before after : List Call) (c : Call)
    → length (before ++ c ∷ after) ≡ length (before ++ after) + 1
length-without [] after c = omega arith
length-without (b ∷ before) after c = omega (arith, length-without before after c)

All-without :
    (P : Call → Type 0) (before after : List Call) (c : Call)
    → All P (before ++ c ∷ after)
    → All P (before ++ after)
All-without P [] after c (x, a) = a
All-without P (b ∷ before) after c (x, a) = (x, All-without P before after c a)

finish_call-IsScoped :
    (w : World) (before after : List Call) (c : Call)
    → w.calls ≡ before ++ c ∷ after
    → IsScoped w
    → IsScoped (record { scope = finish_call w.scope; calls = before ++ after })
unfolding finish_call
finish_call-IsScoped w before after c e f =
    let long : length w.calls ≡ length (before ++ after) + 1 =
      ap length e ∙ length-without before after c in
    record {
      counted = omega (arith, f.counted, long);
      room = omega (arith, f.room, long);
      dead = f.dead;
      idle = λ h. absurd (omega (arith, long, ap length (f.idle h).0));
      allowed =
          IsAllowed-kept w.scope (finish_call w.scope) refl refl refl (before ++ after)
            (All-without (IsAllowed w.scope) before after c (rw e at f.allowed));
    }

Step-IsScoped : {v w : World} → Step v w → IsScoped v → IsScoped w
Step-IsScoped (Step.serves w p provided s h) f =
    IsKept-IsScoped w s (start_serving-IsKept w.scope s p provided h) f
Step-IsScoped (Step.is_served w p fine) f =
    IsKept-IsScoped w _ (end_serving-IsKept w.scope p fine) f
Step-IsScoped (Step.is_taken w s h) f = IsKept-IsScoped w s (take_binding-IsKept w.scope s h) f
Step-IsScoped (Step.is_bound w peer s h) f = bind_module-IsScoped w peer s h f
Step-IsScoped (Step.is_revoked w) f = revoke_scope-IsScoped w f
Step-IsScoped (Step.changes w live) f =
    IsKept-IsScoped w _
      (record {
        running = refl;
        revoked = refl;
        active = refl;
        bound = refl;
        confidential = refl;
        stream = refl;
      })
      f
Step-IsScoped (Step.begins w c s h room) f = admit-IsScoped w c s h room f
Step-IsScoped (Step.ends w before after c e) f = finish_call-IsScoped w before after c e f

-- Whatever steps follow on a callback scope that is well-formed, its counter is the number of the
-- callbacks that run, each of these was called by the module that the scope is bound to, either in
-- confidence and a private member or openly and an ordinary one, a revoked scope is not active, and
-- nothing runs before a module is bound; the 64-bit counter has room.
pub Steps-IsScoped : {v w : World} → Steps v w → IsScoped v → IsScoped w
Steps-IsScoped (Steps.done w) f = f
Steps-IsScoped (Steps.then u v w run step) f = Step-IsScoped step (Steps-IsScoped run f)

pub prepare-IsScoped :
    (endpoints signals stream_endpoints : List Endpoint)
    → IsScoped (record { scope = prepare endpoints signals stream_endpoints; calls = [] })
prepare-IsScoped endpoints signals stream_endpoints = record {
  counted = refl;
  room = omega arith;
  dead = λ h. refl;
  idle = λ h. (refl, refl);
  allowed = tt;
}

-- The parent is bound when a child is made, as `authorizes` has said.
prepare_child-IsScoped :
    (parent : Scope) (context : CallContext) (endpoints : List Endpoint)
    → authorizes parent context ≡ true
    → IsScoped (record { scope = prepare_child endpoints parent.lifetime.bound; calls = [] })
unfolding authorizes
prepare_child-IsScoped parent context endpoints h = record {
  counted = refl;
  room = omega arith;
  dead = λ e. absurd (ground (arith, e));
  idle = λ e. absurd (ground (arith, h, e));
  allowed = tt;
}
