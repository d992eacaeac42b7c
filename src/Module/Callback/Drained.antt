-- ===== src/Module/Callback/Drained.antt =====
-- A revoked callback scope of crates/tinybus/src/module/host_callbacks.rs runs empty.
use tinybus.Prelude.{
  ◌+◌, ◌≡◌, ◌↔◌, refl, ap, ◌∙◌, true, List, [], ◌∷◌, ◌++◌, arith, length, nat_eq, option_eq,
}
use tinybus.Name.Types.{bus_name_eq}
use tinybus.Module.Callback.{bind_module, revoke_scope, admit, finish_call}
use tinybus.Module.Callback.Life.{Call, World, Step, Steps, ended, ended_in, IsScoped}
use tinybus.Module.Callback.Scoped.{
  start_serving-IsKept, end_serving-IsKept, take_binding-IsKept, length-without, Steps-IsScoped,
}

-- A step of a revoked scope starts no call.
Step-ended :
    {v w : World} (step : Step v w)
    → IsScoped v
    → v.scope.lifetime.revoked ≡ true
    → (w.scope.lifetime.revoked ≡ true)
      × (ended step + w.scope.lifetime.running ≡ v.scope.lifetime.running)
Step-ended (Step.serves w p provided s h) f r =
    let k = start_serving-IsKept w.scope s p provided h in (k.revoked ∙ r, omega (arith, k.running))
Step-ended (Step.is_served w p fine) f r =
    let k = end_serving-IsKept w.scope p fine in (k.revoked ∙ r, omega (arith, k.running))
Step-ended (Step.is_taken w s h) f r =
    let k = take_binding-IsKept w.scope s h in (k.revoked ∙ r, omega (arith, k.running))
Step-ended (Step.is_bound w peer s h) f r = unfold bind_module in absurd (ground (arith, h, r))
Step-ended (Step.is_revoked w) f r = unfold revoke_scope in (refl, omega arith)
Step-ended (Step.changes w live) f r = (r, omega arith)
Step-ended (Step.begins w c s h room) f r = unfold admit in absurd (ground (arith, h, f.dead r))
Step-ended (Step.ends w before after c e) f r =
    let long : length w.calls ≡ length (before ++ after) + 1 =
      ap length e ∙ length-without before after c in
    unfold finish_call in (r, omega (arith, f.counted, long))

Steps-ended :
    {v w : World} (run : Steps v w)
    → IsScoped v
    → v.scope.lifetime.revoked ≡ true
    → (w.scope.lifetime.revoked ≡ true)
      × (ended_in run + w.scope.lifetime.running ≡ v.scope.lifetime.running)
unfolding ended_in
Steps-ended (Steps.done w) f r = (r, omega arith)
Steps-ended (Steps.then u v w run step) f r =
    let (kept, count) = Steps-ended run f r in
    let (last, one) = Step-ended step (Steps-IsScoped run f) kept in
    (last, omega (arith, count, one))

-- The counter tells whether a call runs.
counted-none : (w : World) → IsScoped w → (w.scope.lifetime.running ≡ 0) ↔ (w.calls ≡ [])
counted-none w f =
    (λ h. nothing w.calls (omega (arith, f.counted, h)), λ h. f.counted ∙ ap length h)
  where
    nothing : (cs : List Call) → length cs ≡ 0 → cs ≡ []
    nothing [] h = refl
    nothing (c ∷ cs) h = absurd (omega (arith, h))

-- Once a scope that was reached from a well-formed one is revoked, it stays revoked whatever steps
-- follow, each callback that ends brings the number of those that run down by one and none is
-- added, and the counter is 0 exactly when none runs.
pub Steps-drained :
    {u v w : World}
    → IsScoped u
    → Steps u v
    → v.scope.lifetime.revoked ≡ true
    → (run : Steps v w)
    → (w.scope.lifetime.revoked ≡ true)
      × (ended_in run + length w.calls ≡ length v.calls)
      × (w.scope.lifetime.running ≡ 0 ↔ w.calls ≡ [])
Steps-drained start before r run =
    let fv = Steps-IsScoped before start in
    let fw = Steps-IsScoped run fv in
    let (kept, count) = Steps-ended run fv r in
    (kept, omega (arith, count, fv.counted, fw.counted), counted-none _ fw)
