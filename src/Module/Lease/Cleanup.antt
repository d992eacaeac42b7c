-- ===== src/Module/Lease/Cleanup.antt =====
-- What `cleanup_worker` of crates/tinybus/src/module/lease.rs comes to, against what the attempts do.
use mathlib.Core.Path.{subst}
use tinybus.Prelude.{
  ℕ, ◌+◌, ◌≡◌, refl, sym, ◌∙◌, ◌⊎◌, inl, inr, Bool, true, false, ◌&&◌, ◌||◌, Option, none, some,
  List, [], ◌∷◌, ◌++◌, arith, if◌then◌else◌, Option-cases,
}
use tinybus.Module.Lease.{
  LeaseError, CloseState, StopOutcome, FaultTest, Ended, StopTask, Attempt, Worker,
  mark_unacknowledged, check_fault, call_stop, attempt_stop, cleanup_worker,
}

abbrev pub is_sound : FaultTest → Bool
is_sound FaultTest.sound = true
is_sound _ = false

pub FaultTest-cases :
    (t : FaultTest) → (t ≡ FaultTest.sound) ⊎ ((t ≡ FaultTest.faulted) ⊎ (t ≡ FaultTest.panicked))
FaultTest-cases FaultTest.sound = inl refl
FaultTest-cases FaultTest.faulted = inr (inl refl)
FaultTest-cases FaultTest.panicked = inr (inr refl)

module _ {E : Type 0} where
  -- How a STOP call settles, in time or late.
  abbrev pub settled : StopTask E → Option (StopOutcome E)
  settled (StopTask.on_time (Ended.done o)) = some o
  settled (StopTask.late (Ended.done o)) = some o
  settled _ = none

  abbrev pub acknowledges : Attempt E → Bool
  acknowledges a =
      is_sound a.before
      && elim (settled a.stop) [ some StopOutcome.acknowledged ↦ true | _ ↦ false ]

  abbrev pub allows_retry : Attempt E → Bool
  allows_retry a =
      is_sound a.before
      && elim (settled a.stop) [ some (StopOutcome.retryable_failure e) ↦ true | _ ↦ false ]

  -- An attempt is acknowledged, and each one before it settled in a failure that allows another one,
  -- with no fault after it.
  unfoldable pub settles : (ℕ → Attempt E) → List ℕ → ℕ → Bool
  settles env [] attempt = acknowledges (env attempt)
  settles env (delay ∷ delays) attempt =
      acknowledges (env attempt)
      || (allows_retry (env attempt)
          && is_sound (env attempt).after
          && settles env delays (attempt + 1))

  -- How the worker stands after an attempt, and in the end.
  pub record IsThrough (w w' : Worker E) (returned : Bool) : Type 0 where
    pub answer : w'.returned ≡ returned
    pub withdrawn : w'.exported ≡ (if returned then false else w.exported)
    pub told :
        if returned
        then w'.state ≡ CloseState.acknowledged
        else ((e : LeaseError E) × (w'.state ≡ CloseState.unacknowledged e)
            × (e.acknowledged ≡ false))

  -- An attempt that is not followed by another one.
  attempt_stop-IsThrough :
      (before after : FaultTest) (task : StopTask E) (n : ℕ) (w : Worker E)
      → w.returned ≡ false
      → let a : Attempt E = record { before = before; stop = task; after = after } in
        (attempt_stop a n w).1 ≡ none → IsThrough w (attempt_stop a n w).0 (acknowledges a)
  unfolding attempt_stop check_fault call_stop mark_unacknowledged
  attempt_stop-IsThrough FaultTest.sound after
        (StopTask.on_time (Ended.done StopOutcome.acknowledged)) n w h e =
      record { answer = refl; withdrawn = refl; told = refl }
  attempt_stop-IsThrough FaultTest.sound after
        (StopTask.on_time (Ended.done (StopOutcome.unacknowledged x))) n w h e =
      record { answer = h; withdrawn = refl; told = (_, refl, refl) }
  attempt_stop-IsThrough FaultTest.sound after
        (StopTask.on_time (Ended.done (StopOutcome.retryable_failure x))) n w h e =
      cc
  attempt_stop-IsThrough FaultTest.sound after (StopTask.on_time Ended.crashed) n w h e = record {
    answer = h;
    withdrawn = refl;
    told = (_, refl, refl);
  }
  attempt_stop-IsThrough FaultTest.sound after (StopTask.late (Ended.done StopOutcome.acknowledged))
        n w h e =
      record { answer = refl; withdrawn = refl; told = refl }
  attempt_stop-IsThrough FaultTest.sound after
        (StopTask.late (Ended.done (StopOutcome.unacknowledged x))) n w h e =
      record { answer = h; withdrawn = refl; told = (_, refl, refl) }
  attempt_stop-IsThrough FaultTest.sound after
        (StopTask.late (Ended.done (StopOutcome.retryable_failure x))) n w h e =
      cc
  attempt_stop-IsThrough FaultTest.sound after (StopTask.late Ended.crashed) n w h e = record {
    answer = h;
    withdrawn = refl;
    told = (_, refl, refl);
  }
  attempt_stop-IsThrough FaultTest.sound after StopTask.never n w h e = record {
    answer = h;
    withdrawn = refl;
    told = (_, refl, refl);
  }
  attempt_stop-IsThrough FaultTest.faulted after task n w h e = record {
    answer = h;
    withdrawn = refl;
    told = (_, refl, refl);
  }
  attempt_stop-IsThrough FaultTest.panicked after task n w h e = record {
    answer = h;
    withdrawn = refl;
    told = (_, refl, refl);
  }

  -- An attempt that may be followed by another one.
  pub record IsFailed (w w' : Worker E) (a : Attempt E) : Type 0 where
    pub retried : allows_retry a ≡ true
    pub refused : acknowledges a ≡ false
    pub waits : w'.returned ≡ w.returned
    pub keeps : w'.exported ≡ w.exported

  pub attempt_stop-IsFailed :
      (before after : FaultTest) (task : StopTask E) (n : ℕ) (w : Worker E) (e : E)
      → let a : Attempt E = record { before = before; stop = task; after = after } in
        (attempt_stop a n w).1 ≡ some e → IsFailed w (attempt_stop a n w).0 a
  unfolding attempt_stop check_fault call_stop mark_unacknowledged
  attempt_stop-IsFailed FaultTest.sound after
        (StopTask.on_time (Ended.done StopOutcome.acknowledged)) n w e h =
      cc
  attempt_stop-IsFailed FaultTest.sound after
        (StopTask.on_time (Ended.done (StopOutcome.unacknowledged x))) n w e h =
      cc
  attempt_stop-IsFailed FaultTest.sound after
        (StopTask.on_time (Ended.done (StopOutcome.retryable_failure x))) n w e h =
      record { retried = refl; refused = refl; waits = refl; keeps = refl }
  attempt_stop-IsFailed FaultTest.sound after (StopTask.on_time Ended.crashed) n w e h = cc
  attempt_stop-IsFailed FaultTest.sound after (StopTask.late (Ended.done StopOutcome.acknowledged))
        n w e h =
      cc
  attempt_stop-IsFailed FaultTest.sound after
        (StopTask.late (Ended.done (StopOutcome.unacknowledged x))) n w e h =
      cc
  attempt_stop-IsFailed FaultTest.sound after
        (StopTask.late (Ended.done (StopOutcome.retryable_failure x))) n w e h =
      record { retried = refl; refused = refl; waits = refl; keeps = refl }
  attempt_stop-IsFailed FaultTest.sound after (StopTask.late Ended.crashed) n w e h = cc
  attempt_stop-IsFailed FaultTest.sound after StopTask.never n w e h = cc
  attempt_stop-IsFailed FaultTest.faulted after task n w e h = cc
  attempt_stop-IsFailed FaultTest.panicked after task n w e h = cc

  attempt_stop-final :
      (a : Attempt E) (n : ℕ) (w : Worker E)
      → (attempt_stop a n w).1 ≡ none
      → allows_retry a ≡ false
  unfolding attempt_stop check_fault call_stop
  attempt_stop-final a n w h = ground (arith, h)

  IsThrough-same :
      (w v w' : Worker E) (b : Bool) → v.exported ≡ w.exported → IsThrough v w' b → IsThrough w w' b
  IsThrough-same w v w' b e t = record {
    answer = t.answer;
    withdrawn = rw (sym e) t.withdrawn;
    told = t.told;
  }

  -- A cleanup worker that has not returned before returns exactly when an attempt that it comes to
  -- is acknowledged, in time or late, after sound tests for a fault and attempts that all failed in
  -- a way that allows another one; then the callback is withdrawn and the state is acknowledged,
  -- and else the callback stays as it was and the state is an error that is not acknowledged.
  pub cleanup_worker-IsThrough :
      (env : ℕ → Attempt E) (delays : List ℕ) (n : ℕ) (w : Worker E)
      → w.returned ≡ false
      → IsThrough w (cleanup_worker env delays n w) (settles env delays n)
  unfolding cleanup_worker settles check_fault mark_unacknowledged
  cleanup_worker-IsThrough env [] n w h = elim (Option-cases (attempt_stop (env n) n w).1) [
    | inl e ↦
        rw (e, cleanup_worker)
          (attempt_stop-IsThrough (env n).before (env n).after (env n).stop n w h e)
    | inr (x, e) ↦
        let f = attempt_stop-IsFailed (env n).before (env n).after (env n).stop n w x e in
        rw (e, cleanup_worker)
          (record {
            answer = f.waits ∙ (h ∙ sym f.refused);
            withdrawn = rw f.refused f.keeps;
            told = rw f.refused (_, refl, refl);
          })
  ]
  cleanup_worker-IsThrough env (delay ∷ delays) n w h =
      elim (Option-cases (attempt_stop (env n) n w).1) [
        | inl e ↦
            let last = attempt_stop-final (env n) n w e in
            rw (e, cleanup_worker)
              (subst (λ b. IsThrough w (attempt_stop (env n) n w).0 b) (ground (arith, last))
                (attempt_stop-IsThrough (env n).before (env n).after (env n).stop n w h e))
        | inr (x, e) ↦
            let f = attempt_stop-IsFailed (env n).before (env n).after (env n).stop n w x e in
            let stopped = (attempt_stop (env n) n w).0 in
            elim (FaultTest-cases (env n).after) [
              | inl sound ↦
                  rw (e, sound, f.refused, f.retried, cleanup_worker)
                    (IsThrough-same w (record stopped { slept = stopped.slept ++ (delay ∷ []) }) _ _
                      f.keeps
                      (cleanup_worker-IsThrough env delays (n + 1)
                        (record stopped { slept = stopped.slept ++ (delay ∷ []) }) (f.waits ∙ h)))
              | inr (inl faulted) ↦
                  rw (e, faulted, f.refused, f.retried, cleanup_worker)
                    (record { answer = f.waits ∙ h; withdrawn = f.keeps; told = (_, refl, refl) })
              | inr (inr panicked) ↦
                  rw (e, panicked, f.refused, f.retried, cleanup_worker)
                    (record { answer = f.waits ∙ h; withdrawn = f.keeps; told = (_, refl, refl) })
            ]
      ]
