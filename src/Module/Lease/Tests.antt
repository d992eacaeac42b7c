-- ===== src/Module/Lease/Tests.antt =====
-- Examples of the theorems about crates/tinybus/src/module/lease.rs: a module that acknowledges the
-- second STOP. The driver's errors are numbers.
use tinybus.Prelude.{
  ℕ, zero, suc, ◌+◌, ◌≤◌, ◌<◌, ◌≡◌, ◌≢◌, refl, ◌↔◌, ◌⊎◌, true, false, none, [], ◌∷◌, arith,
}
use tinybus.Module.Lease.{
  StopOutcome, StartOutcome, FaultTest, Ended, StopTask, Attempt, begun, cleanup_worker,
}
use tinybus.Module.Lease.Cleanup.{IsThrough, settles, allows_retry, cleanup_worker-IsThrough}
use tinybus.Module.Lease.Attempts.{in_a_row, cleanup_worker-IsCalled}
use tinybus.Module.Lease.Shared.{
  Lease, granted, Step, Steps, clone_lease, drop_lease, close_lease, Steps-runs,
}
use tinybus.Module.Lease.Activate.{
  Driver, Kept, CallbackAnswer, StartTask, in_flight, activate, activate-kept,
}

abbrev env : ℕ → Attempt ℕ
env zero = record { before = FaultTest.sound; stop = StopTask.never; after = FaultTest.sound }
env (suc zero) = record {
  before = FaultTest.sound;
  stop = StopTask.late (Ended.done (StopOutcome.retryable_failure 7));
  after = FaultTest.sound;
}
env (suc (suc n)) = record {
  before = FaultTest.sound;
  stop = StopTask.on_time (Ended.done StopOutcome.acknowledged);
  after = FaultTest.sound;
}

cleanup_worker-IsThrough_example :
    IsThrough (begun true) (cleanup_worker env (10 ∷ []) 1 (begun true)) (settles env (10 ∷ []) 1)
cleanup_worker-IsThrough_example = cleanup_worker-IsThrough env (10 ∷ []) 1 (begun true) refl

cleanup_worker-IsCalled_example :
    (k : ℕ) × (k ≤ 2)
    × ((cleanup_worker env (10 ∷ []) 1 (begun true)).stops ≡ in_a_row 1 k)
    × ((j : ℕ) → 1 ≤ j → j + 1 < 1 + k → allows_retry (env j) ≡ true)
cleanup_worker-IsCalled_example = cleanup_worker-IsCalled env (10 ∷ []) 1 (begun true)

abbrev twice : Lease
twice = record { control = clone_lease granted.control; handles = 2 }

abbrev closed : Lease
closed = record twice { control = close_lease twice.control }

abbrev gone : Lease
gone = record { control = drop_lease (drop_lease closed.control); handles = 0 }

to_gone : Steps granted gone
to_gone =
    let less : Lease = record { control = drop_lease closed.control; handles = 1 } in
    Steps.then granted less gone
      (Steps.then granted closed less
        (Steps.then granted twice closed
          (Steps.then granted granted twice (Steps.done granted)
            (Step.clones granted (omega arith) (omega arith)))
          (Step.closes twice (omega arith)))
        (Step.drops closed (omega arith)))
      (Step.drops less (omega arith))

Steps-runs_example : (gone.control.runs ≤ 1) × (gone.handles ≡ 0 → gone.control.runs ≡ 1)
Steps-runs_example = Steps-runs to_gone

abbrev silent : Driver ℕ
silent = record {
  reserve = none;
  validate = none;
  object = none;
  callback = CallbackAnswer.made;
  address = none;
  exports = true;
  start = StartTask.done (StartOutcome.unacknowledged 7);
}

activate-kept_example :
    ((activate silent false).refusal ≡ none ↔ (
      (silent.reserve ≡ none)
      × (silent.validate ≡ none)
      × (silent.object ≡ none)
      × (silent.callback ≡ CallbackAnswer.made)
      × (silent.address ≡ none)
      × (silent.exports ≡ true)
      × (silent.start ≡ StartTask.done StartOutcome.started)))
    × ((activate silent false).kept ≡ Kept.cleaned ↔ (
        (silent.reserve ≡ none)
        × ((activate silent false).refusal ≢ none)
        × (((activate silent false).start_called ≡ false) ⊎ (in_flight silent.start ≡ false))))
    × ((activate silent false).kept ≡ Kept.parked
        ↔ (((activate silent false).start_called ≡ true) × (in_flight silent.start ≡ true)))
activate-kept_example = activate-kept silent false
