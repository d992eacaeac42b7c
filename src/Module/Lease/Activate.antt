-- ===== src/Module/Lease/Activate.antt =====
-- `activate` of crates/tinybus/src/module/lease.rs: how a module is reserved and started, and what
-- becomes of the reservation if that fails. The driver's answers and the wait for the cleanup are
-- parameters.
use tinybus.Prelude.{
  ◌≡◌, ◌≢◌, ◌↔◌, ◌⊎◌, Bool, true, false, Option, none, some, arith, if◌then◌else◌,
}
use tinybus.Module.Lease.{LeasePhase, LeaseError, StartOutcome}

-- `catch_unwind` around the factory of the callback.
pub data CallbackAnswer (E : Type 0) : Type 0 where
  made panicked : CallbackAnswer E
  refused : E → CallbackAnswer E

-- The task that owns the START call, and its panic.
pub data StartTask (E : Type 0) : Type 0 where
  done : StartOutcome E → StartTask E
  crashed : StartTask E

-- `none` where an operation succeeds.
pub record Driver (E : Type 0) : Type 0 where
  pub reserve : Option E
  pub validate : Option E
  pub object : Option E
  pub callback : CallbackAnswer E
  pub address : Option E
  pub exports : Bool
  pub start : StartTask E

-- What becomes of a reservation: kept by the lease (or never made), handed to the cleanup worker, or
-- kept forever, with no STOP. Whether the callback was exported and START was called is as it was
-- before the cleanup.
pub data Kept : Type 0 where
  idle cleaned parked : Kept

pub record Activated (E : Type 0) : Type 0 where
  pub refusal : Option (LeaseError E)
  pub kept : Kept
  pub exported : Bool
  pub start_called : Bool

module _ {E : Type 0} where
  abbrev pub refused_in : LeasePhase → Bool → Option E → LeaseError E
  refused_in phase acknowledged error = record {
    phase = phase;
    attempt = none;
    acknowledged = acknowledged;
    driver_error = error;
  }

  -- `control.wait().await.is_ok()`, and the error that follows.
  abbrev rolled_back : Bool → LeasePhase → Option E → Bool → Bool → Activated E
  rolled_back acknowledged phase error exported start_called = record {
    refusal = some (refused_in phase acknowledged error);
    kept = Kept.cleaned;
    exported = exported;
    start_called = start_called;
  }

  abbrev parked_start : Option E → Activated E
  parked_start error = record {
    refusal = some (refused_in LeasePhase.start false error);
    kept = Kept.parked;
    exported = true;
    start_called = true;
  }

  -- `start.await`
  unfoldable pub await_start : Bool → StartTask E → Activated E
  await_start acknowledged (StartTask.done StartOutcome.started) = record {
    refusal = none;
    kept = Kept.idle;
    exported = true;
    start_called = true;
  }
  await_start acknowledged (StartTask.done (StartOutcome.settled_failure error)) =
      rolled_back acknowledged LeasePhase.start (some error) true true
  await_start acknowledged (StartTask.done (StartOutcome.unacknowledged error)) =
      parked_start (some error)
  await_start acknowledged StartTask.crashed = parked_start none

  unfoldable pub export_callback : Driver E → Bool → Activated E
  unfolding await_start
  export_callback driver acknowledged = elim driver.callback [
    | CallbackAnswer.refused error ↦
        rolled_back acknowledged LeasePhase.callback (some error) false false
    | CallbackAnswer.panicked ↦ rolled_back acknowledged LeasePhase.callback none false false
    | CallbackAnswer.made ↦ elim driver.address [
      | some error ↦ rolled_back acknowledged LeasePhase.address (some error) false false
      | none ↦
          if driver.exports
          then await_start acknowledged driver.start
          else rolled_back acknowledged LeasePhase.export none false false
    ]
  ]

  -- `acknowledged` is what the wait for the cleanup worker comes to, where there is one.
  unfoldable pub activate : Driver E → Bool → Activated E
  unfolding export_callback
  activate driver acknowledged = elim driver.reserve [
    | some error ↦ record {
      refusal = some (refused_in LeasePhase.reserve false (some error));
      kept = Kept.idle;
      exported = false;
      start_called = false;
    }
    | none ↦ elim driver.validate [
      | some error ↦ rolled_back acknowledged LeasePhase.validate (some error) false false
      | none ↦ elim driver.object [
        | some error ↦ rolled_back acknowledged LeasePhase.object (some error) false false
        | none ↦ export_callback driver acknowledged
      ]
    ]
  ]

  -- START went out, and it is not known to have settled.
  abbrev pub in_flight : StartTask E → Bool
  in_flight (StartTask.done (StartOutcome.unacknowledged error)) = true
  in_flight StartTask.crashed = true
  in_flight _ = false

  -- A lease is granted exactly if every operation of the driver succeeds and START reports that the
  -- module has started; a reservation goes to the cleanup worker exactly if it was made, the
  -- activation failed, and START was not called or is known to have settled; and it is kept without
  -- STOP exactly if START was called and is not known to have settled.
  pub activate-kept :
      (driver : Driver E) (acknowledged : Bool)
      → let a = activate driver acknowledged in
        (a.refusal ≡ none ↔ (
          (driver.reserve ≡ none)
          × (driver.validate ≡ none)
          × (driver.object ≡ none)
          × (driver.callback ≡ CallbackAnswer.made)
          × (driver.address ≡ none)
          × (driver.exports ≡ true)
          × (driver.start ≡ StartTask.done StartOutcome.started)))
        × (a.kept ≡ Kept.cleaned ↔ (
            (driver.reserve ≡ none)
            × (a.refusal ≢ none)
            × ((a.start_called ≡ false) ⊎ (in_flight driver.start ≡ false))))
        × (a.kept ≡ Kept.parked ↔ ((a.start_called ≡ true) × (in_flight driver.start ≡ true)))
  unfolding activate export_callback await_start
  activate-kept driver acknowledged = (ground arith, ground arith, ground arith)
