-- ===== src/Module/Lease.antt =====
-- crates/tinybus/src/module/lease.rs: a module's reservation, whose cleanup waits until the module has
-- acknowledged STOP. What the driver and the clock do is a parameter: for each attempt, what the test
-- for a fault says, and how and when the STOP call comes back.
pub mod Cleanup
pub mod Attempts
pub mod Shared
pub mod Activate
mod Tests
use tinybus.Prelude.{
  ℕ, ◌+◌, Bool, true, false, Option, none, some, List, [], ◌∷◌, ◌++◌, nat_eq, ◌==◌, if◌then◌else◌,
}

pub data LeasePhase : Type 0 where
  reserve validate object callback address export start stop runtime : LeasePhase

pub data LeaseReportOutcome : Type 0 where
  acknowledged failed timed_out faulted exhausted unacknowledged : LeaseReportOutcome

pub record LeaseReport : Type 0 where
  pub phase : LeasePhase
  pub attempt : Option ℕ
  pub outcome : LeaseReportOutcome

-- Durations are in milliseconds.
pub record RetryPolicy : Type 0 where
  pub per_attempt_timeout : ℕ
  pub retry_delays : List ℕ

-- `RetryPolicy::new`; `none` is its error, which carries nothing.
unfoldable pub new_policy : ℕ → List ℕ → Option RetryPolicy
new_policy per_attempt_timeout retry_delays =
    if per_attempt_timeout == 0
    then none
    else some (record { per_attempt_timeout = per_attempt_timeout; retry_delays = retry_delays })

pub data StopOutcome (E : Type 0) : Type 0 where
  acknowledged : StopOutcome E
  retryable_failure : E → StopOutcome E
  unacknowledged : E → StopOutcome E

pub data StartOutcome (E : Type 0) : Type 0 where
  started : StartOutcome E
  settled_failure : E → StartOutcome E
  unacknowledged : E → StartOutcome E

pub record LeaseError (E : Type 0) : Type 0 where
  pub phase : LeasePhase
  pub attempt : Option ℕ
  pub acknowledged : Bool
  pub driver_error : Option E

pub data CloseState (E : Type 0) : Type 0 where
  «open» running acknowledged : CloseState E
  unacknowledged : LeaseError E → CloseState E

-- `driver.failed(…)`, which may panic.
pub data FaultTest : Type 0 where
  sound faulted panicked : FaultTest

-- The task that owns a STOP call: it ends within the time of an attempt, later, or never; `crashed`
-- is its panic.
pub data Ended (E : Type 0) : Type 0 where
  done : StopOutcome E → Ended E
  crashed : Ended E

pub data StopTask (E : Type 0) : Type 0 where
  on_time : Ended E → StopTask E
  late : Ended E → StopTask E
  never : StopTask E

-- What the environment does in one attempt; the second test comes before the next attempt.
pub record Attempt (E : Type 0) : Type 0 where
  pub before : FaultTest
  pub stop : StopTask E
  pub after : FaultTest

-- What the worker has done so far; `exported` is the callback's guard, and `returned` says that the
-- worker is through. A worker that waits forever keeps the guard and never returns.
pub record Worker (E : Type 0) : Type 0 where
  pub state : CloseState E
  pub exported : Bool
  pub stops : List ℕ
  pub slept : List ℕ
  pub reports : List LeaseReport
  pub returned : Bool

-- Where the worker starts: `LeaseControl::start` has made the state `Running`.
abbrev pub begun : {E : Type 0} → Bool → Worker E
begun exported = record {
  state = CloseState.running;
  exported = exported;
  stops = [];
  slept = [];
  reports = [];
  returned = false;
}

module _ {E : Type 0} where
  abbrev report : Worker E → ℕ → LeaseReportOutcome → Worker E
  report w attempt outcome =
      let event : LeaseReport = record {
        phase = LeasePhase.stop;
        attempt = some attempt;
        outcome = outcome;
      } in
      record w { reports = w.reports ++ (event ∷ []) }

  abbrev stop_error : ℕ → Option E → LeaseError E
  stop_error attempt error = record {
    phase = LeasePhase.stop;
    attempt = some attempt;
    acknowledged = false;
    driver_error = error;
  }

  -- `park_unacknowledged` does no more, and waits forever.
  unfoldable pub mark_unacknowledged : Worker E → ℕ → Option E → LeaseReportOutcome → Worker E
  mark_unacknowledged w attempt error outcome = record (report w attempt outcome) {
    state = CloseState.unacknowledged (stop_error attempt error);
  }

  unfoldable pub check_fault : Worker E → ℕ → FaultTest → Worker E × Bool
  unfolding mark_unacknowledged
  check_fault w attempt FaultTest.sound = (w, true)
  check_fault w attempt FaultTest.faulted =
      (mark_unacknowledged w attempt none LeaseReportOutcome.faulted, false)
  check_fault w attempt FaultTest.panicked =
      (mark_unacknowledged w attempt none LeaseReportOutcome.unacknowledged, false)

  -- The STOP call with its timeout: its outcome, or `none` where the worker waits forever.
  unfoldable pub call_stop : Worker E → ℕ → StopTask E → Worker E × Option (StopOutcome E)
  unfolding mark_unacknowledged
  call_stop w attempt task =
      let called = record w { stops = w.stops ++ (attempt ∷ []) } in
      let timed_out = record (report called attempt LeaseReportOutcome.timed_out) {
        state = CloseState.unacknowledged (stop_error attempt none);
      } in
      elim task [
        | StopTask.on_time (Ended.done o) ↦ (called, some o)
        | StopTask.on_time Ended.crashed ↦
            (mark_unacknowledged called attempt none LeaseReportOutcome.unacknowledged, none)
        | StopTask.late (Ended.done o) ↦ (timed_out, some o)
        | StopTask.late Ended.crashed ↦
            (mark_unacknowledged timed_out attempt none LeaseReportOutcome.unacknowledged, none)
        | StopTask.never ↦ (timed_out, none)
      ]

  -- One turn of the loop: the worker, and the error if the attempt failed in a way that allows
  -- another one.
  unfoldable pub attempt_stop : Attempt E → ℕ → Worker E → Worker E × Option E
  unfolding check_fault call_stop mark_unacknowledged
  attempt_stop happens attempt w =
      let (tested, fine) = check_fault w attempt happens.before in
      let (stopped, outcome) = call_stop tested attempt happens.stop in
      if fine
      then elim outcome [
        | none ↦ (stopped, none)
        | some StopOutcome.acknowledged ↦ (
          record (report stopped attempt LeaseReportOutcome.acknowledged) {
            exported = false;
            state = CloseState.acknowledged;
            returned = true;
          },
          none,
        )
        | some (StopOutcome.retryable_failure error) ↦
            (report stopped attempt LeaseReportOutcome.failed, some error)
        | some (StopOutcome.unacknowledged error) ↦ (
          mark_unacknowledged stopped attempt (some error) LeaseReportOutcome.unacknowledged,
          none,
        )
      ]
      else (tested, none)

  -- `cleanup_worker`, from one attempt on, over the delays that are left: the attempt is the last one
  -- when none is.
  unfoldable pub cleanup_worker : (ℕ → Attempt E) → List ℕ → ℕ → Worker E → Worker E
  unfolding attempt_stop check_fault mark_unacknowledged
  cleanup_worker env [] attempt w =
      let (stopped, failure) = attempt_stop (env attempt) attempt w in
      elim failure [
        | none ↦ stopped
        | some error ↦ mark_unacknowledged stopped attempt (some error) LeaseReportOutcome.exhausted
      ]
  cleanup_worker env (delay ∷ delays) attempt w =
      let (stopped, failure) = attempt_stop (env attempt) attempt w in
      let (tested, fine) = check_fault stopped attempt (env attempt).after in
      let rest =
        cleanup_worker env delays (attempt + 1)
          (record tested { slept = tested.slept ++ (delay ∷ []) }) in
      elim failure [ none ↦ stopped | some error ↦ if fine then rest else tested ]
