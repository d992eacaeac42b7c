-- ===== src/Stream/Inbound/Tests.antt =====
-- Examples of the theorems about one stream of crates/tinybus/src/stream/mod.rs: a chunk of two bytes
-- is written, the reader is claimed, the stream is closed, and the chunk is read.
use tinybus.Prelude.{ℕ, refl, inl, false, none, some, List, [], ◌∷◌, arith, nat_eq}
use tinybus.Stream.Inbound.{
  default_limits, new_stream, Inbound, Outcome, enter_gate, deliver, claim_reader,
}
use tinybus.Stream.Inbound.Delivery.{Run, with_stream, Step, Steps, IsFaithful}
use tinybus.Stream.Inbound.Kept.{IsBounded, Steps-IsFaithful}

abbrev bytes : List ℕ
bytes = 104 ∷ 105 ∷ []

abbrev start : Run
start = record {
  stream = new_stream default_limits 0 none (record { content_type = none; total_len = none });
  written = [];
  read = [];
}

start-IsFaithful : IsFaithful start
start-IsFaithful = record {
  ordered = refl;
  counted = inl refl;
  verdict = refl;
  undecided = refl;
  windowed = omega arith;
}

start-IsBounded : IsBounded default_limits start.stream
start-IsBounded = record { capped = omega arith; declared = tt }

abbrev parked : Inbound
parked = record (start.stream) {
  next_seq = 1;
  received = 2;
  last_activity = 5;
  parked = some bytes;
}

abbrev queued : Inbound
queued = record parked { parked = none; queue = bytes ∷ []; last_activity = 6 }

abbrev claimed : Inbound
claimed = record queued { unclaimed = false }

abbrev before_close : Run
before_close = record { stream = claimed; written = bytes ∷ []; read = [] }

abbrev closed : Inbound
closed = record claimed { last_activity = 7; outcome = some Outcome.complete; writable = false }

abbrev at_end : Run
at_end = record { stream = record closed { queue = [] }; written = bytes ∷ []; read = bytes ∷ [] }

to_before_close : Steps default_limits start before_close
unfolding enter_gate deliver claim_reader
to_before_close =
    let first = with_stream start parked in
    let second : Run = record { stream = queued; written = bytes ∷ []; read = [] } in
    Steps.then start second before_close
      (Steps.then start first second
        (Steps.then start start first (Steps.done start)
          (Step.passed start 5 0 bytes parked (omega arith) refl refl))
        (Step.delivered first 6 bytes queued refl refl))
      (Step.claimed second claimed refl)

Steps-IsFaithful_example : IsBounded default_limits claimed × IsFaithful before_close
Steps-IsFaithful_example =
    Steps-IsFaithful default_limits (omega arith) to_before_close start-IsBounded start-IsFaithful
