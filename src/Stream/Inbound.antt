-- ===== src/Stream/Inbound.antt =====
-- `Inbound` of crates/tinybus/src/stream/mod.rs, with the two ends of its channel. The state between
-- two awaits is one value; the instants are numbers, and the caller gives the current one.
pub mod Delivery
pub mod Kept
pub mod Clean
pub mod Tests
use tinybus.Prelude.{
  ℕ, ◌+◌, ◌-◌, ◌*◌, ◌%◌, Bool, true, false, not, ◌&&◌, ◌||◌, Option, none, some, List, [], ◌∷◌,
  ◌++◌, ltb, leb, nat_eq, ◌==◌, ◌!=◌, if◌then◌else◌, length, is_some, is_none, is_some_and,
}
use tinybus.Text.{Str, txt}
use tinybus.Text.Decimal.{u64_size, decimal}
use tinybus.Name.Types.{BusName}
use tinybus.Error.{Error, Result, ok, err}

abbrev pub max_chunk_len : ℕ
max_chunk_len = 512 * 1024

-- A duration is in milliseconds.
pub record StreamLimits : Type 0 where
  pub max_stream_len : ℕ
  pub max_streams_per_peer : ℕ
  pub window_chunks : ℕ
  pub idle_timeout : ℕ

-- `StreamLimits::default()`
abbrev pub default_limits : StreamLimits
default_limits = record {
  max_stream_len = 256 * 1024 * 1024;
  max_streams_per_peer = 4;
  window_chunks = 8;
  idle_timeout = 60000;
}

pub data Outcome : Type 0 where
  complete : Outcome
  aborted : Str → Outcome

-- The gate and the channel stand in the record too: `parked` is the chunk of the write that holds
-- the gate and waits for room, `queue` is what the channel buffers up to `window`, and `receiving`
-- says that the reading half, claimed or not, has not been dropped.
pub record Inbound : Type 0 where
  pub owner : Option BusName
  pub content_type : Option Str
  pub declared_len : Option ℕ
  pub next_seq : ℕ
  pub received : ℕ
  pub writable : Bool
  pub unclaimed : Bool
  pub outcome : Option Outcome
  pub aborted : Bool
  pub last_activity : ℕ
  pub parked : Option (List ℕ)
  pub queue : List (List ℕ)
  pub window : ℕ
  pub receiving : Bool

pub record StreamDescriptor : Type 0 where
  pub content_type : Option Str
  pub total_len : Option ℕ

-- The `Inbound` that `open` makes, with its channel: a window of no chunk counts as one.
abbrev pub new_stream : StreamLimits → ℕ → Option BusName → StreamDescriptor → Inbound
new_stream limits now owner descriptor = record {
  owner = owner;
  content_type = descriptor.content_type;
  declared_len = descriptor.total_len;
  next_seq = 0;
  received = 0;
  writable = true;
  unclaimed = true;
  outcome = none;
  aborted = false;
  last_activity = now;
  parked = none;
  queue = [];
  window = if limits.window_chunks == 0 then 1 else limits.window_chunks;
  receiving = true;
}

-- `Inbound::finish`: the first verdict is kept.
unfoldable pub finish : Inbound → Outcome → Inbound
finish s verdict = elim s.outcome [
  | some first ↦ s
  | none ↦ elim verdict [
    | Outcome.complete ↦ record s { outcome = some Outcome.complete }
    | Outcome.aborted reason ↦ record s { outcome = some (Outcome.aborted reason); aborted = true }
  ]
]

abbrev pub seal : Inbound → Inbound
seal s = record s { writable = false }

abbrev pub touch : Inbound → ℕ → Inbound
touch s now = record s { last_activity = now }

-- `drop(stream.reader.lock().take())`: a reading half that nobody claimed goes away.
unfoldable pub drop_reader : Inbound → Inbound
drop_reader s = record s { unclaimed = false; receiving = s.receiving && not s.unclaimed }

-- What `kill` does to the stream itself.
unfoldable pub end_stream : Inbound → Str → Inbound
unfolding finish drop_reader
end_stream s reason = drop_reader (seal (finish s (Outcome.aborted reason)))

abbrev aborted_error : Str → Error
aborted_error reason = Error.stream_aborted reason

-- What a write comes to once it holds the gate: refused, the stream ended for it, or parked.
pub data Gated : Type 0 where
  refused : Error → Gated
  ended : Str → Error → Gated
  passed : Inbound → Gated

-- `received.load() + chunk.len()`
abbrev pub grown : Inbound → List ℕ → ℕ
grown s chunk = (s.received + length chunk) % u64_size

-- `write`, from the gate to the window.
unfoldable pub enter_gate : StreamLimits → Inbound → ℕ → ℕ → List ℕ → Gated
enter_gate limits s now seq chunk =
    if not s.writable
    then Gated.refused (aborted_error (txt "the stream is already closed"))
    else if seq != s.next_seq
    then Gated.ended (txt "the sender wrote chunks out of order")
        (Error.protocol (txt "stream chunk arrived out of order"))
    else if ltb limits.max_stream_len (grown s chunk)
        || is_some_and s.declared_len (λ total. ltb total (grown s chunk))
    then Gated.ended (txt "the sender exceeded the length it may write")
        (Error.stream_too_large limits.max_stream_len)
    else Gated.passed (record s {
      next_seq = (s.next_seq + 1) % u64_size;
      received = grown s chunk;
      last_activity = now;
      parked = some chunk;
    })

-- What the parked write comes to: still waiting, taken off by an abort or by a reader that is gone, or
-- delivered. An abort wins over room in the window.
pub data Delivered : Type 0 where
  waiting : Delivered
  cut_off : Inbound → Delivered
  unread : Inbound → Delivered
  delivered : Inbound → Delivered

unfoldable pub deliver : Inbound → ℕ → List ℕ → Delivered
deliver s now chunk =
    if s.aborted
    then Delivered.cut_off (record s { parked = none })
    else if not s.receiving
    then Delivered.unread (record s { parked = none })
    else if ltb (length s.queue) s.window
    then Delivered.delivered
        (record s { parked = none; queue = s.queue ++ (chunk ∷ []); last_activity = now })
    else Delivered.waiting

-- `close`, on the stream that `lookup` found.
unfoldable pub close_stream : Inbound → ℕ → ℕ → Inbound × Result (Unit {0})
unfolding finish
close_stream s now total_len =
    let touched = touch s now in
    if s.received != total_len
    then (
      seal (finish touched (Outcome.aborted (txt "the sender closed a truncated stream"))),
      err (
          Error.protocol (
            txt "stream closed after "
            ++ (decimal s.received ++ (txt " bytes, " ++ (decimal total_len ++ txt " declared"))))),
    )
    else (seal (finish touched Outcome.complete), ok tt)

-- `abort`, on the stream that was found.
unfoldable pub abort_stream : Inbound → ℕ → Inbound
unfolding finish
abort_stream s now =
    seal (touch (finish s (Outcome.aborted (txt "the sender aborted the stream"))) now)

-- `stream.reader.lock().take()` of `take_reader_inner`
unfoldable pub claim_reader : Inbound → Result Inbound
claim_reader s =
    if s.unclaimed
    then ok (record s { unclaimed = false })
    else err (aborted_error (txt "the stream is already being read"))

-- What the claimed reader sees: nothing yet, the next chunk, a clean end, or an error. The channel has
-- ended once it is sealed, empty, and no parked write still holds a sender.
pub data Reading : Type 0 where
  pending : Reading
  chunk : List ℕ → Inbound → Reading
  clean_end : Reading
  broken : Error → Reading

unfoldable pub next_chunk : Inbound → Reading
next_chunk s = elim s.queue [
  | c ∷ rest ↦ Reading.chunk c (record s { queue = rest })
  | [] ↦ if s.writable || is_some s.parked then Reading.pending else elim s.outcome [
    | some Outcome.complete ↦ Reading.clean_end
    | some (Outcome.aborted reason) ↦ Reading.broken (aborted_error reason)
    | none ↦ Reading.broken (aborted_error (txt "the connection closed mid-stream"))
  ]
]
