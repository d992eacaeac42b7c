-- ===== src/Stream/Inbound/Delivery.antt =====
-- One stream of crates/tinybus/src/stream/mod.rs over its life, against the record of the chunks whose
-- writes were answered and of those that the reader has seen. A step is what runs between two awaits,
-- under limits that stay the same.
use tinybus.Prelude.{
  ℕ, ◌+◌, ◌≤◌, ◌<◌, ◌≡◌, ◌⊎◌, inr, Bool, true, false, not, ◌&&◌, Option, none, some, List, [], ◌∷◌,
  ◌++◌, arith, nat_eq, length, length-append, append_assoc, is_some,
}
use tinybus.Text.{Str, txt}
use tinybus.Text.Decimal.{u64_size}
use tinybus.Error.{ok}
use tinybus.Stream.Inbound.{
  max_chunk_len, StreamLimits, Outcome, Inbound, finish, seal, drop_reader, end_stream, Gated,
  enter_gate, Delivered, deliver, close_stream, abort_stream, claim_reader, Reading, next_chunk,
}

pub record Run : Type 0 where
  pub stream : Inbound
  pub written : List (List ℕ)
  pub read : List (List ℕ)

abbrev pub with_stream : Run → Inbound → Run
with_stream t s = record t { stream = s }

pub data Step (limits : StreamLimits) : Run → Run → Type 0 where
  passed :
      (t : Run) (now seq : ℕ) (chunk : List ℕ) (s : Inbound)
      → length chunk ≤ max_chunk_len
      → t.stream.parked ≡ none
      → enter_gate limits t.stream now seq chunk ≡ Gated.passed s
      → Step limits t (with_stream t s)
  -- A write beyond a cap or out of order, and a stream that went idle.
  ended : (t : Run) (reason : Str) → Step limits t (with_stream t (end_stream t.stream reason))
  delivered :
      (t : Run) (now : ℕ) (chunk : List ℕ) (s : Inbound)
      → t.stream.parked ≡ some chunk
      → deliver t.stream now chunk ≡ Delivered.delivered s
      → Step limits t (record t { stream = s; written = t.written ++ (chunk ∷ []) })
  cut_off :
      (t : Run) (now : ℕ) (chunk : List ℕ) (s : Inbound)
      → t.stream.parked ≡ some chunk
      → deliver t.stream now chunk ≡ Delivered.cut_off s
      → Step limits t (with_stream t s)
  unread :
      (t : Run) (now : ℕ) (chunk : List ℕ) (s : Inbound)
      → t.stream.parked ≡ some chunk
      → deliver t.stream now chunk ≡ Delivered.unread s
      → Step limits t (with_stream t (end_stream s (txt "the receiver stopped reading")))
  closed :
      (t : Run) (now total_len : ℕ)
      → Step limits t (with_stream t (close_stream t.stream now total_len).0)
  aborted : (t : Run) (now : ℕ) → Step limits t (with_stream t (abort_stream t.stream now))
  -- A sealed stream that makes room for a new one.
  evicted :
      (t : Run) (reason : Str)
      → t.stream.writable ≡ false
      → Step limits t (with_stream t (finish t.stream (Outcome.aborted reason)))
  claimed : (t : Run) (s : Inbound) → claim_reader t.stream ≡ ok s → Step limits t (with_stream t s)
  read :
      (t : Run) (chunk : List ℕ) (s : Inbound)
      → t.stream.receiving ≡ true
      → next_chunk t.stream ≡ Reading.chunk chunk s
      → Step limits t (record t { stream = s; read = t.read ++ (chunk ∷ []) })
  -- The claimed reader is dropped.
  left : (t : Run) → Step limits t (with_stream t (record (t.stream) { receiving = false }))

pub data Steps (limits : StreamLimits) : Run → Run → Type 0 where
  done : (t : Run) → Steps limits t t
  then : (t u v : Run) → Steps limits t u → Step limits u v → Steps limits t v

-- The bytes of some chunks, and of the chunk that is parked.
abbrev pub size : List (List ℕ) → ℕ
size [] = 0
size (c ∷ cs) = length c + size cs

abbrev pub parked_len : Option (List ℕ) → ℕ
parked_len none = 0
parked_len (some c) = length c

abbrev pub is_aborted : Option Outcome → Bool
is_aborted (some (Outcome.aborted reason)) = true
is_aborted _ = false

-- The reader sees the answered chunks in their order, from the first; every counted byte is answered
-- or parked, unless the stream was aborted or its reader is gone; and the verdict is given once.
pub record IsFaithful (t : Run) : Type 0 where
  pub ordered : t.written ≡ t.read ++ t.stream.queue
  pub counted :
      (size t.written + parked_len t.stream.parked ≡ t.stream.received)
      ⊎ ((t.stream.aborted ≡ true) ⊎ (t.stream.receiving ≡ false))
  pub verdict : (t.stream.aborted && not (is_aborted t.stream.outcome)) ≡ false
  pub undecided : (t.stream.writable && is_some t.stream.outcome) ≡ false
  pub windowed : length t.stream.queue ≤ t.stream.window

pub size-append : (cs ds : List (List ℕ)) → size (cs ++ ds) ≡ size cs + size ds
size-append [] ds = omega arith
size-append (c ∷ cs) ds = omega (arith, size-append cs ds)

-- What a step that gives a verdict and seals the stream keeps.
pub finished-IsFaithful :
    (t : Run) (verdict : Outcome)
    → IsFaithful t
    → IsFaithful (with_stream t (seal (finish t.stream verdict)))
unfolding finish
finished-IsFaithful t verdict f = record {
  ordered = ground (arith, f.ordered);
  counted = ground (arith, f.counted);
  verdict = ground (arith, f.verdict);
  undecided = ground arith;
  windowed = ground (arith, f.windowed);
}

pub dropped-IsFaithful :
    (t : Run) → IsFaithful t → IsFaithful (with_stream t (drop_reader t.stream))
unfolding drop_reader
dropped-IsFaithful t f = record {
  ordered = f.ordered;
  counted = ground (arith, f.counted);
  verdict = f.verdict;
  undecided = f.undecided;
  windowed = f.windowed;
}

pub end_stream-IsFaithful :
    (t : Run) (reason : Str)
    → IsFaithful t
    → IsFaithful (with_stream t (end_stream t.stream reason))
unfolding end_stream
end_stream-IsFaithful t reason f =
    dropped-IsFaithful (with_stream t (seal (finish t.stream (Outcome.aborted reason))))
      (finished-IsFaithful t (Outcome.aborted reason) f)

-- The parked write is taken off a stream that is aborted or has no reader.
pub freed-IsFaithful :
    (t : Run)
    → (t.stream.aborted ≡ true) ⊎ (t.stream.receiving ≡ false)
    → IsFaithful t
    → IsFaithful (with_stream t (record (t.stream) { parked = none }))
freed-IsFaithful t why f = record {
  ordered = f.ordered;
  counted = inr why;
  verdict = f.verdict;
  undecided = f.undecided;
  windowed = f.windowed;
}

-- `received` does not wrap around.
abbrev pub HasRoom : StreamLimits → Type 0
HasRoom limits = limits.max_stream_len + max_chunk_len < u64_size

pub passed-IsFaithful :
    (limits : StreamLimits) (t : Run) (now seq : ℕ) (chunk : List ℕ) (s : Inbound)
    → t.stream.received + length chunk < u64_size
    → t.stream.parked ≡ none
    → enter_gate limits t.stream now seq chunk ≡ Gated.passed s
    → IsFaithful t
    → IsFaithful (with_stream t s)
unfolding enter_gate
passed-IsFaithful limits t now seq chunk s room free e f = record {
  ordered = ground (arith, f.ordered, e);
  counted = ground (arith, f.counted, e, free, room);
  verdict = ground (arith, f.verdict, e);
  undecided = ground (arith, f.undecided, e);
  windowed = ground (arith, f.windowed, e);
}

pub delivered-IsFaithful :
    (t : Run) (now : ℕ) (chunk : List ℕ) (s : Inbound)
    → t.stream.parked ≡ some chunk
    → deliver t.stream now chunk ≡ Delivered.delivered s
    → IsFaithful t
    → IsFaithful (record t { stream = s; written = t.written ++ (chunk ∷ []) })
unfolding deliver
delivered-IsFaithful t now chunk s parked e f = record {
  ordered = ground (arith, f.ordered, e, append_assoc t.read t.stream.queue (chunk ∷ []));
  counted = ground (arith, f.counted, e, parked, size-append t.written (chunk ∷ []));
  verdict = ground (arith, f.verdict, e);
  undecided = ground (arith, f.undecided, e);
  windowed = ground (arith, f.windowed, e, length-append t.stream.queue (chunk ∷ []));
}

pub read-IsFaithful :
    (t : Run) (chunk : List ℕ) (s : Inbound)
    → next_chunk t.stream ≡ Reading.chunk chunk s
    → IsFaithful t
    → IsFaithful (record t { stream = s; read = t.read ++ (chunk ∷ []) })
unfolding next_chunk
read-IsFaithful t chunk s e f = record {
  ordered = ground (arith, f.ordered, e, append_assoc t.read (chunk ∷ []) s.queue);
  counted = ground (arith, f.counted, e);
  verdict = ground (arith, f.verdict, e);
  undecided = ground (arith, f.undecided, e);
  windowed = ground (arith, f.windowed, e);
}
