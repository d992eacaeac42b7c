-- ===== src/Stream/Inbound/Kept.antt =====
-- What each step of one stream of crates/tinybus/src/stream/mod.rs keeps.
use tinybus.Prelude.{
  ℕ, ◌≤◌, ◌≡◌, refl, inl, inr, true, false, Option, none, some, List, arith, nat_eq, ltb,
  is_some_and,
}
use tinybus.Text.{Str, txt}
use tinybus.Error.{ok}
use tinybus.Stream.Inbound.{
  StreamLimits, Outcome, Inbound, finish, drop_reader, end_stream, Gated, grown, enter_gate,
  Delivered, deliver, close_stream, abort_stream, claim_reader, next_chunk,
}
use tinybus.Stream.Inbound.Delivery.{
  Run, with_stream, Step, Steps, IsFaithful, HasRoom, end_stream-IsFaithful, freed-IsFaithful,
  passed-IsFaithful, delivered-IsFaithful, read-IsFaithful,
}

-- The bytes counted stay within the cap and the declared length.
abbrev pub IsWithin : Option ℕ → ℕ → Type 0
IsWithin none n = Unit
IsWithin (some total) n = n ≤ total

pub record IsBounded (limits : StreamLimits) (s : Inbound) : Type 0 where
  pub capped : s.received ≤ limits.max_stream_len
  pub declared : IsWithin s.declared_len s.received

module _ (limits : StreamLimits) where
  IsWithin-test :
      (d : Option ℕ) (n : ℕ) → is_some_and d (λ total. ltb total n) ≡ false → IsWithin d n
  IsWithin-test none n h = tt
  IsWithin-test (some total) n h = ground arith

  same-IsBounded :
      (s s' : Inbound)
      → s'.received ≡ s.received
      → s'.declared_len ≡ s.declared_len
      → IsBounded limits s
      → IsBounded limits s'
  same-IsBounded s s' e d b = record { capped = rw e (b.capped); declared = rw (e, d) (b.declared) }

  passed-IsBounded :
      (s s' : Inbound) (now seq : ℕ) (chunk : List ℕ)
      → enter_gate limits s now seq chunk ≡ Gated.passed s'
      → IsBounded limits s'
  unfolding enter_gate
  passed-IsBounded s s' now seq chunk e = record {
    capped = ground (arith, e);
    declared = ground (arith, e, IsWithin-test s.declared_len (grown s chunk));
  }

  pub Step-IsBounded :
      {t u : Run} → Step limits t u → IsBounded limits t.stream → IsBounded limits u.stream
  unfolding finish drop_reader end_stream deliver close_stream abort_stream claim_reader next_chunk
  Step-IsBounded (Step.passed t now seq chunk s fits free e) b =
      passed-IsBounded t.stream s now seq chunk e
  Step-IsBounded (Step.ended t reason) b = same-IsBounded t.stream _ (ground arith) (ground arith) b
  Step-IsBounded (Step.delivered t now chunk s parked e) b =
      same-IsBounded t.stream s (ground (arith, e)) (ground (arith, e)) b
  Step-IsBounded (Step.cut_off t now chunk s parked e) b =
      same-IsBounded t.stream s (ground (arith, e)) (ground (arith, e)) b
  Step-IsBounded (Step.unread t now chunk s parked e) b =
      same-IsBounded t.stream _ (ground (arith, e)) (ground (arith, e)) b
  Step-IsBounded (Step.closed t now total_len) b =
      same-IsBounded t.stream _ (ground arith) (ground arith) b
  Step-IsBounded (Step.aborted t now) b = same-IsBounded t.stream _ (ground arith) (ground arith) b
  Step-IsBounded (Step.evicted t reason h) b =
      same-IsBounded t.stream _ (ground arith) (ground arith) b
  Step-IsBounded (Step.claimed t s e) b =
      same-IsBounded t.stream s (ground (arith, e)) (ground (arith, e)) b
  Step-IsBounded (Step.read t chunk s live e) b =
      same-IsBounded t.stream s (ground (arith, e)) (ground (arith, e)) b
  Step-IsBounded (Step.left t) b = same-IsBounded t.stream _ refl refl b

  cut_off-why :
      (s s' : Inbound) (now : ℕ) (chunk : List ℕ)
      → deliver s now chunk ≡ Delivered.cut_off s'
      → (s.aborted ≡ true) × (s' ≡ record s { parked = none })
  unfolding deliver
  cut_off-why s s' now chunk e = ground (arith, e)

  unread-why :
      (s s' : Inbound) (now : ℕ) (chunk : List ℕ)
      → deliver s now chunk ≡ Delivered.unread s'
      → (s.receiving ≡ false) × (s' ≡ record s { parked = none })
  unfolding deliver
  unread-why s s' now chunk e = ground (arith, e)

  -- The writer that learns it was cut off changes nothing but its own parking.
  cut_off-IsFaithful :
      (t : Run) (s : Inbound) (now : ℕ) (chunk : List ℕ)
      → deliver t.stream now chunk ≡ Delivered.cut_off s
      → IsFaithful t
      → IsFaithful (with_stream t s)
  cut_off-IsFaithful t s now chunk e f =
      let why = cut_off-why t.stream s now chunk e in rw why.1 (freed-IsFaithful t (inl why.0) f)

  unread-IsFaithful :
      (t : Run) (s : Inbound) (now : ℕ) (chunk : List ℕ)
      → deliver t.stream now chunk ≡ Delivered.unread s
      → IsFaithful t
      → IsFaithful (with_stream t s)
  unread-IsFaithful t s now chunk e f =
      let why = unread-why t.stream s now chunk e in rw why.1 (freed-IsFaithful t (inr why.0) f)

  closed-IsFaithful :
      (t : Run) (now total_len : ℕ)
      → IsFaithful t
      → IsFaithful (with_stream t (close_stream t.stream now total_len).0)
  unfolding close_stream finish
  closed-IsFaithful t now total_len f = record {
    ordered = ground (arith, f.ordered);
    counted = ground (arith, f.counted);
    verdict = ground (arith, f.verdict);
    undecided = ground (arith, f.undecided);
    windowed = ground (arith, f.windowed);
  }

  aborted-IsFaithful :
      (t : Run) (now : ℕ) → IsFaithful t → IsFaithful (with_stream t (abort_stream t.stream now))
  unfolding abort_stream finish
  aborted-IsFaithful t now f = record {
    ordered = ground (arith, f.ordered);
    counted = ground (arith, f.counted);
    verdict = ground (arith, f.verdict);
    undecided = ground (arith, f.undecided);
    windowed = ground (arith, f.windowed);
  }

  evicted-IsFaithful :
      (t : Run) (reason : Str)
      → t.stream.writable ≡ false
      → IsFaithful t
      → IsFaithful (with_stream t (finish t.stream (Outcome.aborted reason)))
  unfolding finish
  evicted-IsFaithful t reason sealed f = record {
    ordered = ground (arith, f.ordered);
    counted = ground (arith, f.counted);
    verdict = ground (arith, f.verdict);
    undecided = ground (arith, f.undecided, sealed);
    windowed = ground (arith, f.windowed);
  }

  claimed-IsFaithful :
      (t : Run) (s : Inbound)
      → claim_reader t.stream ≡ ok s
      → IsFaithful t
      → IsFaithful (with_stream t s)
  unfolding claim_reader
  claimed-IsFaithful t s e f = record {
    ordered = ground (arith, f.ordered, e);
    counted = ground (arith, f.counted, e);
    verdict = ground (arith, f.verdict, e);
    undecided = ground (arith, f.undecided, e);
    windowed = ground (arith, f.windowed, e);
  }

  left-IsFaithful :
      (t : Run)
      → IsFaithful t
      → IsFaithful (with_stream t (record (t.stream) { receiving = false }))
  left-IsFaithful t f = record {
    ordered = f.ordered;
    counted = inr (inr refl);
    verdict = f.verdict;
    undecided = f.undecided;
    windowed = f.windowed;
  }

module _ (limits : StreamLimits) (room : HasRoom limits) where
  pub Step-IsFaithful :
      {t u : Run} → Step limits t u → IsBounded limits t.stream → IsFaithful t → IsFaithful u
  Step-IsFaithful (Step.passed t now seq chunk s fits free e) b f =
      passed-IsFaithful limits t now seq chunk s (omega (arith, b.capped, fits, room)) free e f
  Step-IsFaithful (Step.ended t reason) b f = end_stream-IsFaithful t reason f
  Step-IsFaithful (Step.delivered t now chunk s parked e) b f =
      delivered-IsFaithful t now chunk s parked e f
  Step-IsFaithful (Step.cut_off t now chunk s parked e) b f =
      cut_off-IsFaithful limits t s now chunk e f
  Step-IsFaithful (Step.unread t now chunk s parked e) b f =
      end_stream-IsFaithful (with_stream t s) (txt "the receiver stopped reading")
        (unread-IsFaithful limits t s now chunk e f)
  Step-IsFaithful (Step.closed t now total_len) b f = closed-IsFaithful limits t now total_len f
  Step-IsFaithful (Step.aborted t now) b f = aborted-IsFaithful limits t now f
  Step-IsFaithful (Step.evicted t reason sealed) b f = evicted-IsFaithful limits t reason sealed f
  Step-IsFaithful (Step.claimed t s e) b f = claimed-IsFaithful limits t s e f
  Step-IsFaithful (Step.read t chunk s live e) b f = read-IsFaithful t chunk s e f
  Step-IsFaithful (Step.left t) b f = left-IsFaithful limits t f

  -- The stream behaves as a queue of the chunks whose writes were answered: from a bounded and
  -- faithful state, any steps keep the counted bytes within the cap and the declared length and the
  -- queue within its window, and lead to a state in which the reader has seen the answered chunks
  -- in order up to those still queued, every counted byte is answered or waiting unless the stream
  -- was aborted or its reader is gone, and a verdict stands only on a sealed stream; the cap leaves
  -- the 64-bit counter room for a chunk.
  pub Steps-IsFaithful :
      {t u : Run}
      → Steps limits t u
      → IsBounded limits t.stream
      → IsFaithful t
      → IsBounded limits u.stream × IsFaithful u
  Steps-IsFaithful (Steps.done t) b f = (b, f)
  Steps-IsFaithful (Steps.then t u v run step) b f =
      let before = Steps-IsFaithful run b f in
      (Step-IsBounded limits step before.0, Step-IsFaithful step before.0 before.1)
