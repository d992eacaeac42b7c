-- ===== src/Stream/Inbound/Clean.antt =====
-- What the reader of a stream of crates/tinybus/src/stream/mod.rs may conclude from a clean end.
use tinybus.Prelude.{
  ◌≡◌, sym, ap, ◌∙◌, true, false, none, some, [], ◌++◌, arith, nat_eq, append-nil,
}
use tinybus.Stream.Inbound.{StreamLimits, Outcome, Inbound, Reading, next_chunk}
use tinybus.Stream.Inbound.Delivery.{Run, Steps, size, IsFaithful, HasRoom}
use tinybus.Stream.Inbound.Kept.{IsBounded, Steps-IsFaithful}

-- A clean end is only seen with nothing left to see.
clean_end-why :
    (s : Inbound)
    → next_chunk s ≡ Reading.clean_end
    → (s.queue ≡ [])
      × (s.writable ≡ false)
      × (s.parked ≡ none)
      × (s.outcome ≡ some Outcome.complete)
unfolding next_chunk
clean_end-why s e = (ground (arith, e), ground (arith, e), ground (arith, e), ground (arith, e))

clean_end-IsFaithful :
    (u : Run)
    → IsFaithful u
    → u.stream.receiving ≡ true
    → next_chunk u.stream ≡ Reading.clean_end
    → (u.read ≡ u.written) × (size u.read ≡ u.stream.received)
clean_end-IsFaithful u f live e =
    let why = clean_end-why u.stream e in
    let whole : u.written ≡ u.read =
      f.ordered ∙ (ap (λ q. u.read ++ q) why.0 ∙ append-nil u.read) in
    let counted : size u.written ≡ u.stream.received =
      ground (arith, f.counted, f.verdict, why.2, why.3, live) in
    (sym whole, rw (sym whole) counted)

module _ (limits : StreamLimits) (room : HasRoom limits) where
  pub next_chunk-Steps_whole :
      {t u : Run}
      → IsBounded limits t.stream
      → IsFaithful t
      → Steps limits t u
      → u.stream.receiving ≡ true
      → next_chunk u.stream ≡ Reading.clean_end
      → (u.read ≡ u.written) × (size u.read ≡ u.stream.received)
  next_chunk-Steps_whole b f run live e =
      clean_end-IsFaithful _ (Steps-IsFaithful limits room run b f).1 live e
