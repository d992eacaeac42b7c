-- ===== src/Stream/Registry/Reach.antt =====
-- The stream table of crates/tinybus/src/stream/mod.rs over its whole life: a step for each operation
-- that changes it, under limits that stay the same.
use tinybus.Prelude.{
  ℕ, ◌-◌, ◌*◌, ◌≤◌, ◌≡◌, refl, inl, inr, Bool, true, false, not, Option, none, some, [], arith, get,
  remove, ltb, nat_eq, ◌==◌, ◌!=◌, Bool-cases, Option-cases, list_eq, option_eq, if◌then◌else◌,
  length, is_some_and,
}
use tinybus.Text.{Str, txt}
use tinybus.Name.Types.{BusName, bus_name_eq}
use tinybus.Error.{Result-cases, ok}
use tinybus.Stream.Inbound.{
  max_chunk_len, StreamDescriptor, Inbound, finish, end_stream, close_stream, abort_stream,
  claim_reader,
}
use tinybus.Stream.Base64.{decode}
use tinybus.Stream.Registry.{
  StreamRegistry, stream_at, kill, lookup, open_stream, start_write, close, abort,
  take_reader_inner, take_reader_opened_by,
}
use tinybus.Stream.Registry.Quota.{
  count_owned, held, remove-IsSmaller, store-IsSmaller, end_stream-owner, IsWithinQuota,
  shrink-IsWithinQuota,
}
use tinybus.Stream.Registry.Cap.{open_stream-IsWithinQuota}

pub data Step : StreamRegistry → StreamRegistry → Type 0 where
  opens :
      (g : StreamRegistry) (now : ℕ) (sender : Option BusName) (d : StreamDescriptor)
      → Step g (open_stream g now sender d).0
  writes :
      (g : StreamRegistry) (sender : Option BusName) (id text : Str)
      → Step g (start_write g sender id text).0
  closes :
      (g : StreamRegistry) (now : ℕ) (sender : Option BusName) (id : Str) (total_len : ℕ)
      → Step g (close g now sender id total_len).0
  aborts :
      (g : StreamRegistry) (now : ℕ) (sender : Option BusName) (id : Str)
      → Step g (abort g now sender id).0
  takes :
      (g : StreamRegistry) (id : Str) (expected_owner : Option (Option BusName))
      → Step g (take_reader_inner g id expected_owner).0
  takes_opened_by :
      (g : StreamRegistry) (id : Str) (opener : BusName)
      → Step g (take_reader_opened_by g id opener).0
  -- A write that is refused at the gate, or finds that its reader is gone.
  kills : (g : StreamRegistry) (id : Str) (a : ℕ) (reason : Str) → Step g (kill g id a reason)
  -- A write that goes through, and a reader, change the stream that they hold.
  changes :
      (g : StreamRegistry) (a : ℕ) (s : Inbound)
      → s.owner ≡ (g.heap a).owner
      → Step g (stream_at g a s)

pub data Steps : StreamRegistry → StreamRegistry → Type 0 where
  done : (g : StreamRegistry) → Steps g g
  then : (f g h : StreamRegistry) → Steps f g → Step g h → Steps f h

stream_at-IsWithinQuota :
    (g : StreamRegistry) (a : ℕ) (s : Inbound)
    → s.owner ≡ (g.heap a).owner
    → IsWithinQuota g
    → IsWithinQuota (stream_at g a s)
stream_at-IsWithinQuota g a s e q =
    shrink-IsWithinQuota g (stream_at g a s) refl refl
      (store-IsSmaller g.fresh g.heap g.inbound a s e) q

remove-IsWithinQuota :
    (g : StreamRegistry) (id : Str)
    → IsWithinQuota g
    → IsWithinQuota (record g { inbound = remove g.inbound id })
remove-IsWithinQuota g id q =
    shrink-IsWithinQuota g (record g { inbound = remove g.inbound id }) refl refl
      (remove-IsSmaller g.fresh g.heap g.inbound id) q

sweep-IsWithinQuota :
    (g : StreamRegistry) (id : Str) (gone : Bool)
    → IsWithinQuota g
    → IsWithinQuota (if gone then record g { inbound = remove g.inbound id } else g)
sweep-IsWithinQuota g id true q = remove-IsWithinQuota g id q
sweep-IsWithinQuota g id false q = q

kill-IsWithinQuota :
    (g : StreamRegistry) (id : Str) (a : ℕ) (reason : Str)
    → IsWithinQuota g
    → IsWithinQuota (kill g id a reason)
unfolding kill
kill-IsWithinQuota g id a reason q =
    let removed = record g { inbound = remove g.inbound id } in
    stream_at-IsWithinQuota removed a (end_stream (g.heap a) reason)
      (end_stream-owner (g.heap a) reason) (remove-IsWithinQuota g id q)

start_write-IsWithinQuota :
    (g : StreamRegistry) (sender : Option BusName) (id text : Str)
    → IsWithinQuota g
    → IsWithinQuota (start_write g sender id text).0
unfolding start_write
start_write-IsWithinQuota g sender id text q = elim (Result-cases (lookup g id sender)) [
  | inl (e, he) ↦ rw (he, start_write) q
  | inr (a, ha) ↦ elim (Result-cases (decode text)) [
    | inl (e, he) ↦ rw (ha, he, start_write) q
    | inr (chunk, hc) ↦ elim (Bool-cases (ltb max_chunk_len (length chunk))) [
      | inl y ↦
          rw (ha, hc, y, start_write)
            (kill-IsWithinQuota g id a (txt "the sender exceeded the chunk cap") q)
      | inr n ↦ rw (ha, hc, n, start_write) q
    ]
  ]
]

close_stream-owner :
    (s : Inbound) (now total_len : ℕ) → (close_stream s now total_len).0.owner ≡ s.owner
unfolding close_stream finish
close_stream-owner s now total_len = ground arith

abort_stream-owner : (s : Inbound) (now : ℕ) → (abort_stream s now).owner ≡ s.owner
unfolding abort_stream finish
abort_stream-owner s now = ground arith

claim_reader-owner : (s s' : Inbound) → claim_reader s ≡ ok s' → s'.owner ≡ s.owner
unfolding claim_reader
claim_reader-owner s s' e = ground (arith, e)

close-IsWithinQuota :
    (g : StreamRegistry) (now : ℕ) (sender : Option BusName) (id : Str) (total_len : ℕ)
    → IsWithinQuota g
    → IsWithinQuota (close g now sender id total_len).0
unfolding close
close-IsWithinQuota g now sender id total_len q = elim (Result-cases (lookup g id sender)) [
  | inl (e, he) ↦ rw (he, close) q
  | inr (a, ha) ↦
      rw (ha, close) (stream_at-IsWithinQuota g a _ (close_stream-owner (g.heap a) now total_len) q)
]

abort-IsWithinQuota :
    (g : StreamRegistry) (now : ℕ) (sender : Option BusName) (id : Str)
    → IsWithinQuota g
    → IsWithinQuota (abort g now sender id).0
unfolding abort
abort-IsWithinQuota g now sender id q = elim (Option-cases (get g.inbound id)) [
  | inl e ↦ rw (e, abort) q
  | inr (a, e) ↦
      let s = abort_stream (g.heap a) now in
      let ended = stream_at-IsWithinQuota g a s (abort_stream-owner (g.heap a) now) q in
      elim (Bool-cases ((g.heap a).owner == sender)) [
        | inr n ↦ rw (e, n, abort) q
        | inl y ↦
            rw (e, y, abort) (sweep-IsWithinQuota (stream_at g a s) id (not s.unclaimed) ended)
      ]
]

-- What is left of the table when a reader is asked for: the entry of a sealed stream goes.
take_reader_inner-IsWithinQuota :
    (g : StreamRegistry) (id : Str) (expected_owner : Option (Option BusName))
    → IsWithinQuota g
    → IsWithinQuota (take_reader_inner g id expected_owner).0
unfolding take_reader_inner
take_reader_inner-IsWithinQuota g id expected q = elim (Option-cases (get g.inbound id)) [
  | inl e ↦ rw (e, take_reader_inner) q
  | inr (a, e) ↦ elim (Bool-cases (is_some_and expected (λ owner. (g.heap a).owner != owner))) [
    | inl y ↦ rw (e, y, take_reader_inner) q
    | inr n ↦ elim (Result-cases (claim_reader (g.heap a))) [
      | inl (refusal, he) ↦ elim (Bool-cases (g.heap a).writable) [
        | inl w ↦ rw (e, n, he, w, take_reader_inner) q
        | inr w ↦ rw (e, n, he, w, take_reader_inner) (remove-IsWithinQuota g id q)
      ]
      | inr (s, hs) ↦
          let same = claim_reader-owner (g.heap a) s hs in
          elim (Bool-cases (g.heap a).writable) [
            | inl w ↦ rw (e, n, hs, w, take_reader_inner) (stream_at-IsWithinQuota g a s same q)
            | inr w ↦
                rw (e, n, hs, w, take_reader_inner)
                  (stream_at-IsWithinQuota (record g { inbound = remove g.inbound id }) a s same
                    (remove-IsWithinQuota g id q))
          ]
    ]
  ]
]

take_reader_opened_by-IsWithinQuota :
    (g : StreamRegistry) (id : Str) (opener : BusName)
    → IsWithinQuota g
    → IsWithinQuota (take_reader_opened_by g id opener).0
unfolding take_reader_opened_by
take_reader_opened_by-IsWithinQuota g id opener q =
    elim (Bool-cases (is_some_and (get g.inbound id) (λ a. (g.heap a).owner == some opener))) [
      | inl y ↦ rw (y, take_reader_opened_by) (take_reader_inner-IsWithinQuota g id none q)
      | inr n ↦ rw (n, take_reader_opened_by) q
    ]

Step-IsWithinQuota : {g h : StreamRegistry} → Step g h → IsWithinQuota g → IsWithinQuota h
Step-IsWithinQuota (Step.opens g now sender d) q = open_stream-IsWithinQuota g now sender d q
Step-IsWithinQuota (Step.writes g sender id text) q = start_write-IsWithinQuota g sender id text q
Step-IsWithinQuota (Step.closes g now sender id total_len) q =
    close-IsWithinQuota g now sender id total_len q
Step-IsWithinQuota (Step.aborts g now sender id) q = abort-IsWithinQuota g now sender id q
Step-IsWithinQuota (Step.takes g id expected) q = take_reader_inner-IsWithinQuota g id expected q
Step-IsWithinQuota (Step.takes_opened_by g id opener) q =
    take_reader_opened_by-IsWithinQuota g id opener q
Step-IsWithinQuota (Step.kills g id a reason) q = kill-IsWithinQuota g id a reason q
Step-IsWithinQuota (Step.changes g a s e) q = stream_at-IsWithinQuota g a s e q

Steps-IsWithinQuota : {g h : StreamRegistry} → Steps g h → IsWithinQuota g → IsWithinQuota h
Steps-IsWithinQuota (Steps.done g) q = q
Steps-IsWithinQuota (Steps.then f g h before last) q =
    Step-IsWithinQuota last (Steps-IsWithinQuota before q)

empty-IsWithinQuota : (g : StreamRegistry) → g.inbound ≡ [] → IsWithinQuota g
unfolding count_owned
empty-IsWithinQuota g e = record {
  distinct = rw e tt;
  below = rw e tt;
  quota = λ owner. ground (arith, e);
}

module _ {g h : StreamRegistry} where
  -- Whatever calls, kills and reads follow on a table without streams, no peer ever holds more than
  -- twice the cap of streams less one, those that it writes and those that it has sealed together,
  -- while the limits stay the same.
  pub Steps-held :
      Steps g h
      → g.inbound ≡ []
      → (owner : Option BusName) → held h owner ≤ 2 * h.limits.max_streams_per_peer - 1
  Steps-held run e owner = (Steps-IsWithinQuota run (empty-IsWithinQuota g e)).quota owner
