-- ===== src/Stream/Registry.antt =====
-- `StreamRegistry` of crates/tinybus/src/stream/mod.rs. An `Arc<Inbound>` is an address of `heap`,
-- so that a write that waits and a reader reach a stream that the table no longer lists. The body
-- of a call is a value of the parameter `Value`, and what `serde_json::from_value` makes of it is a
-- parameter too.
pub mod Oldest
pub mod Quota
pub mod Cap
pub mod Reach
pub mod Owner
pub mod Tests
use mathlib.Core.Option
use tinybus.Prelude.{
  ℕ, zero, suc, ◌+◌, ◌-◌, ◌%◌, ◌≡◌, Bool, true, false, not, ◌&&◌, ◌||◌, ◌⊎◌, inl, inr, Option, none,
  some, List, [], ◌∷◌, ◌++◌, map, Map, get, insert, remove, ltb, leb, nat_eq, ◌==◌, ◌!=◌, list_eq,
  option_eq, if◌then◌else◌, length, take, filter, is_some_and,
}
use tinybus.Text.{Str, txt}
use tinybus.Text.Decimal.{u64_size, decimal}
use tinybus.Name.Types.{BusName, MemberName, bus_name_eq, interface_name_eq, object_path_eq}
use tinybus.Error.{Error, Result, ok, err, ◌>>=◌, ok_or}
use tinybus.Error.Redact.{bad_arguments}
use tinybus.Message.Types.{Header, JsonText}
use tinybus.Stream.Base64.{decode}
use tinybus.Stream.Inbound.{
  max_chunk_len, StreamLimits, default_limits, StreamDescriptor, new_stream, Outcome, Inbound,
  finish, end_stream, close_stream, abort_stream, claim_reader,
}

pub record StreamRegistry : Type 0 where
  pub limits : StreamLimits
  pub inbound : Map Str ℕ
  pub next_id : ℕ
  pub heap : ℕ → Inbound
  pub fresh : ℕ

-- `StreamRegistry::new`
abbrev pub new_registry : (ℕ → Inbound) → StreamRegistry
new_registry heap = record {
  limits = default_limits;
  inbound = [];
  next_id = 1;
  heap = heap;
  fresh = 0;
}

abbrev pub store : (ℕ → Inbound) → ℕ → Inbound → ℕ → Inbound
store heap a s = λ b. if b == a then s else heap b

abbrev pub stream_at : StreamRegistry → ℕ → Inbound → StreamRegistry
stream_at g a s = record g { heap = store g.heap a s }

abbrev pub set_limits : StreamRegistry → StreamLimits → StreamRegistry
set_limits g limits = record g { limits = limits }

unfoldable pub handles : Header → Bool
handles header =
    is_some_and header.interface (λ i. i.text == txt "ai.tinyhumans.tinybus.Stream")
    && is_some_and header.path (λ p. p.text == txt "/ai/tinyhumans/tinybus/Stream")

-- `streams.retain(…)` of `open`
unfoldable pub reap : StreamLimits → ℕ → Map Str ℕ → (ℕ → Inbound) → Map Str ℕ × (ℕ → Inbound)
unfolding end_stream
reap limits now [] heap = ([], heap)
reap limits now ((id, a) ∷ streams) heap =
    let live = ltb (now - (heap a).last_activity) limits.idle_timeout in
    let after =
      if live
      then heap
      else store heap a (end_stream (heap a) (txt "the stream went idle and was reaped")) in
    let (kept, final) = reap limits now streams after in
    (if live then (id, a) ∷ kept else kept, final)

-- The streams of one peer, those it still writes to and those it has sealed.
abbrev pub owns : (ℕ → Inbound) → Option BusName → Str × ℕ → Bool
owns heap owner (id, a) = (heap a).owner == owner

abbrev pub is_live : (ℕ → Inbound) → Str × ℕ → Bool
is_live heap (id, a) = (heap a).writable

-- `sort_by_key`, which is stable
unfoldable pub insert_by : (Str × ℕ → ℕ) → Str × ℕ → List (Str × ℕ) → List (Str × ℕ)
insert_by key x [] = x ∷ []
insert_by key x (y ∷ ys) =
    let rest = insert_by key x ys in if leb (key x) (key y) then x ∷ y ∷ ys else y ∷ rest

unfoldable pub sort_by_key : (Str × ℕ → ℕ) → List (Str × ℕ) → List (Str × ℕ)
unfolding insert_by
sort_by_key key [] = []
sort_by_key key (x ∷ xs) = insert_by key x (sort_by_key key xs)

-- The loop that removes the oldest sealed streams.
unfoldable pub evict : List (Str × ℕ) → Map Str ℕ → (ℕ → Inbound) → Map Str ℕ × (ℕ → Inbound)
unfolding finish
evict [] streams heap = (streams, heap)
evict ((id, at) ∷ rest) streams heap = elim (get streams id) [
  | some a ↦ evict rest (remove streams id) (
      store heap a
        (finish (heap a) (Outcome.aborted (txt "the receiver never collected the stream"))))
  | none ↦ evict rest streams heap
]

-- `kill`
unfoldable pub kill : StreamRegistry → Str → ℕ → Str → StreamRegistry
unfolding end_stream
kill g id a reason = record g {
  inbound = remove g.inbound id;
  heap = store g.heap a (end_stream (g.heap a) reason);
}

unfoldable pub lookup : StreamRegistry → Str → Option BusName → Result ℕ
lookup g id sender = ok_or (get g.inbound id) (Error.unknown_stream id) >>= λ a.
    if (g.heap a).owner != sender then err (Error.unknown_stream id) else ok a

abbrev pub live_of : (ℕ → Inbound) → Option BusName → Map Str ℕ → Map Str ℕ
live_of heap sender streams = filter (is_live heap) (filter (owns heap sender) streams)

abbrev pub sealed_of : (ℕ → Inbound) → Option BusName → Map Str ℕ → Map Str ℕ
sealed_of heap sender streams =
    filter (λ e. not (is_live heap e)) (filter (owns heap sender) streams)

-- The oldest of the sealed streams, as many as leave room for one more.
unfoldable pub doomed : ℕ → (ℕ → Inbound) → Map Str ℕ → Map Str ℕ
unfolding sort_by_key
doomed max heap sealed =
    if leb max (length sealed)
    then take (length sealed + 1 - max) (sort_by_key (λ (k, a). (heap a).last_activity) sealed)
    else []

-- `open`, once the body is parsed: the id that it minted, or the refusal.
unfoldable pub open_stream :
    StreamRegistry → ℕ → Option BusName → StreamDescriptor → StreamRegistry × Result Str
unfolding reap doomed evict
open_stream g now sender descriptor =
    let limits = g.limits in
    if is_some_and descriptor.total_len (λ total. ltb limits.max_stream_len total)
    then (g, err (Error.stream_too_large limits.max_stream_len))
    else let id = txt "s" ++ decimal g.next_id in
      let minted = (g.next_id + 1) % u64_size in
      let (streams, heap) = reap limits now g.inbound g.heap in
      if leb limits.max_streams_per_peer (length (live_of heap sender streams))
      then (
        record g { inbound = streams; heap = heap; next_id = minted },
        err (Error.too_many_streams limits.max_streams_per_peer),
      )
      else let oldest = doomed limits.max_streams_per_peer heap (sealed_of heap sender streams) in
        let (left, final) = evict oldest streams heap in
        (
          record g {
            inbound = insert left id g.fresh;
            heap = store final g.fresh (new_stream limits now sender descriptor);
            next_id = minted;
            fresh = g.fresh + 1;
          },
          ok id,
        )

-- `write` up to the gate: the address of the stream, and the chunk.
unfoldable pub start_write :
    StreamRegistry → Option BusName → Str → Str → StreamRegistry × Result (ℕ × List ℕ)
unfolding lookup kill
start_write g sender id text = elim (lookup g id sender) [
  | err e ↦ (g, err e)
  | ok a ↦ elim (decode text) [
    | err e ↦ (g, err e)
    | ok chunk ↦
        if ltb max_chunk_len (length chunk)
        then (
          kill g id a (txt "the sender exceeded the chunk cap"),
          err (
              Error.protocol (
                txt "chunk of "
                ++ (decimal (length chunk)
                    ++ (txt " bytes exceeds the " ++ (decimal max_chunk_len ++ txt "-byte cap"))))),
        )
        else (g, ok (a, chunk))
  ]
]

unfoldable pub close :
    StreamRegistry → ℕ → Option BusName → Str → ℕ → StreamRegistry × Result (Unit {0})
unfolding lookup close_stream
close g now sender id total_len = elim (lookup g id sender) [
  | err e ↦ (g, err e)
  | ok a ↦ let (s, answer) = close_stream (g.heap a) now total_len in (stream_at g a s, answer)
]

-- A claimed stream leaves the table; an unclaimed one stays, for its reader to see the end.
unfoldable pub abort :
    StreamRegistry → ℕ → Option BusName → Str → StreamRegistry × Result (Unit {0})
unfolding abort_stream
abort g now sender id = elim (get g.inbound id) [
  | none ↦ (g, err (Error.unknown_stream id))
  | some a ↦
      if (g.heap a).owner != sender
      then (g, err (Error.unknown_stream id))
      else let ended = abort_stream (g.heap a) now in
        let after = stream_at g a ended in
        (
          if not ended.unclaimed then record after { inbound = remove g.inbound id } else after,
          ok tt,
        )
]

-- A `StreamReader`: the stream stands for its channel and its verdict.
pub record StreamReader : Type 0 where
  pub stream : ℕ
  pub content_type : Option Str
  pub declared_len : Option ℕ
  pub idle_timeout : ℕ

unfoldable pub take_reader_inner :
    StreamRegistry → Str → Option (Option BusName) → StreamRegistry × Result StreamReader
unfolding claim_reader
take_reader_inner g id expected_owner = elim (get g.inbound id) [
  | none ↦ (g, err (Error.unknown_stream id))
  | some a ↦
      if is_some_and expected_owner (λ owner. (g.heap a).owner != owner)
      then (g, err (Error.protocol (txt "a streamed reply handle belongs to another peer")))
      else let after =
          if not (g.heap a).writable then record g { inbound = remove g.inbound id } else g in
        elim (claim_reader (g.heap a)) [
          | err e ↦ (after, err e)
          | ok s ↦ (
            stream_at after a s,
            ok (record {
              stream = a;
              content_type = s.content_type;
              declared_len = s.declared_len;
              idle_timeout = g.limits.idle_timeout;
            }),
          )
        ]
]

abbrev pub take_reader : StreamRegistry → Str → StreamRegistry × Result StreamReader
take_reader g id = take_reader_inner g id none

abbrev pub take_reader_from :
    StreamRegistry → Str → Option BusName → StreamRegistry × Result StreamReader
take_reader_from g id owner = take_reader_inner g id (some owner)

unfoldable pub take_reader_opened_by :
    StreamRegistry → Str → BusName → StreamRegistry × Result StreamReader
unfolding take_reader_inner
take_reader_opened_by g id opener =
    if is_some_and (get g.inbound id) (λ a. (g.heap a).owner == some opener)
    then take_reader g id
    else (g, err (Error.unknown_stream id))

-- What `serde_json::from_value` makes of the body of each call: the arguments, or an error's text.
pub record StreamArgs (Value : Type 0) : Type 0 where
  pub open_args : Value → Str ⊎ StreamDescriptor
  pub write_args : Value → Str ⊎ (Str × (ℕ × Str))
  pub close_args : Value → Str ⊎ (Str × ℕ)
  pub abort_args : Value → Str ⊎ Str

abbrev check_args {ℓ} : {A : Type ℓ} → MemberName → Str ⊎ A → Result A
check_args member (inl e) = err (bad_arguments member e)
check_args member (inr a) = ok a

-- A call is answered, or it is a write that goes on to the gate of its stream.
pub data Dispatched (Value : Type 0) : Type 0 where
  answered : Result Value → Dispatched Value
  writing : Str → ℕ → ℕ → List ℕ → Dispatched Value

module _ {Value : Type 0} (json : JsonText Value) (args : StreamArgs Value) where
  abbrev answer_null : StreamRegistry × Result (Unit {0}) → StreamRegistry × Dispatched Value
  answer_null (g, answer) = (g, Dispatched.answered (answer >>= λ done. ok json.null))

  abbrev dispatch_open :
      StreamRegistry → ℕ → Option BusName → MemberName → Value → StreamRegistry × Dispatched Value
  dispatch_open g now sender member body = elim (check_args member (args.open_args body)) [
    | err e ↦ (g, Dispatched.answered (err e))
    | ok descriptor ↦
        let (after, answer) = open_stream g now sender descriptor in
        (after, Dispatched.answered (answer >>= λ id. ok (json.string id)))
  ]

  abbrev dispatch_write :
      StreamRegistry → Option BusName → MemberName → Value → StreamRegistry × Dispatched Value
  dispatch_write g sender member body = elim (check_args member (args.write_args body)) [
    | err e ↦ (g, Dispatched.answered (err e))
    | ok (id, (seq, text)) ↦
        let (after, started) = start_write g sender id text in
        (
          after,
          elim started [
            | err e ↦ Dispatched.answered (err e)
            | ok (a, chunk) ↦ Dispatched.writing id a seq chunk
          ],
        )
  ]

  abbrev dispatch_close :
      StreamRegistry → ℕ → Option BusName → MemberName → Value → StreamRegistry × Dispatched Value
  dispatch_close g now sender member body = elim (check_args member (args.close_args body)) [
    | err e ↦ (g, Dispatched.answered (err e))
    | ok (id, total_len) ↦ answer_null (close g now sender id total_len)
  ]

  abbrev dispatch_abort :
      StreamRegistry → ℕ → Option BusName → MemberName → Value → StreamRegistry × Dispatched Value
  dispatch_abort g now sender member body = elim (check_args member (args.abort_args body)) [
    | err e ↦ (g, Dispatched.answered (err e))
    | ok id ↦ answer_null (abort g now sender id)
  ]

  -- The interface is present, since the call was recognised by `handles`; `none` is the panic.
  unfoldable pub dispatch :
      StreamRegistry → ℕ → Header → Value → Option (StreamRegistry × Dispatched Value)
  unfolding open_stream start_write close abort
  dispatch g now header body = elim header.member [
    | none ↦
        some (g, Dispatched.answered (err (Error.protocol (txt "stream call is missing a member"))))
    | some member ↦
        if member.text == txt "Open"
        then some (dispatch_open g now header.sender member body)
        else if member.text == txt "Write"
        then some (dispatch_write g header.sender member body)
        else if member.text == txt "Close"
        then some (dispatch_close g now header.sender member body)
        else if member.text == txt "Abort"
        then some (dispatch_abort g now header.sender member body)
        else Option.map
            (λ interface. (g, Dispatched.answered (err (Error.unknown_method interface member))))
            header.interface
  ]
