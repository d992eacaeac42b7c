-- ===== src/Stream/Registry/Owner.antt =====
-- Who may touch a stream of crates/tinybus/src/stream/mod.rs.
use tinybus.Prelude.{
  ℕ, ◌≡◌, ◌≢◌, refl, sym, ap, ◌∙◌, inl, inr, Bool, true, false, not, Option, some, ◌++◌, arith, get,
  remove, get-insert, get-remove, ltb, nat_eq, ◌==◌, eq_iff, eq_refl, Bool-cases, Option-cases,
  list_eq, option_eq, if◌then◌else◌, length, is_some_and,
}
use tinybus.Text.{Str, txt}
use tinybus.Text.Decimal.{decimal}
use tinybus.Name.Types.{BusName, bus_name_eq}
use tinybus.Error.{Error, Result-cases, ok, err}
use tinybus.Stream.Inbound.{
  max_chunk_len, StreamDescriptor, new_stream, Inbound, end_stream, abort_stream,
}
use tinybus.Stream.Base64.{decode}
use tinybus.Stream.Registry.{
  StreamRegistry, store, stream_at, kill, lookup, open_stream, start_write, close, abort,
  take_reader_opened_by,
}
use tinybus.Stream.Registry.Cap.{opened, evicted, open_stream-eq-ok}

-- No stream of that id belongs to the peer.
unfoldable pub is_foreign : StreamRegistry → Str → Option BusName → Bool
is_foreign g id sender = not (is_some_and (get g.inbound id) (λ a. (g.heap a).owner == sender))

lookup-foreign :
    (g : StreamRegistry) (id : Str) (sender : Option BusName)
    → is_foreign g id sender ≡ true
    → lookup g id sender ≡ err (Error.unknown_stream id)
unfolding lookup is_foreign
lookup-foreign g id sender h = ground (arith, h)

-- A peer that names a stream it does not own, present or not, gets the same answer, that the stream
-- is unknown, from a write, a close, an abort and a claim of its reader as the stream's opener, and
-- the table is left as it is.
pub calls-foreign :
    (g : StreamRegistry) (now : ℕ) (id text : Str) (total_len : ℕ) (peer : BusName)
    → is_foreign g id (some peer) ≡ true
    → (start_write g (some peer) id text ≡ (g, err (Error.unknown_stream id)))
      × (close g now (some peer) id total_len ≡ (g, err (Error.unknown_stream id)))
      × (abort g now (some peer) id ≡ (g, err (Error.unknown_stream id)))
      × (take_reader_opened_by g id peer ≡ (g, err (Error.unknown_stream id)))
unfolding start_write close abort take_reader_opened_by
calls-foreign g now id text total_len peer h =
    let e = lookup-foreign g id (some peer) h in
    (
      rw (e, start_write) refl,
      rw (e, close) refl,
      ground (arith, h, is_foreign),
      ground (arith, h, is_foreign),
    )

lookup-owner :
    (g : StreamRegistry) (id : Str) (sender : Option BusName) (a : ℕ)
    → lookup g id sender ≡ ok a
    → (get g.inbound id ≡ some a) × ((g.heap a).owner ≡ sender)
unfolding lookup
lookup-owner g id sender a h = elim (Option-cases (get g.inbound id)) [
  | inl e ↦ ground (arith, h, e)
  | inr (b, e) ↦ ground (arith, h, e, eq_iff (g.heap b).owner sender)
]

store-other :
    (g : StreamRegistry) (a b : ℕ) (s : Inbound) (sender : Option BusName)
    → (g.heap a).owner ≡ sender
    → (g.heap b).owner ≢ sender
    → store g.heap a s b ≡ g.heap b
store-other g a b s sender own other = elim (Bool-cases (b == a)) [
  | inl y ↦ ground (arith, y, own, other, eq_iff b a)
  | inr n ↦ rw n refl
]

-- A stream of another peer: its state is the same, and it is listed where it was.
pub record IsLeft (g g' : StreamRegistry) (b : ℕ) : Type 0 where
  pub state : g'.heap b ≡ g.heap b
  pub listed : (id : Str) → get g.inbound id ≡ some b → get g'.inbound id ≡ some b

same-IsLeft : (g : StreamRegistry) (b : ℕ) → IsLeft g g b
same-IsLeft g b = record { state = refl; listed = λ id h. h }

remove-other :
    (g : StreamRegistry) (id : Str) (a b : ℕ) (sender : Option BusName)
    → get g.inbound id ≡ some a
    → (g.heap a).owner ≡ sender
    → (g.heap b).owner ≢ sender
    → (i : Str) → get g.inbound i ≡ some b
    → get (remove g.inbound id) i ≡ some b
remove-other g id a b sender here own other i there = elim (Bool-cases (id == i)) [
  | inr n ↦ ground (arith, get-remove g.inbound id i, n, there)
  | inl y ↦
      let same : some a ≡ some b = sym here ∙ (ap (get g.inbound) ((eq_iff id i).0 y) ∙ there) in
      absurd (other (ground (arith, same, own)))
]

start_write-IsLeft :
    (g : StreamRegistry) (id text : Str) (sender : Option BusName) (b : ℕ)
    → (g.heap b).owner ≢ sender
    → IsLeft g (start_write g sender id text).0 b
unfolding start_write kill
start_write-IsLeft g id text sender b other = elim (Result-cases (lookup g id sender)) [
  | inl (e, he) ↦ rw (he, start_write) (same-IsLeft g b)
  | inr (a, ha) ↦ elim (Result-cases (decode text)) [
    | inl (e, he) ↦ rw (ha, he, start_write) (same-IsLeft g b)
    | inr (chunk, hc) ↦ elim (Bool-cases (ltb max_chunk_len (length chunk))) [
      | inl y ↦
          let s = end_stream (g.heap a) (txt "the sender exceeded the chunk cap") in
          let (here, own) = lookup-owner g id sender a ha in
          rw (ha, hc, y, start_write)
            (record {
              state = store-other g a b s sender own other;
              listed = remove-other g id a b sender here own other;
            })
      | inr n ↦ rw (ha, hc, n, start_write) (same-IsLeft g b)
    ]
  ]
]

close-IsLeft :
    (g : StreamRegistry) (now : ℕ) (id : Str) (total_len : ℕ) (sender : Option BusName) (b : ℕ)
    → (g.heap b).owner ≢ sender
    → IsLeft g (close g now sender id total_len).0 b
unfolding close
close-IsLeft g now id total_len sender b other = elim (Result-cases (lookup g id sender)) [
  | inl (e, he) ↦ rw (he, close) (same-IsLeft g b)
  | inr (a, ha) ↦
      rw (ha, close)
        (record {
          state = store-other g a b _ sender (lookup-owner g id sender a ha).1 other;
          listed = λ i h. h;
        })
]

sweep-IsLeft :
    (g : StreamRegistry) (b : ℕ) (after : StreamRegistry) (id : Str) (gone : Bool)
    → IsLeft g after b
    → ((i : Str) → get g.inbound i ≡ some b → get (remove g.inbound id) i ≡ some b)
    → IsLeft g (if gone then record after { inbound = remove g.inbound id } else after) b
sweep-IsLeft g b after id true h kept = record { state = h.state; listed = kept }
sweep-IsLeft g b after id false h kept = h

abort-IsLeft :
    (g : StreamRegistry) (now : ℕ) (id : Str) (sender : Option BusName) (b : ℕ)
    → (g.heap b).owner ≢ sender
    → IsLeft g (abort g now sender id).0 b
unfolding abort
abort-IsLeft g now id sender b other = elim (Option-cases (get g.inbound id)) [
  | inl e ↦ rw (e, abort) (same-IsLeft g b)
  | inr (a, e) ↦
      let s = abort_stream (g.heap a) now in
      elim (Bool-cases ((g.heap a).owner == sender)) [
        | inr n ↦ rw (e, n, abort) (same-IsLeft g b)
        | inl y ↦
            let own = (eq_iff (g.heap a).owner sender).0 y in
            rw (e, y, abort)
              (sweep-IsLeft g b (stream_at g a s) id (not s.unclaimed)
                (record { state = store-other g a b s sender own other; listed = λ i h. h })
                (remove-other g id a b sender e own other))
      ]
]

-- A write up to the gate of its stream, a close or an abort leaves every stream of another peer as
-- it was: its state is the same, and it is listed under each id under which it was.
pub calls-isolated :
    (g : StreamRegistry) (now : ℕ) (id text : Str) (total_len : ℕ) (sender : Option BusName) (b : ℕ)
    → (g.heap b).owner ≢ sender
    → IsLeft g (start_write g sender id text).0 b
      × IsLeft g (close g now sender id total_len).0 b
      × IsLeft g (abort g now sender id).0 b
calls-isolated g now id text total_len sender b other = (
  start_write-IsLeft g id text sender b other,
  close-IsLeft g now id total_len sender b other,
  abort-IsLeft g now id sender b other,
)

-- A successful open answers with the next id, under which the peer that opened it, and no other,
-- finds the new stream.
open_stream-lookup :
    (g g' : StreamRegistry) (now : ℕ) (sender : Option BusName) (d : StreamDescriptor) (id : Str)
    → open_stream g now sender d ≡ (g', ok id)
    → (id ≡ txt "s" ++ decimal g.next_id)
      × (g'.heap g.fresh ≡ new_stream g.limits now sender d)
      × (lookup g' id sender ≡ ok g.fresh)
      × ((other : Option BusName)
          → other ≢ sender
          → lookup g' id other ≡ err (Error.unknown_stream id))
unfolding lookup opened
open_stream-lookup g g' now sender d id h =
    let (e, minted) = open_stream-eq-ok g now sender d g' id h in
    let found = get-insert (evicted g now sender d).0 id id g.fresh in
    (
      minted,
      ground (arith, e, eq_refl g.fresh),
      ground (arith, e, minted, found, eq_refl id, eq_refl g.fresh, eq_refl sender),
      λ other n.
          ground (arith, e, minted, found, eq_refl id, eq_refl g.fresh, eq_iff sender other, n),
    )
