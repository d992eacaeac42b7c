-- ===== src/Stream/Registry/Tests.antt =====
-- Examples of the theorems about the stream table of crates/tinybus/src/stream/mod.rs: two peers open
-- a stream each.
use tinybus.Prelude.{
  ℕ, ◌-◌, ◌*◌, ◌≤◌, ◌≡◌, refl, none, some, arith, get, insert, remove, list_beq, nat_eq,
}
use tinybus.Text.{txt}
use tinybus.Text.Decimal.{decimal}
use tinybus.Name.Types.{BusName, bus_name_eq}
use tinybus.Error.{Error, err}
use tinybus.Stream.Inbound.{StreamDescriptor, default_limits, new_stream, Inbound}
use tinybus.Stream.Registry.{
  StreamRegistry, new_registry, reap, evict, doomed, open_stream, start_write, close, abort,
  take_reader_opened_by,
}
use tinybus.Stream.Registry.Owner.{is_foreign, calls-foreign, IsLeft, calls-isolated}
use tinybus.Stream.Registry.Quota.{held}
use tinybus.Stream.Registry.Reach.{Step, Steps, Steps-held}

abbrev alice : BusName
alice = record { text = txt ":1.1" }

abbrev bob : BusName
bob = record { text = txt ":1.2" }

abbrev plain : StreamDescriptor
plain = record { content_type = none; total_len = none }

abbrev nothing : ℕ → Inbound
nothing a = new_stream default_limits 0 none plain

abbrev empty : StreamRegistry
empty = new_registry nothing

abbrev one : StreamRegistry
one = (open_stream empty 5 (some alice) plain).0

abbrev two : StreamRegistry
two = (open_stream one 6 (some bob) plain).0

to_two : Steps empty two
to_two =
    Steps.then empty one two
      (Steps.then empty empty one (Steps.done empty) (Step.opens empty 5 (some alice) plain))
      (Step.opens one 6 (some bob) plain)

Steps-held_example : held two (some alice) ≤ 2 * two.limits.max_streams_per_peer - 1
Steps-held_example = Steps-held to_two refl (some alice)

calls-foreign_example :
    (start_write two (some bob) (txt "s1") (txt "AA==")
      ≡ (two, err (Error.unknown_stream (txt "s1"))))
    × (close two 7 (some bob) (txt "s1") 0 ≡ (two, err (Error.unknown_stream (txt "s1"))))
    × (abort two 7 (some bob) (txt "s1") ≡ (two, err (Error.unknown_stream (txt "s1"))))
    × (take_reader_opened_by two (txt "s1") bob ≡ (two, err (Error.unknown_stream (txt "s1"))))
unfolding bus_name_eq is_foreign open_stream reap evict doomed decimal txt get insert remove
    list_beq
calls-foreign_example = calls-foreign two 7 (txt "s1") (txt "AA==") 0 bob refl

calls-isolated_example :
    IsLeft two (start_write two (some bob) (txt "s2") (txt "AA==")).0 0
    × IsLeft two (close two 7 (some bob) (txt "s2") 0).0 0
    × IsLeft two (abort two 7 (some bob) (txt "s2")).0 0
unfolding bus_name_eq open_stream reap evict doomed decimal txt get insert remove list_beq
calls-isolated_example =
    calls-isolated two 7 (txt "s2") (txt "AA==") 0 (some bob) 0 (λ e. ground (arith, e))
