-- ===== src/Connection/Answered.antt =====
-- Who answers a call of crates/tinybus/src/connection.rs, from its registration on.
use tinybus.Prelude.{
  ℕ, ◌+◌, ◌<◌, ◌≡◌, ◌≢◌, refl, ap, ◌∙◌, inl, inr, Bool, true, false, Option, some, arith, get,
  get-insert, get-remove, is_some_and, nat_eq, list_eq, option_eq, ◌==◌, eq_iff, eq_refl,
  Option-cases, Bool-cases,
}
use tinybus.Text.{Str}
use tinybus.Text.Decimal.{u64_size}
use tinybus.Name.Types.{BusName, bus_name_eq}
use tinybus.Error.{Error, Result, ok}
use tinybus.Name.BusName.{is_unique}
use tinybus.Message.Types.{MessageKind, kind_eq, Message, JsonText}
use tinybus.Router.{bus_name}
use tinybus.Connection.{
  PendingReply, accepts, expect_responder, Delivery, Connection, waiter_of, register, hand_over,
  dispatch_reply, refuse_call,
}
use tinybus.Connection.Identity.{expect_responder-is_unique}
use tinybus.Connection.Calls.{
  Step, Steps, IsMatched, register-IsMatched, Steps-IsMatched, delivered-expected,
}

module _ {Value : Type 0} (json : JsonText Value) (debug : Str → Str) where
  -- No other waiter takes the serial.
  record IsWaiter (s : ℕ) (w : PendingReply) (c : Connection Value) : Type 0 where
    older : s < c.serial
    waits : (p : PendingReply) → get c.pending s ≡ some p → p ≡ w
    waited : (x : Delivery Value) → get c.delivered s ≡ some x → x.waiter ≡ w

  module _ (s : ℕ) (w : PendingReply) (c : Connection Value) (f : IsWaiter s w c) where
    hand_over-IsWaiter :
        (serial : ℕ) (p : PendingReply) (reply : Message Value)
        → get c.pending serial ≡ some p
        → IsWaiter s w (hand_over c serial p reply)
    unfolding get
    hand_over-IsWaiter serial p reply e = record {
      older = f.older;
      waits = λ q h. f.waits q (ground (arith, get-remove c.pending serial s, h));
      waited = λ x h. ground (arith, h, f.waited x, f.waits p, e, eq_iff serial s);
    }

    register-IsWaiter :
        (m : Message Value) (expected : Option BusName)
        → c.serial + 1 < u64_size
        → IsWaiter s w (register c m expected).0
    unfolding register
    register-IsWaiter m expected room = record {
      older = omega (arith, f.older, room);
      waits = λ q h. f.waits q (
          ground (
            arith,
            get-insert c.pending c.serial s (waiter_of c m expected),
            h,
            f.older,
            eq_iff c.serial s,
          ));
      waited = f.waited;
    }

    dispatch_reply-IsWaiter :
        (reply : Message Value) (brokered : Bool) → IsWaiter s w (dispatch_reply c reply brokered)
    unfolding dispatch_reply
    dispatch_reply-IsWaiter reply brokered = elim (Option-cases reply.header.reply_serial) [
      | inl e ↦ rw (e, dispatch_reply) f
      | inr (serial, e) ↦ elim (Option-cases (get c.pending serial)) [
        | inl g ↦ rw (e, g, dispatch_reply) f
        | inr (p, g) ↦ elim (Bool-cases (accepts p reply brokered)) [
          | inr n ↦ rw (e, g, n, dispatch_reply) f
          | inl y ↦ rw (e, g, y, dispatch_reply) (hand_over-IsWaiter serial p reply g)
        ]
      ]
    ]

    refuse_call-IsWaiter :
        (serial : ℕ) (refusal : Error) → IsWaiter s w (refuse_call json debug c serial refusal)
    unfolding refuse_call
    refuse_call-IsWaiter serial refusal = elim (Option-cases (get c.pending serial)) [
      | inl g ↦ rw (g, refuse_call) f
      | inr (p, g) ↦ rw (g, refuse_call) (hand_over-IsWaiter serial p _ g)
    ]

  Step-IsWaiter :
      (s : ℕ) (w : PendingReply) {c d : Connection Value}
      → Step json debug c d
      → IsWaiter s w c
      → IsWaiter s w d
  unfolding get
  Step-IsWaiter s w (Step.registers c m expected room) f = register-IsWaiter s w c f m expected room
  Step-IsWaiter s w (Step.sends c room) f = record {
    older = omega (arith, f.older, room);
    waits = f.waits;
    waited = f.waited;
  }
  Step-IsWaiter s w (Step.gives_up c serial) f = record {
    older = f.older;
    waits = λ q h. f.waits q (ground (arith, get-remove c.pending serial s, h));
    waited = f.waited;
  }
  Step-IsWaiter s w (Step.receives c reply brokered) f =
      dispatch_reply-IsWaiter s w c f reply brokered
  Step-IsWaiter s w (Step.refuses c serial refusal) f = refuse_call-IsWaiter s w c f serial refusal
  Step-IsWaiter s w (Step.hangs_up c) f = record {
    older = f.older;
    waits = λ q h. cc;
    waited = f.waited;
  }
  Step-IsWaiter s w (Step.is_named c name) f = record {
    older = f.older;
    waits = f.waits;
    waited = f.waited;
  }

  Steps-IsWaiter :
      (s : ℕ) (w : PendingReply) {c d : Connection Value}
      → Steps json debug c d
      → IsWaiter s w c
      → IsWaiter s w d
  Steps-IsWaiter s w (Steps.done c) f = f
  Steps-IsWaiter s w (Steps.then b c d run step) f =
      Step-IsWaiter s w step (Steps-IsWaiter s w run f)

  -- On a connection that has its name, whatever happens after a call is registered, a reply other
  -- than an error that the call is answered with comes from the peer that the resolution chose,
  -- which has a unique name, bears the serial of the call, and is confidential if the call was; the
  -- calls before it are matched to their replies, and the 64-bit serial has room.
  pub register-answered :
      (resolve : BusName → Result BusName) (known : Option BusName) (c : Connection Value)
      {d : Connection Value} (m m' : Message Value) (e name : BusName) (x : Delivery Value)
      → expect_responder known resolve m ≡ ok (m', some e)
      → c.unique_name ≡ some name
      → IsMatched json debug c
      → c.serial + 1 < u64_size
      → Steps json debug (register c m' (some e)).0 d
      → get d.delivered c.serial ≡ some x
      → x.reply.header.kind ≢ MessageKind.error
      → (is_unique e ≡ true)
        × (x.reply.header.reply_serial ≡ some c.serial)
        × (x.reply.header.sender ≡ some e)
        × (m'.header.confidential ≡ true → x.reply.header.confidential ≡ true)
  unfolding register
  register-answered resolve known c m m' e name x expects named f room run there fine =
      let (unique, kept, stated, not_bus) =
        expect_responder-is_unique known resolve m m' e expects in
      let w = waiter_of c m' (some e) in
      let first : IsWaiter c.serial w (register c m' (some e)).0 = record {
        older = omega (arith, room);
        waits =
            λ q h. ground (arith, get-insert c.pending c.serial c.serial w, h, eq_refl c.serial);
        waited = λ y h. absurd (ground (arith, h, f.ended c.serial));
      } in
      let same = (Steps-IsWaiter c.serial w run first).waited x there in
      let matched =
        Steps-IsMatched json debug run (register-IsMatched json debug c f m' (some e) room) in
      let peer : is_some_and m'.header.destination (λ d. d == bus_name) ≡ false =
        elim (Option-cases m'.header.destination) [
          | inl nowhere ↦ rw nowhere refl
          | inr (d, addressed) ↦ ground (arith, kept, not_bus, addressed, eq_iff d bus_name)
        ] in
      let (serial, sender, private) =
        delivered-expected json debug c.serial x e matched there (ap (λ p. p.expected) same)
          (ap (λ p. p.bus_control) same ∙ peer)
          (ap (λ p. p.unverified_direct) same ∙ ground (arith, named)) fine in
      (unique, serial, sender, λ h. private (ap (λ p. p.confidential) same ∙ h))
