-- ===== src/Connection/Calls.antt =====
-- The calls of one connection of crates/tinybus/src/connection.rs over its life: a step for each thing
-- that happens to the table of waiters.
use mathlib.Core.Path.{subst}
use tinybus.Prelude.{
  ℕ, ◌+◌, ◌<◌, ◌≡◌, ◌≢◌, refl, ◌⊎◌, inl, inr, Bool, true, false, Option, none, some, [], ◌∷◌, arith,
  Map, get, get-insert, get-remove, IsDistinct, insert-IsDistinct, remove-IsDistinct, is_some,
  nat_eq, list_eq, option_eq, ◌==◌, eq_iff, Option-cases, Bool-cases, All,
}
use tinybus.Text.{Str}
use tinybus.Text.Decimal.{u64_size}
use tinybus.Name.Types.{BusName, bus_name_eq}
use tinybus.Error.{Error}
use tinybus.Message.Types.{MessageKind, kind_eq, Message, JsonText}
use tinybus.Message.Reply.{error_reply}
use tinybus.Connection.{
  PendingReply, accepts, Delivery, Connection, advance, waiter_of, register, give_up, hand_over,
  dispatch_reply, refuse_call, hang_up,
}
use tinybus.Connection.Identity.{accepts-expected}

module _ {Value : Type 0} (json : JsonText Value) (debug : Str → Str) where
  pub data Step : Connection Value → Connection Value → Type 0 where
    registers :
        (c : Connection Value) (m : Message Value) (expected : Option BusName)
        → c.serial + 1 < u64_size
        → Step c (register c m expected).0
    -- Every other message takes a serial too.
    sends : (c : Connection Value) → c.serial + 1 < u64_size → Step c (advance c)
    gives_up : (c : Connection Value) (serial : ℕ) → Step c (give_up c serial)
    receives :
        (c : Connection Value) (reply : Message Value) (brokered : Bool)
        → Step c (dispatch_reply c reply brokered)
    refuses :
        (c : Connection Value) (serial : ℕ) (refusal : Error)
        → Step c (refuse_call json debug c serial refusal)
    hangs_up : (c : Connection Value) → Step c (hang_up c)
    is_named :
        (c : Connection Value) (name : Option BusName) → Step c (record c { unique_name = name })

  pub data Steps : Connection Value → Connection Value → Type 0 where
    done : (c : Connection Value) → Steps c c
    then : (b c d : Connection Value) → Steps b c → Step c d → Steps b d

  -- A reply that the waiter of that serial accepts, or the refusal that the connection itself makes.
  pub record IsAnswer (serial : ℕ) (d : Delivery Value) : Type 0 where
    pub matches : d.reply.header.reply_serial ≡ some serial
    pub given :
        ((brokered : Bool) × (accepts d.waiter d.reply brokered ≡ true))
        ⊎ (d.reply.header.kind ≡ MessageKind.error)

  -- Who waits has a serial of its own, and waits no more once it is answered; no call is answered twice.
  pub record IsMatched (c : Connection Value) : Type 0 where
    pub waiting : IsDistinct c.pending
    pub taken : (s : ℕ) → is_some (get c.pending s) ≡ true → s < c.serial
    pub once : IsDistinct c.delivered
    pub ended :
        (s : ℕ) → is_some (get c.delivered s) ≡ true → (s < c.serial) × (get c.pending s ≡ none)
    pub answers : All (λ e. IsAnswer e.0 e.1) c.delivered

  module _ (c : Connection Value) (f : IsMatched c) where
    pub register-IsMatched :
        (m : Message Value) (expected : Option BusName)
        → c.serial + 1 < u64_size
        → IsMatched (register c m expected).0
    unfolding register
    register-IsMatched m expected room =
        let w = waiter_of c m expected in
        record {
          waiting = insert-IsDistinct c.pending c.serial w f.waiting;
          taken = λ s h.
              ground
                (arith, get-insert c.pending c.serial s w, h, f.taken s, room, eq_iff c.serial s);
          once = f.once;
          ended = λ s h.
              let (lt, gone) = f.ended s h in
              (
                omega (arith, lt, room),
                ground (arith, get-insert c.pending c.serial s w, lt, gone, eq_iff c.serial s),
              );
          answers = f.answers;
        }

    advance-IsMatched : c.serial + 1 < u64_size → IsMatched (advance c)
    advance-IsMatched room = record {
      waiting = f.waiting;
      taken = λ s h. omega (arith, f.taken s h, room);
      once = f.once;
      ended = λ s h. (omega (arith, (f.ended s h).0, room), (f.ended s h).1);
      answers = f.answers;
    }

    give_up-IsMatched : (serial : ℕ) → IsMatched (give_up c serial)
    give_up-IsMatched serial = record {
      waiting = remove-IsDistinct c.pending serial f.waiting;
      taken = λ s h. ground (arith, get-remove c.pending serial s, h, f.taken s);
      once = f.once;
      ended =
          λ s h. ((f.ended s h).0, ground (arith, get-remove c.pending serial s, (f.ended s h).1));
      answers = f.answers;
    }

    hand_over-IsMatched :
        (serial : ℕ) (w : PendingReply) (reply : Message Value)
        → get c.pending serial ≡ some w
        → IsAnswer serial (record { waiter = w; reply = reply })
        → IsMatched (hand_over c serial w reply)
    unfolding get
    hand_over-IsMatched serial w reply e a = record {
      waiting = remove-IsDistinct c.pending serial f.waiting;
      taken = λ s h. ground (arith, get-remove c.pending serial s, h, f.taken s);
      once = (
        elim (Option-cases (get c.delivered serial)) [
          | inl no_more ↦ no_more
          | inr (d, there) ↦ ground (arith, f.ended serial, there, e)
        ],
        f.once,
      );
      ended = λ s h. elim (Bool-cases (serial == s)) [
        | inl y ↦ ground (arith, get-remove c.pending serial s, y, e, f.taken s, eq_iff serial s)
        | inr n ↦ ground (arith, get-remove c.pending serial s, n, h, f.ended s)
      ];
      answers = (a, f.answers);
    }

    dispatch_reply-IsMatched :
        (reply : Message Value) (brokered : Bool) → IsMatched (dispatch_reply c reply brokered)
    unfolding dispatch_reply
    dispatch_reply-IsMatched reply brokered = elim (Option-cases reply.header.reply_serial) [
      | inl e ↦ rw (e, dispatch_reply) f
      | inr (serial, e) ↦ elim (Option-cases (get c.pending serial)) [
        | inl g ↦ rw (e, g, dispatch_reply) f
        | inr (w, g) ↦ elim (Bool-cases (accepts w reply brokered)) [
          | inr n ↦ rw (e, g, n, dispatch_reply) f
          | inl y ↦
              rw (e, g, y, dispatch_reply)
                (hand_over-IsMatched serial w reply g
                  (record { matches = e; given = inl (brokered, y) }))
        ]
      ]
    ]

    refuse_call-IsMatched :
        (serial : ℕ) (refusal : Error) → IsMatched (refuse_call json debug c serial refusal)
    unfolding refuse_call error_reply
    refuse_call-IsMatched serial refusal = elim (Option-cases (get c.pending serial)) [
      | inl g ↦ rw (g, refuse_call) f
      | inr (w, g) ↦
          rw (g, refuse_call)
            (hand_over-IsMatched serial w _ g (record { matches = refl; given = inr refl }))
    ]

    hang_up-IsMatched : IsMatched (hang_up c)
    unfolding get
    hang_up-IsMatched = record {
      waiting = tt;
      taken = λ s h. ground (arith, h);
      once = f.once;
      ended = λ s h. ((f.ended s h).0, refl);
      answers = f.answers;
    }

  pub Step-IsMatched : {c d : Connection Value} → Step c d → IsMatched c → IsMatched d
  Step-IsMatched (Step.registers c m expected room) f = register-IsMatched c f m expected room
  Step-IsMatched (Step.sends c room) f = advance-IsMatched c f room
  Step-IsMatched (Step.gives_up c serial) f = give_up-IsMatched c f serial
  Step-IsMatched (Step.receives c reply brokered) f = dispatch_reply-IsMatched c f reply brokered
  Step-IsMatched (Step.refuses c serial refusal) f = refuse_call-IsMatched c f serial refusal
  Step-IsMatched (Step.hangs_up c) f = hang_up-IsMatched c f
  Step-IsMatched (Step.is_named c name) f = record {
    waiting = f.waiting;
    taken = f.taken;
    once = f.once;
    ended = f.ended;
    answers = f.answers;
  }

  -- Whatever calls, replies, refusals and timeouts follow, each serial waits at most once, is
  -- answered at most once and no longer waits then, and each delivered reply bears the serial of
  -- its call and is an error or was accepted by the waiter; the 64-bit serials have room.
  pub Steps-IsMatched : {c d : Connection Value} → Steps c d → IsMatched c → IsMatched d
  Steps-IsMatched (Steps.done c) f = f
  Steps-IsMatched (Steps.then b c d run step) f = Step-IsMatched step (Steps-IsMatched run f)

  found-All :
      (P : ℕ → Delivery Value → Type 0) (m : Map ℕ (Delivery Value)) (s : ℕ) (d : Delivery Value)
      → All (λ e. P e.0 e.1) m
      → get m s ≡ some d
      → P s d
  unfolding get
  found-All P [] s d a e = cc
  found-All P ((j, x) ∷ m) s d (p, a) e = elim (Bool-cases (j == s)) [
    | inl y ↦
        let same : x ≡ d = ground (arith, e, y) in
        subst (λ i. P i d) ((eq_iff j s).0 y) (subst (λ z. P j z) same p)
    | inr n ↦ found-All P m s d a (ground (arith, e, n))
  ]

  -- Who answered a call that knew whom it expected.
  pub delivered-expected :
      {c : Connection Value} (s : ℕ) (d : Delivery Value) (e : BusName)
      → IsMatched c
      → get c.delivered s ≡ some d
      → d.waiter.expected ≡ some e
      → d.waiter.bus_control ≡ false
      → d.waiter.unverified_direct ≡ false
      → d.reply.header.kind ≢ MessageKind.error
      → (d.reply.header.reply_serial ≡ some s)
        × (d.reply.header.sender ≡ some e)
        × (d.waiter.confidential ≡ true → d.reply.header.confidential ≡ true)
  delivered-expected s d e f there he hb hu ne =
      let a = found-All IsAnswer _ s d f.answers there in
      elim (a.given) [
        | inr failed ↦ absurd (ne failed)
        | inl (brokered, taken) ↦
            elim (accepts-expected d.waiter d.reply brokered e he hb hu taken) [
              | inl (sender, private) ↦ (a.matches, sender, private ne)
              | inr (failed, bus) ↦ absurd (ne failed)
            ]
      ]
