-- ===== src/Router/Signals.antt =====
-- Who hears a signal, in crates/tinybus/src/router.rs.
use tinybus.Prelude.{
  ℕ, ◌≡◌, ◌≢◌, refl, ap, ◌∙◌, ◌↔◌, Bool, true, false, Option, none, some, List, [], ◌∷◌, arith, Map,
  map, filter, nat_eq, eq_iff, ◌==◌, option_eq, if◌then◌else◌, is_none_or, In, In-filter, any→In,
  In→any, inl, inr,
}
use tinybus.Name.Types.{BusName, bus_name_eq}
use tinybus.Message.Types.{Message}
use tinybus.Router.{Peer, Router}
use tinybus.Router.Rule.{MatchRule, matches}
use tinybus.Router.Resolve.{hears, subscribers}

-- The signal names no peer, or this one.
abbrev pub IsFor : Option BusName → BusName → Type 0
IsFor none u = Unit
IsFor (some destination) u = destination ≡ u

In-map :
    {Sender : Type 0} (o : Sender) (ps : Map ℕ (Peer Sender))
    → In o (map (λ (id, peer). peer.outbox) ps)
      ↔ ((id : ℕ) × (peer : Peer Sender) × In (id, peer) ps × (peer.outbox ≡ o))
In-map o [] = (λ i. absurd i, λ (id, p, i, e). absurd i)
In-map o ((j, q) ∷ ps) = (
  λ i. elim i [
    | inl e ↦ (j, q, inl refl, e)
    | inr i ↦ let (id, p, i, e) = (In-map o ps).0 i in (id, p, inr i, e)
  ],
  λ (id, p, i, e). elim i [
    | inl y ↦ inl (ap (λ x. x.1.outbox) y ∙ e)
    | inr i ↦ inr ((In-map o ps).1 (id, p, i, e))
  ],
)

IsFor-test :
    (destination : Option BusName) (u : BusName)
    → (is_none_or destination (λ d. d == u) ≡ true) ↔ IsFor destination u
IsFor-test none u = ground arith
IsFor-test (some d) u = ground (arith, eq_iff d u)

In-unless :
    {A : Type 0} (b : Bool) (a : A) (xs : List A)
    → In a (if b then [] else xs) ↔ ((b ≡ false) × In a xs)
In-unless true a xs = ground arith
In-unless false a xs = ground arith

module _ {Sender Value : Type 0} where
  -- What makes an entry of the table hear a signal from the connection `from`.
  pub record Hears (signal : Message Value) (from id : ℕ) (peer : Peer Sender) : Type 0 where
    pub plain : signal.header.confidential ≡ false
    pub other : id ≢ from
    pub for_it : IsFor signal.header.destination peer.unique
    pub rule : (rule : MatchRule) × In rule peer.matches × (matches rule signal ≡ true)

  hears_iff :
      (signal : Message Value) (from id : ℕ) (peer : Peer Sender)
      → signal.header.confidential ≡ false
      → (hears signal from (id, peer) ≡ true) ↔ Hears signal from id peer
  unfolding hears
  hears_iff signal from id peer o =
      let addressed = IsFor-test signal.header.destination peer.unique in
      (
        λ h. record {
          plain = o;
          other = ground (arith, eq_iff id from, h);
          for_it = ground (arith, addressed, h);
          rule = any→In (λ rule. matches rule signal) peer.matches (ground (arith, h));
        },
        λ w. ground (
          arith,
          eq_iff id from,
          w.other,
          addressed,
          w.for_it,
          In→any (λ rule. matches rule signal) peer.matches w.rule.0 w.rule.1 w.rule.2,
        ),
      )

  -- An outbox is among the subscribers of a signal exactly when the signal is not confidential and
  -- the outbox belongs to a peer other than the sender, whom the signal is for and one of whose
  -- rules matches it.
  pub In-subscribers :
      (r : Router Sender) (signal : Message Value) (from : ℕ) (outbox : Sender)
      → In outbox (subscribers r signal from) ↔ (
          (id : ℕ) × (peer : Peer Sender) × In (id, peer) r.peers
          × (peer.outbox ≡ outbox)
          × Hears signal from id peer)
  unfolding subscribers
  In-subscribers r signal from outbox =
      let heard = In-map outbox (filter (hears signal from) r.peers) in
      let unless =
        In-unless signal.header.confidential outbox
          (map (λ (id, peer). peer.outbox) (filter (hears signal from) r.peers)) in
      (
        λ i.
            let (n, i) = unless.0 i in
            let (id, p, i, e) = heard.0 i in
            let (i, h) = (In-filter (hears signal from) (id, p) r.peers).0 i in
            (id, p, i, e, (hears_iff signal from id p n).0 h),
        λ (id, p, i, e, w).
            let i =
              (In-filter (hears signal from) (id, p) r.peers).1
                (i, (hears_iff signal from id p w.plain).1 w) in
            unless.1 (w.plain, heard.1 (id, p, i, e)),
      )
