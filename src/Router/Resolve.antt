-- ===== src/Router/Resolve.antt =====
-- The destinations of crates/tinybus/src/router.rs: which outbox a call, a directed signal or a
-- broadcast reaches, and the callback scopes that widen the confidential route.
use tinybus.Prelude.{
  ℕ, Bool, not, ◌&&◌, ◌||◌, Option, none, some, List, [], ◌∷◌, ◌++◌, get, contains_key, is_some,
  is_none, is_some_and, is_none_or, ◌==◌, ◌!=◌, option_eq, nat_eq, if◌then◌else◌, filter, any,
  length, leb, map,
}
use mathlib.Core.Option
use tinybus.Text.{txt}
use tinybus.Name.Types.{BusName, bus_name_eq}
use tinybus.Name.BusName.{is_unique}
use tinybus.Error.{Error, Result, ok, err, ◌>>=◌, ◌>>◌, refuse_if, ok_or, failed}
use tinybus.Message.Types.{MessageKind, kind_eq, Header, Message}
use tinybus.Router.{Peer, Router, owner_of, attestation_of, ensure_peer_attached}
use tinybus.Router.Rule.{MatchRule}
use tinybus.Router.Rule
use tinybus.Router.Callbacks.{Heap, matches, matches_directed_signal, revoke_at}

module _ {Sender : Type 0} where
  unfoldable pub resolve : Router Sender → BusName → Result Sender
  resolve r destination = do
    id ← ok_or (get r.names destination) (Error.name_has_no_owner destination)
    ok_or (Option.map (λ p. p.outbox) (get r.peers id)) (Error.name_has_no_owner destination)

  unfoldable pub resolve_attested : Router Sender → BusName → Result Sender
  resolve_attested r destination = do
    id ← ok_or (get r.names destination) (Error.name_has_no_owner destination)
    peer ← ok_or (get r.peers id) (Error.name_has_no_owner destination)
    let attested =
        if is_unique destination
        then is_some peer.admitted_artifact
        else contains_key peer.attestations destination
    refuse_if (not attested) (
        Error.not_attested destination
          (txt "only a loaded module with a verified artifact may receive a secret"))
    ok peer.outbox

  unfoldable pub resolve_call :
      Heap → Router Sender → BusName → Option BusName → Bool → Header → Result Sender
  unfolding resolve resolve_attested
  resolve_call heap r destination expected confidential header =
      if is_some_and expected (λ expected. owner_of r destination != some expected)
      then err (Error.name_has_no_owner destination)
      else if confidential
      then if is_unique destination && any (λ c. matches (heap c) header) r.host_callbacks
        then resolve r destination
        else resolve_attested r destination
      else resolve r destination

  unfoldable pub resolve_call_from :
      Heap → Router Sender → ℕ → BusName → BusName → Option BusName → Bool → Header → Result Sender
  unfolding resolve_call
  resolve_call_from heap r from source destination expected confidential header = do
    ensure_peer_attached r from source
    resolve_call heap r destination expected confidential header

  unfoldable pub add_host_callbacks : Heap → Router Sender → ℕ → Result (Router Sender)
  add_host_callbacks heap r capability =
      let same : ℕ → Bool =
        λ entry. entry == capability || (heap entry).destination == (heap capability).destination in
      if any same r.host_callbacks
      then err (failed (txt "callback scope is already registered"))
      else if leb 128 (length r.host_callbacks)
      then err (failed (txt "callback scope limit reached"))
      else elim (heap capability).module_peer [
        | none ↦ err (failed (txt "callback module peer is absent"))
        | some source ↦
            if is_none (attestation_of r source)
              || is_none (owner_of r (heap capability).destination)
            then err (failed (txt "callback peers are not admitted"))
            else ok (record r { host_callbacks = r.host_callbacks ++ (capability ∷ []) })
      ]

  unfoldable pub revoke_host_callbacks : Heap → Router Sender → ℕ → Heap × Router Sender
  revoke_host_callbacks heap r capability = (
    revoke_at heap capability,
    record r { host_callbacks = filter (λ entry. entry != capability) r.host_callbacks },
  )

  unfoldable pub directed_signal_target :
      Heap → Router Sender → BusName → BusName → Header → Result Sender
  unfolding resolve
  directed_signal_target heap r source destination header =
      if header.kind != MessageKind.directed_signal
        || header.sender != some source
        || header.destination != some destination
      then err (failed (txt "directed signal routing fields are invalid"))
      else if not
          (any (λ c. matches_directed_signal (heap c) source destination header) r.host_callbacks)
      then err (failed (txt "directed signal authority is unavailable"))
      else resolve r destination

  unfoldable pub directed_signal_target_from :
      Heap → Router Sender → ℕ → BusName → BusName → Header → Result Sender
  unfolding directed_signal_target
  directed_signal_target_from heap r from source destination header = do
    ensure_peer_attached r from source
    directed_signal_target heap r source destination header

  module _ {Value : Type 0} where
    -- One rule of the peer is enough.
    abbrev wants : Message Value → ℕ × Peer Sender → Bool
    wants signal (id, peer) = any (λ rule. Rule.matches rule signal) peer.matches

    -- The three filters of `subscribers`.
    unfoldable pub hears : Message Value → ℕ → ℕ × Peer Sender → Bool
    hears signal from (id, peer) =
        id != from
        && is_none_or signal.header.destination (λ destination. destination == peer.unique)
        && wants signal (id, peer)

    unfoldable pub subscribers : Router Sender → Message Value → ℕ → List Sender
    unfolding hears
    subscribers r signal from =
        if signal.header.confidential
        then []
        else map (λ (id, peer). peer.outbox) (filter (hears signal from) r.peers)

    unfoldable pub subscribers_from :
        Router Sender → Message Value → ℕ → BusName → Result (List Sender)
    unfolding subscribers
    subscribers_from r signal from source = do
      ensure_peer_attached r from source
      ok (subscribers r signal from)

    unfoldable pub broadcast_targets : Router Sender → Message Value → List Sender
    broadcast_targets r signal =
        if signal.header.confidential
        then []
        else map (λ (id, peer). peer.outbox) (filter (wants signal) r.peers)
