-- ===== src/Router/Reach.antt =====
-- The routing table of crates/tinybus/src/router.rs over its whole life: a step for each operation
-- that changes it, on the heap of callback scopes and the table. The broker claims a name only for
-- a connection that is attached, and the counter does not run out.
use tinybus.Prelude.{
  ℕ, ◌+◌, ◌<◌, ◌≡◌, refl, true, List, arith, get, nat_eq, Option-cases, inl, inr, is_some,
}
use tinybus.Text.Decimal.{u64_size}
use tinybus.Name.Types.{BusName, bus_name_eq}
use tinybus.Name.BusName.{unique}
use tinybus.Error.{Result, ok, err}
use tinybus.Version.{PeerManifest}
use tinybus.Router
use tinybus.Router.{Attestation, Peer, Router, ensure_peer_attached}
use tinybus.Router.Rule.{MatchRule}
use tinybus.Router.Callbacks.{Heap}
use tinybus.Router.Resolve
use tinybus.Router.Coherent.{
  IsCoherent, attach-IsCoherent, detach-IsCoherent, request_name-IsCoherent,
  release_name-IsCoherent, update-IsCoherent,
}

pub data Step {Sender : Type 0} : Heap → Router Sender → Heap → Router Sender → Type 0 where
  attach :
      (heap : Heap) (r : Router Sender) (outbox : Sender)
      → r.next_id + 1 < u64_size
      → Step heap r heap (Router.attach r outbox).0
  detach :
      (heap : Heap) (r : Router Sender) (id : ℕ)
      → Step heap r (Router.detach heap r id).0 (Router.detach heap r id).1.0
  detach_unique :
      (heap : Heap) (r : Router Sender) (name : BusName)
      → Step heap r (Router.detach_unique heap r name).0 (Router.detach_unique heap r name).1.0
  revoke_callbacks_for_peer :
      (heap : Heap) (r : Router Sender) (peer : BusName)
      → Step heap r
          (Router.revoke_callbacks_for_peer heap r peer).0
          (Router.revoke_callbacks_for_peer heap r peer).1
  request_name :
      (heap : Heap) (r : Router Sender) (id : ℕ) (name : BusName)
      → is_some (get r.peers id) ≡ true
      → Step heap r heap (Router.request_name r id name).0
  request_name_for_unique :
      (heap : Heap) (r : Router Sender) (unique name : BusName)
      → Step heap r heap (Router.request_name_for_unique r unique name).0
  release_name :
      (heap : Heap) (r : Router Sender) (id : ℕ) (name : BusName)
      → Step heap r heap (Router.release_name r id name).0
  release_name_for_unique :
      (heap : Heap) (r : Router Sender) (unique name : BusName)
      → Step heap r heap (Router.release_name_for_unique r unique name).0
  set_manifest :
      (heap : Heap) (r : Router Sender) (id : ℕ) (manifest : PeerManifest)
      → Step heap r heap (Router.set_manifest r id manifest)
  add_match :
      (heap : Heap) (r : Router Sender) (id : ℕ) (rule : MatchRule)
      → Step heap r heap (Router.add_match r id rule)
  remove_match :
      (heap : Heap) (r : Router Sender) (id : ℕ) (rule : MatchRule)
      → Step heap r heap (Router.remove_match r id rule)
  set_attestation :
      (heap : Heap) (r : Router Sender) (id : ℕ) (a : Attestation)
      → Step heap r heap (Router.set_attestation r id a)
  set_attestation_for_unique :
      (heap : Heap) (r : Router Sender) (unique : BusName) (a : Attestation)
      → Step heap r heap (Router.set_attestation_for_unique r unique a)
  add_host_callbacks :
      (heap : Heap) (r after : Router Sender) (capability : ℕ)
      → Resolve.add_host_callbacks heap r capability ≡ ok after
      → Step heap r heap after
  revoke_host_callbacks :
      (heap : Heap) (r : Router Sender) (capability : ℕ)
      → Step heap r
          (Resolve.revoke_host_callbacks heap r capability).0
          (Resolve.revoke_host_callbacks heap r capability).1
  -- The module host changes the scopes that it shares with the table.
  scopes : (heap later : Heap) (r : Router Sender) → Step heap r later r

pub data Steps {Sender : Type 0} : Heap → Router Sender → Heap → Router Sender → Type 0 where
  done : (heap : Heap) (r : Router Sender) → Steps heap r heap r
  then :
      (heap : Heap) (r : Router Sender) (heap' : Heap) (r' : Router Sender) (heap'' : Heap)
      (r'' : Router Sender)
      → Steps heap r heap' r'
      → Step heap' r' heap'' r''
      → Steps heap r heap'' r''

module _ {Sender : Type 0} where
  -- The tables of peers and names, and the counter: what the invariant is about.
  same-IsCoherent :
      (r : Router Sender) (cs : List ℕ)
      → IsCoherent r
      → IsCoherent (record r { host_callbacks = cs })
  same-IsCoherent r cs c = record {
    distinct_peers = c.distinct_peers;
    distinct_names = c.distinct_names;
    owners = c.owners;
    identities = c.identities;
    own = c.own;
    unique_names = c.unique_names;
    minted = c.minted;
    counter = c.counter;
  }

  pub add_host_callbacks-keeps :
      (heap : Heap) (r after : Router Sender) (capability : ℕ)
      → Resolve.add_host_callbacks heap r capability ≡ ok after
      → after ≡ record r { host_callbacks = after.host_callbacks }
  unfolding Resolve.add_host_callbacks
  add_host_callbacks-keeps heap r after capability e = ground arith

  detach_unique-IsCoherent :
      (heap : Heap) (r : Router Sender) (name : BusName)
      → IsCoherent r
      → IsCoherent (Router.detach_unique heap r name).1.0
  unfolding Router.detach_unique
  detach_unique-IsCoherent heap r name c = elim (Option-cases (get r.names name)) [
    | inl e ↦ rw (e, Router.detach_unique) c
    | inr (id, e) ↦ rw (e, Router.detach_unique) (detach-IsCoherent heap r id c)
  ]

  request_name_for_unique-IsCoherent :
      (r : Router Sender) (unique name : BusName)
      → IsCoherent r
      → IsCoherent (Router.request_name_for_unique r unique name).0
  unfolding Router.request_name_for_unique
  request_name_for_unique-IsCoherent r unique name c = elim (Option-cases (get r.names unique)) [
    | inl e ↦ rw (e, Router.request_name_for_unique) c
    | inr (id, e) ↦
        rw (e, Router.request_name_for_unique)
          (request_name-IsCoherent r id name c (c.owners unique id e))
  ]

  release_name_for_unique-IsCoherent :
      (r : Router Sender) (unique name : BusName)
      → IsCoherent r
      → IsCoherent (Router.release_name_for_unique r unique name).0
  unfolding Router.release_name_for_unique
  release_name_for_unique-IsCoherent r unique name c = elim (Option-cases (get r.names unique)) [
    | inl e ↦ rw (e, Router.release_name_for_unique) c
    | inr (id, e) ↦
        rw (e, Router.release_name_for_unique) (by_answer id (ensure_peer_attached r id unique))
  ]
    where
      by_answer :
          (id : ℕ) (answer : Result (Unit {0}))
          → IsCoherent (
              (elim answer as (λ x. Router Sender × Result Router.NameChange) [
                | err e ↦ (r, err e)
                | ok d ↦ Router.release_name r id name
              ]).0)
      by_answer id (err e) = c
      by_answer id (ok d) = release_name-IsCoherent r id name c

  set_attestation_for_unique-IsCoherent :
      (r : Router Sender) (unique : BusName) (a : Attestation)
      → IsCoherent r
      → IsCoherent (Router.set_attestation_for_unique r unique a)
  unfolding Router.set_attestation_for_unique Router.set_attestation
  set_attestation_for_unique-IsCoherent r unique a c = elim (Option-cases (get r.names unique)) [
    | inl e ↦ rw (e, Router.set_attestation_for_unique) c
    | inr (id, e) ↦
        rw (e, Router.set_attestation_for_unique)
          (update-IsCoherent _ id _ (λ p. refl) (update-IsCoherent r id _ (λ p. refl) c))
  ]

  pub Step-IsCoherent :
      {heap : Heap} {r : Router Sender} {heap' : Heap} {r' : Router Sender}
      → Step heap r heap' r'
      → IsCoherent r
      → IsCoherent r'
  unfolding Router.revoke_callbacks_for_peer Router.set_manifest Router.add_match
      Router.remove_match Router.set_attestation Resolve.revoke_host_callbacks
  Step-IsCoherent (Step.attach heap r outbox room) c = attach-IsCoherent r outbox c room
  Step-IsCoherent (Step.detach heap r id) c = detach-IsCoherent heap r id c
  Step-IsCoherent (Step.detach_unique heap r name) c = detach_unique-IsCoherent heap r name c
  Step-IsCoherent (Step.revoke_callbacks_for_peer heap r peer) c = same-IsCoherent r _ c
  Step-IsCoherent (Step.request_name heap r id name here) c =
      request_name-IsCoherent r id name c here
  Step-IsCoherent (Step.request_name_for_unique heap r u name) c =
      request_name_for_unique-IsCoherent r u name c
  Step-IsCoherent (Step.release_name heap r id name) c = release_name-IsCoherent r id name c
  Step-IsCoherent (Step.release_name_for_unique heap r u name) c =
      release_name_for_unique-IsCoherent r u name c
  Step-IsCoherent (Step.set_manifest heap r id manifest) c = update-IsCoherent r id _ (λ p. refl) c
  Step-IsCoherent (Step.add_match heap r id rule) c = update-IsCoherent r id _ (λ p. refl) c
  Step-IsCoherent (Step.remove_match heap r id rule) c = update-IsCoherent r id _ (λ p. refl) c
  Step-IsCoherent (Step.set_attestation heap r id a) c = update-IsCoherent r id _ (λ p. refl) c
  Step-IsCoherent (Step.set_attestation_for_unique heap r u a) c =
      set_attestation_for_unique-IsCoherent r u a c
  Step-IsCoherent (Step.add_host_callbacks heap r after capability e) c =
      rw (add_host_callbacks-keeps heap r after capability e) (same-IsCoherent r _ c)
  Step-IsCoherent (Step.revoke_host_callbacks heap r capability) c = same-IsCoherent r _ c
  Step-IsCoherent (Step.scopes heap later r) c = c

  -- Every table that any sequence of the operations reaches from a coherent one is coherent: no
  -- peer and no name is listed twice, each owner of a name is attached, each peer has the unique
  -- name of its id and owns it, a unique name belongs only to its own id, and no id is above the
  -- 64-bit counter; a name is claimed only for an attached id, and an attach finds room in the
  -- counter.
  pub Steps-IsCoherent :
      {heap : Heap} {r : Router Sender} {heap' : Heap} {r' : Router Sender}
      → Steps heap r heap' r'
      → IsCoherent r
      → IsCoherent r'
  Steps-IsCoherent (Steps.done heap r) c = c
  Steps-IsCoherent (Steps.then h0 r0 h1 r1 h2 r2 before last) c =
      Step-IsCoherent last (Steps-IsCoherent before c)
