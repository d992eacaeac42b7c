-- ===== src/Router/Reuse.antt =====
-- Ids and unique names of crates/tinybus/src/router.rs are never used again.
use tinybus.Prelude.{
  ℕ, ◌+◌, ◌%◌, ◌≤◌, ◌≡◌, none, some, arith, get, get-insert, get-remove, get-update, update, nat_eq,
  eq_iff, Option-cases, inl, inr,
}
use tinybus.Text.Decimal.{u64_size}
use tinybus.Name.Types.{BusName, bus_name_eq}
use tinybus.Name.BusName.{unique}
use tinybus.Name.BusName.Grammar.{unique_inj}
use tinybus.Error.{Result, ok, err}
use tinybus.Router
use tinybus.Router.{Peer, Router, ensure_peer_attached}
use tinybus.Router.Callbacks.{Heap}
use tinybus.Router.Resolve
use tinybus.Router.Laws.{request_name-leaves, release_name-leaves, unique-is_unique}
use tinybus.Router.Coherent.{IsCoherent}
use tinybus.Router.Reach.{Step, Steps, Steps-IsCoherent, add_host_callbacks-keeps}

-- The id was given out, and its connection is no longer attached.
abbrev pub IsGone : {Sender : Type 0} → ℕ → Router Sender → Type 0
IsGone id r = (get r.peers id ≡ none) × (id ≤ r.next_id)

module _ {Sender : Type 0} where
  detach-IsGone :
      (heap : Heap) (r : Router Sender) (j id : ℕ)
      → IsGone id r
      → IsGone id (Router.detach heap r j).1.0
  unfolding Router.detach
  detach-IsGone heap r j id g = elim (Option-cases (get r.peers j)) [
    | inl e ↦ rw (e, Router.detach) g
    | inr (p, e) ↦ rw (e, Router.detach) (ground (arith, get-remove r.peers j id, g), g.1)
  ]

  detach_unique-IsGone :
      (heap : Heap) (r : Router Sender) (name : BusName) (id : ℕ)
      → IsGone id r
      → IsGone id (Router.detach_unique heap r name).1.0
  unfolding Router.detach_unique
  detach_unique-IsGone heap r name id g = elim (Option-cases (get r.names name)) [
    | inl e ↦ rw (e, Router.detach_unique) g
    | inr (j, e) ↦ rw (e, Router.detach_unique) (detach-IsGone heap r j id g)
  ]

  request_name-IsGone :
      (r : Router Sender) (j : ℕ) (name : BusName) (id : ℕ)
      → IsGone id r
      → IsGone id (Router.request_name r j name).0
  request_name-IsGone r j name id g = rw (request_name-leaves r j name) (ground (arith, g))

  release_name-IsGone :
      (r : Router Sender) (j : ℕ) (name : BusName) (id : ℕ)
      → IsGone id r
      → IsGone id (Router.release_name r j name).0
  release_name-IsGone r j name id g = rw (release_name-leaves r j name) (ground (arith, g))

  request_name_for_unique-IsGone :
      (r : Router Sender) (u name : BusName) (id : ℕ)
      → IsGone id r
      → IsGone id (Router.request_name_for_unique r u name).0
  unfolding Router.request_name_for_unique
  request_name_for_unique-IsGone r u name id g = elim (Option-cases (get r.names u)) [
    | inl e ↦ rw (e, Router.request_name_for_unique) g
    | inr (j, e) ↦ rw (e, Router.request_name_for_unique) (request_name-IsGone r j name id g)
  ]

  release_name_for_unique-IsGone :
      (r : Router Sender) (u name : BusName) (id : ℕ)
      → IsGone id r
      → IsGone id (Router.release_name_for_unique r u name).0
  unfolding Router.release_name_for_unique
  release_name_for_unique-IsGone r u name id g = elim (Option-cases (get r.names u)) [
    | inl e ↦ rw (e, Router.release_name_for_unique) g
    | inr (j, e) ↦ rw (e, Router.release_name_for_unique) (by_answer j (ensure_peer_attached r j u))
  ]
    where
      by_answer :
          (j : ℕ) (answer : Result (Unit {0}))
          → IsGone id (
              (elim answer as (λ x. Router Sender × Result Router.NameChange) [
                | err e ↦ (r, err e)
                | ok d ↦ Router.release_name r j name
              ]).0)
      by_answer j (err e) = g
      by_answer j (ok d) = release_name-IsGone r j name id g

  update-IsGone :
      (r : Router Sender) (j id : ℕ) (f : Peer Sender → Peer Sender)
      → IsGone id r
      → IsGone id (record r { peers = update r.peers j f })
  update-IsGone r j id f g = (ground (arith, get-update r.peers j id f, g), g.1)

  set_attestation_for_unique-IsGone :
      (r : Router Sender) (u : BusName) (a : Router.Attestation) (id : ℕ)
      → IsGone id r
      → IsGone id (Router.set_attestation_for_unique r u a)
  unfolding Router.set_attestation_for_unique Router.set_attestation
  set_attestation_for_unique-IsGone r u a id g = elim (Option-cases (get r.names u)) [
    | inl e ↦ rw (e, Router.set_attestation_for_unique) g
    | inr (j, e) ↦
        rw (e, Router.set_attestation_for_unique)
          (update-IsGone (Router.with_peer r j (λ p. record p { admitted_artifact = some a })) j id
            _ (update-IsGone r j id _ g))
  ]

  pub Step-IsGone :
      {heap : Heap} {r : Router Sender} {heap' : Heap} {r' : Router Sender} (id : ℕ)
      → Step heap r heap' r'
      → IsGone id r
      → IsGone id r'
  unfolding Router.attach Router.revoke_callbacks_for_peer Router.set_manifest Router.add_match
      Router.remove_match Router.set_attestation Resolve.revoke_host_callbacks
  Step-IsGone id (Step.attach heap r outbox room) g = (
    ground (
      arith,
      get-insert r.peers ((r.next_id + 1) % u64_size) id
          (Router.new_peer ((r.next_id + 1) % u64_size) outbox),
      g,
      room,
      eq_iff ((r.next_id + 1) % u64_size) id,
    ),
    ground (arith, g, room),
  )
  Step-IsGone id (Step.detach heap r j) g = detach-IsGone heap r j id g
  Step-IsGone id (Step.detach_unique heap r name) g = detach_unique-IsGone heap r name id g
  Step-IsGone id (Step.revoke_callbacks_for_peer heap r peer) g = g
  Step-IsGone id (Step.request_name heap r j name here) g = request_name-IsGone r j name id g
  Step-IsGone id (Step.request_name_for_unique heap r u name) g =
      request_name_for_unique-IsGone r u name id g
  Step-IsGone id (Step.release_name heap r j name) g = release_name-IsGone r j name id g
  Step-IsGone id (Step.release_name_for_unique heap r u name) g =
      release_name_for_unique-IsGone r u name id g
  Step-IsGone id (Step.set_manifest heap r j manifest) g = update-IsGone r j id _ g
  Step-IsGone id (Step.add_match heap r j rule) g = update-IsGone r j id _ g
  Step-IsGone id (Step.remove_match heap r j rule) g = update-IsGone r j id _ g
  Step-IsGone id (Step.set_attestation heap r j a) g = update-IsGone r j id _ g
  Step-IsGone id (Step.set_attestation_for_unique heap r u a) g =
      set_attestation_for_unique-IsGone r u a id g
  Step-IsGone id (Step.add_host_callbacks heap r after capability e) g =
      rw (add_host_callbacks-keeps heap r after capability e) g
  Step-IsGone id (Step.revoke_host_callbacks heap r capability) g = g
  Step-IsGone id (Step.scopes heap later r) g = g

  Steps-IsGone :
      {heap : Heap} {r : Router Sender} {heap' : Heap} {r' : Router Sender} (id : ℕ)
      → Steps heap r heap' r'
      → IsGone id r
      → IsGone id r'
  Steps-IsGone id (Steps.done heap r) g = g
  Steps-IsGone id (Steps.then h0 r0 h1 r1 h2 r2 before last) g =
      Step-IsGone id last (Steps-IsGone id before g)

  -- A connection whose id was given out by a coherent table and is no longer attached never comes
  -- back: whatever steps follow, its id is attached to no peer, and its unique name has no owner.
  pub gone-names :
      {heap : Heap} {r : Router Sender} {heap' : Heap} {r' : Router Sender} (id : ℕ)
      → IsCoherent r
      → IsGone id r
      → Steps heap r heap' r'
      → (get r'.peers id ≡ none) × (get r'.names (unique id) ≡ none)
  gone-names {heap} {r} {heap'} {r'} id c g steps =
      let later = Steps-IsGone id steps g in
      let c' = Steps-IsCoherent steps c in
      (
        later.0,
        elim (Option-cases (get r'.names (unique id))) [
          | inl e ↦ e
          | inr (j, e) ↦
              let here = c'.owners (unique id) j e in
              let low = c'.minted j here in
              let same =
                unique_inj id j (omega (arith, later.1, c'.counter))
                  (omega (arith, low, c'.counter))
                  (c'.unique_names (unique id) j e (unique-is_unique id)) in
              absurd (ground (arith, here, later.0, same))
        ],
      )
