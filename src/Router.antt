-- ===== src/Router.antt =====
-- crates/tinybus/src/router.rs: the routing table. An outbox (`mpsc::Sender`) is a value of the
-- parameter `Sender`; every operation takes the table and gives the table it leaves.
pub mod Tests
pub mod Rule
pub mod Callbacks
pub mod Resolve
pub mod Laws
pub mod Coherent
pub mod Reach
pub mod Reuse
pub mod Secrets
pub mod Signals
pub mod Detach
use tinybus.Prelude.{
  ℕ, ◌+◌, ◌%◌, Bool, true, false, not, ◌&&◌, ◌||◌, Option, none, some, List, [], ◌∷◌, ◌++◌, map,
  Map, get, insert, remove, update, contains_key, is_some, is_some_and, and_then, ◌==◌, ◌!=◌,
  option_eq, nat_eq, if◌then◌else◌, filter, any, list_eq,
}
use mathlib.Core.Option
use tinybus.Text.{Str, txt}
use tinybus.Text.Decimal.{u64_size}
use tinybus.Name.Types.{BusName, bus_name_eq}
use tinybus.Name.BusName.{unique, is_unique}
use tinybus.Error.{Error, Result, ok, err, ◌>>=◌, ◌>>◌, refuse_if, ok_or, failed}
use tinybus.Version.{PeerManifest}
use tinybus.Router.Rule.{MatchRule, rule_eq}
use tinybus.Router.Callbacks.{Heap, includes_peer, revoke_at}

-- `Attestation` of crates/tinybus/src/attest.rs.
pub record Attestation : Type 0 where
  pub name : BusName
  pub sha256 : Str
  pub library_sha256 : Option Str

pub record Peer (Sender : Type 0) : Type 0 where
  pub unique : BusName
  pub outbox : Sender
  pub matches : List MatchRule
  pub manifest : Option PeerManifest
  pub attestations : Map BusName Attestation
  pub admitted_artifact : Option Attestation

pub record Router (Sender : Type 0) : Type 0 where
  pub peers : Map ℕ (Peer Sender)
  pub names : Map BusName ℕ
  pub next_id : ℕ
  pub host_callbacks : List ℕ

pub record NameChange : Type 0 where
  pub name : BusName
  pub old_owner : Option BusName
  pub new_owner : Option BusName

-- `crate::BUS_NAME`
abbrev pub bus_name : BusName
bus_name = record { text = txt "ai.tinyhumans.tinybus.Bus" }

-- The names of `names` that belong to `id`, in the order of the table.
unfoldable pub owned_by : ℕ → Map BusName ℕ → List BusName
owned_by id [] = []
owned_by id ((name, owner) ∷ names) =
    let rest = owned_by id names in if owner == id then name ∷ rest else rest

-- `host_callbacks.retain(…)` with the revocations that it makes.
unfoldable pub revoke_including : BusName → Heap → List ℕ → Heap × List ℕ
revoke_including peer heap [] = (heap, [])
revoke_including peer heap (c ∷ cs) =
    let hit = revoke_including peer (revoke_at heap c) cs in
    let (after, kept) = revoke_including peer heap cs in
    if includes_peer (heap c) peer then hit else (after, c ∷ kept)

-- The loop that removes the names of a detached peer.
unfoldable pub release_all :
    BusName → List BusName → Map BusName ℕ → Map BusName ℕ × List NameChange
release_all peer [] names = (names, [])
release_all peer (name ∷ rest) names =
    let (left, changes) = release_all peer rest (remove names name) in
    (left, record { name = name; old_owner = some peer; new_owner = none } ∷ changes)

module _ {Sender : Type 0} where
  unfoldable pub owner_of : Router Sender → BusName → Option BusName
  owner_of r name = and_then (get r.names name) (λ id. Option.map (λ p. p.unique) (get r.peers id))

  unfoldable pub unique_of : Router Sender → ℕ → Result BusName
  unique_of r id =
      ok_or (Option.map (λ p. p.unique) (get r.peers id))
        (Error.transport (txt "peer detached mid-operation"))

  unfoldable pub has_unique_peer : Router Sender → BusName → Bool
  has_unique_peer r name =
      is_some_and (and_then (get r.names name) (λ id. get r.peers id)) (λ peer. peer.unique == name)

  unfoldable pub ensure_peer_attached : Router Sender → ℕ → BusName → Result (Unit {0})
  ensure_peer_attached r id name =
      let attached =
        get r.names name == some id && is_some_and (get r.peers id) (λ peer. peer.unique == name) in
      if attached then ok tt else err (Error.name_has_no_owner name)

  abbrev pub new_peer : ℕ → Sender → Peer Sender
  new_peer id outbox = record {
    unique = unique id;
    outbox = outbox;
    matches = [];
    manifest = none;
    attestations = [];
    admitted_artifact = none;
  }

  unfoldable pub attach : Router Sender → Sender → Router Sender × (ℕ × BusName)
  attach r outbox =
      let id = (r.next_id + 1) % u64_size in
      (
        record r {
          next_id = id;
          peers = insert r.peers id (new_peer id outbox);
          names = insert r.names (unique id) id;
        },
        (id, unique id),
      )

  unfoldable pub detach : Heap → Router Sender → ℕ → Heap × (Router Sender × List NameChange)
  detach heap r id = elim (get r.peers id) [
    | none ↦ (heap, (r, []))
    | some peer ↦
        let (after, kept) = revoke_including peer.unique heap r.host_callbacks in
        let (left, changes) = release_all peer.unique (owned_by id r.names) r.names in
        (
          after,
          (record r { peers = remove r.peers id; names = left; host_callbacks = kept }, changes),
        )
  ]

  unfoldable pub detach_unique :
      Heap → Router Sender → BusName → Heap × (Router Sender × List NameChange)
  unfolding detach
  detach_unique heap r name = elim (get r.names name) [
    | some id ↦ detach heap r id
    | none ↦ (heap, (r, []))
  ]

  unfoldable pub revoke_callbacks_for_peer : Heap → Router Sender → BusName → Heap × Router Sender
  revoke_callbacks_for_peer heap r peer =
      let (after, kept) = revoke_including peer heap r.host_callbacks in
      (after, record r { host_callbacks = kept })

  unfoldable pub request_name : Router Sender → ℕ → BusName → Router Sender × Result NameChange
  unfolding unique_of
  request_name r id name =
      if is_unique name
      then (r, err (Error.protocol (txt "a unique name cannot be requested")))
      else if name == bus_name
      then (r, err (Error.protocol (txt "the bus's own name is reserved")))
      else elim (get r.names name) [
        | some owner ↦
            if owner == id
            then (
              r,
              (do
                old ← unique_of r id
                new ← unique_of r id
                ok (record { name = name; old_owner = some old; new_owner = some new })),
            )
            else (r, (unique_of r owner >>= λ owner. err (Error.name_taken name owner)))
        | none ↦ (
          record r { names = insert r.names name id },
          (unique_of r id >>= λ u.
              ok (record { name = name; old_owner = none; new_owner = some u })),
        )
      ]

  unfoldable pub request_name_for_unique :
      Router Sender → BusName → BusName → Router Sender × Result NameChange
  unfolding request_name
  request_name_for_unique r unique name = elim (get r.names unique) [
    | none ↦ (r, err (Error.name_has_no_owner unique))
    | some id ↦ request_name r id name
  ]

  unfoldable pub release_name : Router Sender → ℕ → BusName → Router Sender × Result NameChange
  unfolding unique_of
  release_name r id name =
      if is_unique name
      then (r, err (Error.protocol (txt "a unique name cannot be released")))
      else elim (get r.names name) [
        | some owner ↦
            if owner == id
            then (
              record r { names = remove r.names name },
              (unique_of r id >>= λ u.
                  ok (record { name = name; old_owner = some u; new_owner = none })),
            )
            else (r, (unique_of r owner >>= λ owner. err (Error.name_taken name owner)))
        | none ↦ (r, err (Error.name_has_no_owner name))
      ]

  unfoldable pub release_name_for_unique :
      Router Sender → BusName → BusName → Router Sender × Result NameChange
  unfolding release_name ensure_peer_attached
  release_name_for_unique r unique name = elim (get r.names unique) [
    | none ↦ (r, err (Error.name_has_no_owner unique))
    | some id ↦ elim (ensure_peer_attached r id unique) [
      | err e ↦ (r, err e)
      | ok done ↦ release_name r id name
    ]
  ]

  abbrev with_peer : Router Sender → ℕ → (Peer Sender → Peer Sender) → Router Sender
  with_peer r id f = record r { peers = update r.peers id f }

  unfoldable pub set_manifest : Router Sender → ℕ → PeerManifest → Router Sender
  set_manifest r id manifest = with_peer r id (λ peer. record peer { manifest = some manifest })

  unfoldable pub manifest_of : Router Sender → BusName → Option PeerManifest
  manifest_of r name =
      and_then (get r.names name) (λ id. and_then (get r.peers id) (λ peer. peer.manifest))

  unfoldable pub add_match : Router Sender → ℕ → MatchRule → Router Sender
  add_match r id rule =
      with_peer r id (λ peer. record peer { matches = peer.matches ++ (rule ∷ []) })

  unfoldable pub remove_match : Router Sender → ℕ → MatchRule → Router Sender
  remove_match r id rule =
      with_peer r id (λ peer. record peer { matches = filter (λ m. m != rule) peer.matches })

  unfoldable pub set_attestation : Router Sender → ℕ → Attestation → Router Sender
  set_attestation r id a =
      with_peer r id (λ peer. record peer { attestations = insert peer.attestations a.name a })

  unfoldable pub set_attestation_for_unique : Router Sender → BusName → Attestation → Router Sender
  unfolding set_attestation
  set_attestation_for_unique r unique a = elim (get r.names unique) [
    | none ↦ r
    | some id ↦
        set_attestation (with_peer r id (λ peer. record peer { admitted_artifact = some a })) id a
  ]

  unfoldable pub attestation_of : Router Sender → BusName → Option Attestation
  attestation_of r name = and_then (get r.names name) (λ id.
      and_then (get r.peers id)
        (λ peer. if is_unique name then peer.admitted_artifact else get peer.attestations name))
