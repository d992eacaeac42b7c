-- ===== src/Router/Coherent.antt =====
-- The routing table of crates/tinybus/src/router.rs: what every operation keeps, and that it keeps it.
use tinybus.Prelude.{
  ℕ, ◌+◌, ◌%◌, ◌≤◌, ◌<◌, ◌≡◌, refl, ap, true, false, none, some, List, [], arith, get, insert,
  remove, update, get-remove, get-insert, get-update, IsDistinct, insert-IsDistinct,
  remove-IsDistinct, update-IsDistinct, ◌==◌, ◌!=◌, ◌||◌, eq_iff, option_eq, nat_eq, if◌then◌else◌,
  Bool-cases, Option-cases, inl, inr, is_some,
}
use tinybus.Text.Decimal.{u64_size}
use tinybus.Name.Types.{BusName, bus_name_eq}
use tinybus.Name.BusName.{unique, is_unique}
use tinybus.Name.BusName.Grammar.{unique_inj, new-unique}
use tinybus.Router.{
  Peer, Router, bus_name, new_peer, attach, detach, request_name, release_name, owned_by,
  release_all, revoke_including,
}
use tinybus.Router.Callbacks.{Heap}
use tinybus.Router.Laws.{
  get-left, unique-is_unique, request_name-leaves, release_name-leaves, release_all-IsDistinct,
}

pub record IsCoherent {Sender : Type 0} (r : Router Sender) : Type 0 where
  pub distinct_peers : IsDistinct r.peers
  pub distinct_names : IsDistinct r.names
  -- Each owner is attached.
  pub owners : (n : BusName) (id : ℕ) → get r.names n ≡ some id → is_some (get r.peers id) ≡ true
  -- Each peer has the unique name of its id, and owns it.
  pub identities : (id : ℕ) (p : Peer Sender) → get r.peers id ≡ some p → p.unique ≡ unique id
  pub own : (id : ℕ) → is_some (get r.peers id) ≡ true → get r.names (unique id) ≡ some id
  -- A name with a colon is the unique name of its owner.
  pub unique_names :
      (n : BusName) (id : ℕ) → get r.names n ≡ some id → is_unique n ≡ true → n ≡ unique id
  -- Ids are taken in order, and none is above the counter.
  pub minted : (id : ℕ) → is_some (get r.peers id) ≡ true → id ≤ r.next_id
  pub counter : r.next_id < u64_size

pub empty-IsCoherent :
    {Sender : Type 0}
    → IsCoherent {Sender = Sender}
        (record { peers = []; names = []; next_id = 0; host_callbacks = [] })
unfolding get
empty-IsCoherent = record {
  distinct_peers = tt;
  distinct_names = tt;
  owners = λ n id e. cc;
  identities = λ id p e. cc;
  own = λ id e. cc;
  unique_names = λ n id e u. cc;
  minted = λ id e. cc;
  counter = omega arith;
}

module _ {Sender : Type 0} where
  fresh-unique :
      (r : Router Sender) (id : ℕ)
      → IsCoherent r
      → r.next_id < id
      → id < u64_size
      → get r.names (unique id) ≡ none
  fresh-unique r id c above h = elim (Option-cases (get r.names (unique id))) [
    | inl e ↦ e
    | inr (j, e) ↦
        let same = c.unique_names (unique id) j e (new-unique id h).1 in
        let low = c.minted j (c.owners (unique id) j e) in
        absurd (omega (arith, unique_inj id j h (omega (arith, low, c.counter)) same, low, above))
  ]

  fresh-id : (r : Router Sender) (id : ℕ) → IsCoherent r → r.next_id < id → get r.peers id ≡ none
  fresh-id r id c above = elim (Option-cases (get r.peers id)) [
    | inl e ↦ e
    | inr (p, e) ↦ absurd (omega (arith, c.minted id (ap is_some e), above))
  ]

  joined : Router Sender → ℕ → Peer Sender → Router Sender
  joined r id p = record r {
    next_id = id;
    peers = insert r.peers id p;
    names = insert r.names (unique id) id;
  }

  joined-IsCoherent :
      (r : Router Sender) (id : ℕ) (p : Peer Sender)
      → IsCoherent r
      → r.next_id < id
      → id < u64_size
      → p.unique ≡ unique id
      → IsCoherent (joined r id p)
  unfolding joined
  joined-IsCoherent r id p c above h named = record {
    distinct_peers = insert-IsDistinct r.peers id p c.distinct_peers;
    distinct_names = insert-IsDistinct r.names (unique id) id c.distinct_names;
    owners = λ n j e. ground (
      arith,
      get-insert r.peers id j p,
      get-insert r.names (unique id) n id,
      c.owners n j,
      eq_iff id j,
      eq_iff (unique id) n,
      e,
    );
    identities =
        λ j q e. ground (arith, get-insert r.peers id j p, c.identities j q, eq_iff id j, named, e);
    own = λ j e. ground (
      arith,
      get-insert r.peers id j p,
      get-insert r.names (unique id) (unique j) id,
      c.own j,
      fresh-unique r id c above h,
      eq_iff (unique id) (unique j),
      eq_iff id j,
      e,
    );
    unique_names = λ n j e u. ground (
      arith,
      get-insert r.names (unique id) n id,
      c.unique_names n j,
      eq_iff (unique id) n,
      e,
      u,
    );
    minted = λ j e. ground (arith, get-insert r.peers id j p, c.minted j, eq_iff id j, e, above);
    counter = h;
  }

  pub attach-IsCoherent :
      (r : Router Sender) (outbox : Sender)
      → IsCoherent r
      → r.next_id + 1 < u64_size
      → IsCoherent (attach r outbox).0
  unfolding attach joined
  attach-IsCoherent r outbox c h =
      joined-IsCoherent r ((r.next_id + 1) % u64_size)
        (new_peer ((r.next_id + 1) % u64_size) outbox) c (omega arith) (omega arith) refl

  parted : Router Sender → ℕ → BusName → List ℕ → Router Sender
  parted r id p kept = record r {
    peers = remove r.peers id;
    names = (release_all p (owned_by id r.names) r.names).0;
    host_callbacks = kept;
  }

  parted-IsCoherent :
      (r : Router Sender) (id : ℕ) (p : BusName) (kept : List ℕ)
      → IsCoherent r
      → IsCoherent (parted r id p kept)
  unfolding parted
  parted-IsCoherent r id p kept c = record {
    distinct_peers = remove-IsDistinct r.peers id c.distinct_peers;
    distinct_names = release_all-IsDistinct p (owned_by id r.names) r.names c.distinct_names;
    owners = λ n j e.
        ground (arith, left n, get-remove r.peers id j, c.owners n j, eq_iff j id, eq_iff id j, e);
    identities = λ j q e. ground (arith, get-remove r.peers id j, c.identities j q, e);
    own = λ j e.
        ground
          (arith, left (unique j), get-remove r.peers id j, c.own j, eq_iff j id, eq_iff id j, e);
    unique_names = λ n j e u. ground (arith, left n, c.unique_names n j, e, u);
    minted = λ j e. ground (arith, get-remove r.peers id j, c.minted j, e);
    counter = c.counter;
  }
    where
      left :
          (n : BusName)
          → get (release_all p (owned_by id r.names) r.names).0 n
            ≡ (if get r.names n == some id then none else get r.names n)
      left n = get-left p id r.names n c.distinct_names

  pub detach-IsCoherent :
      (heap : Heap) (r : Router Sender) (id : ℕ) → IsCoherent r → IsCoherent (detach heap r id).1.0
  unfolding detach parted
  detach-IsCoherent heap r id c = elim (Option-cases (get r.peers id)) [
    | inl e ↦ rw (e, detach) c
    | inr (p, e) ↦
        rw (e, detach)
          (parted-IsCoherent r id p.unique (revoke_including p.unique heap r.host_callbacks).1 c)
  ]

  claimed-IsCoherent :
      (r : Router Sender) (id : ℕ) (n : BusName)
      → IsCoherent r
      → is_some (get r.peers id) ≡ true
      → is_unique n ≡ false
      → IsCoherent (record r { names = insert r.names n id })
  claimed-IsCoherent r id n c here plain = record {
    distinct_peers = c.distinct_peers;
    identities = c.identities;
    minted = c.minted;
    counter = c.counter;
    distinct_names = insert-IsDistinct r.names n id c.distinct_names;
    owners = λ m j e. ground (arith, get-insert r.names n m id, c.owners m j, e, here);
    own = λ j e. ground (
      arith,
      get-insert r.names n (unique j) id,
      c.own j,
      e,
      eq_iff n (unique j),
      unique-is_unique j,
      plain,
    );
    unique_names = λ m j e u.
        ground (arith, get-insert r.names n m id, c.unique_names m j, e, u, eq_iff n m, plain);
  }

  pub request_name-IsCoherent :
      (r : Router Sender) (id : ℕ) (n : BusName)
      → IsCoherent r
      → is_some (get r.peers id) ≡ true
      → IsCoherent (request_name r id n).0
  request_name-IsCoherent r id n c here =
      rw (request_name-leaves r id n)
        (elim (Bool-cases (is_unique n || n == bus_name || is_some (get r.names n))) [
          | inl y ↦ rw y c
          | inr free ↦ rw free (claimed-IsCoherent r id n c here (ground (arith, free)))
        ])

  released-IsCoherent :
      (r : Router Sender) (n : BusName)
      → IsCoherent r
      → is_unique n ≡ false
      → IsCoherent (record r { names = remove r.names n })
  released-IsCoherent r n c plain = record {
    distinct_peers = c.distinct_peers;
    identities = c.identities;
    minted = c.minted;
    counter = c.counter;
    distinct_names = remove-IsDistinct r.names n c.distinct_names;
    owners = λ m j e. ground (arith, get-remove r.names n m, c.owners m j, e);
    own = λ j e. ground (
      arith,
      get-remove r.names n (unique j),
      c.own j,
      e,
      eq_iff n (unique j),
      unique-is_unique j,
      plain,
    );
    unique_names = λ m j e u. ground (arith, get-remove r.names n m, c.unique_names m j, e, u);
  }

  pub release_name-IsCoherent :
      (r : Router Sender) (id : ℕ) (n : BusName) → IsCoherent r → IsCoherent (release_name r id n).0
  release_name-IsCoherent r id n c =
      rw (release_name-leaves r id n) (elim (Bool-cases (is_unique n || get r.names n != some id)) [
        | inl y ↦ rw y c
        | inr free ↦ rw free (released-IsCoherent r n c (ground (arith, free)))
      ])

  -- Any change to one peer that keeps its unique name.
  pub update-IsCoherent :
      (r : Router Sender) (id : ℕ) (f : Peer Sender → Peer Sender)
      → ((p : Peer Sender) → (f p).unique ≡ p.unique)
      → IsCoherent r
      → IsCoherent (record r { peers = update r.peers id f })
  update-IsCoherent r id f keeps c = record {
    distinct_names = c.distinct_names;
    unique_names = c.unique_names;
    counter = c.counter;
    distinct_peers = update-IsDistinct r.peers id f c.distinct_peers;
    owners = λ n j e.
        ground (arith, get-update r.peers id j f, c.owners n j, e, Option-cases (get r.peers j));
    identities = λ j q e. elim (Option-cases (get r.peers j)) [
      | inl gone ↦ ground (arith, get-update r.peers id j f, e, gone)
      | inr (p, y) ↦ ground (arith, get-update r.peers id j f, e, y, keeps p, c.identities j p)
    ];
    own =
        λ j e. ground (arith, get-update r.peers id j f, c.own j, e, Option-cases (get r.peers j));
    minted = λ j e.
        ground (arith, get-update r.peers id j f, c.minted j, e, Option-cases (get r.peers j));
  }
