-- ===== src/Router/Laws.antt =====
-- What the operations of crates/tinybus/src/router.rs do to the owner of each name.
use tinybus.Prelude.{
  ℕ, ◌≡◌, refl, true, ◌||◌, none, some, List, [], ◌∷◌, arith, Map, get, insert, remove, get-remove,
  IsDistinct, remove-IsDistinct, ◌==◌, ◌!=◌, eq_iff, option_eq, nat_eq, if◌then◌else◌, any, is_some,
}
use tinybus.Text.{starts_with}
use tinybus.Name.Types.{BusName, bus_name_eq}
use tinybus.Name.BusName.{unique, is_unique}
use tinybus.Router.{
  Peer, Router, owned_by, release_all, detach, request_name, release_name, bus_name,
}
use tinybus.Router.Callbacks.{Heap}

-- The names that the loop removes, and no other.
pub get-release_all :
    (p n : BusName) (l : List BusName) (names : Map BusName ℕ)
    → get (release_all p l names).0 n ≡ (if any (λ m. m == n) l then none else get names n)
unfolding release_all
get-release_all p n [] names = ground arith
get-release_all p n (m ∷ l) names =
    ground (arith, get-release_all p n l (remove names m), get-remove names m n)

pub owned_by-get :
    (id : ℕ) (names : Map BusName ℕ) (n : BusName)
    → IsDistinct names
    → any (λ m. m == n) (owned_by id names) ≡ (get names n == some id)
unfolding owned_by get
owned_by-get id [] n h = ground arith
owned_by-get id ((m, owner) ∷ names) n (e, h) =
    ground (arith, owned_by-get id names n h, eq_iff m n, eq_iff owner id, e)

pub release_all-IsDistinct :
    (p : BusName) (l : List BusName) (names : Map BusName ℕ)
    → IsDistinct names
    → IsDistinct (release_all p l names).0
unfolding release_all
release_all-IsDistinct p [] names h = h
release_all-IsDistinct p (m ∷ l) names h =
    release_all-IsDistinct p l (remove names m) (remove-IsDistinct names m h)

-- The table of names that a detach leaves.
pub get-left :
    (p : BusName) (id : ℕ) (names : Map BusName ℕ) (n : BusName)
    → IsDistinct names
    → get (release_all p (owned_by id names) names).0 n
      ≡ (if get names n == some id then none else get names n)
get-left p id names n h =
    ground (arith, get-release_all p n (owned_by id names) names, owned_by-get id names n h)

-- The table of names after a detach.
pub names-detach :
    {Sender : Type 0} (heap : Heap) (r : Router Sender) (id : ℕ) (p : Peer Sender) (n : BusName)
    → IsDistinct r.names
    → get r.peers id ≡ some p
    → get (detach heap r id).1.0.names n
      ≡ (if get r.names n == some id then none else get r.names n)
unfolding detach
names-detach heap r id p n h e = rw (e, detach) (get-left p.unique id r.names n h)

pub unique-is_unique : (id : ℕ) → is_unique (unique id) ≡ true
unfolding unique is_unique starts_with
unique-is_unique id = refl

module _ {Sender : Type 0} where
  -- A claim changes the table only for a free name that is neither unique nor the bus's own.
  pub request_name-leaves :
      (r : Router Sender) (id : ℕ) (n : BusName)
      → (request_name r id n).0 ≡ (
          if is_unique n || n == bus_name || is_some (get r.names n)
          then r
          else record r { names = insert r.names n id })
  unfolding request_name
  request_name-leaves r id n = ground arith

  pub release_name-leaves :
      (r : Router Sender) (id : ℕ) (n : BusName)
      → (release_name r id n).0 ≡ (
          if is_unique n || get r.names n != some id
          then r
          else record r { names = remove r.names n })
  unfolding release_name
  release_name-leaves r id n = ground arith
