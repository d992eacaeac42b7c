-- ===== src/Stream/Registry/Quota.antt =====
-- How many streams one peer may hold in `StreamRegistry` of crates/tinybus/src/stream/mod.rs.
use tinybus.Prelude.{
  ℕ, ◌+◌, ◌-◌, ◌*◌, ◌≤◌, ◌<◌, ◌≡◌, refl, ap, ◌∙◌, inl, inr, Bool, true, not, Option, none, some, [],
  ◌∷◌, arith, Map, get, insert, remove, get-remove, IsDistinct, remove-IsDistinct, leb, ltb, nat_eq,
  ◌==◌, eq_iff, eq_refl, Bool-cases, Option-cases, list_eq, option_eq, if◌then◌else◌, length,
  filter, All,
}
use tinybus.Text.{Str, txt}
use tinybus.Name.Types.{BusName, bus_name_eq}
use tinybus.Stream.Inbound.{StreamLimits, Outcome, Inbound, finish, drop_reader, end_stream}
use tinybus.Stream.Registry.{StreamRegistry, store, reap, owns, evict}
use tinybus.Stream.Registry.Oldest.{IsListed, remove-IsListed}

-- The streams of a table that belong to one peer.
unfoldable pub count_owned : (ℕ → Inbound) → Option BusName → Map Str ℕ → ℕ
count_owned heap owner streams = length (filter (owns heap owner) streams)

abbrev pub held : StreamRegistry → Option BusName → ℕ
held g owner = count_owned g.heap owner g.inbound

-- No operation changes to whom a stream belongs.
abbrev pub IsSameOwners : (ℕ → Inbound) → (ℕ → Inbound) → Type 0
IsSameOwners h h' = (a : ℕ) → (h' a).owner ≡ (h a).owner

pub store-owner :
    (h : ℕ → Inbound) (a : ℕ) (s : Inbound) → s.owner ≡ (h a).owner → IsSameOwners h (store h a s)
store-owner h a s e b = ground (arith, e, eq_iff b a)

count_owned-same :
    (h h' : ℕ → Inbound) (owner : Option BusName) (m : Map Str ℕ)
    → IsSameOwners h h'
    → count_owned h' owner m ≡ count_owned h owner m
unfolding count_owned
count_owned-same h h' owner [] same = refl
count_owned-same h h' owner ((k, a) ∷ m) same =
    ground (arith, same a, count_owned-same h h' owner m same)

count_owned-remove :
    (h : ℕ → Inbound) (owner : Option BusName) (m : Map Str ℕ) (k : Str)
    → count_owned h owner (remove m k) ≤ count_owned h owner m
unfolding count_owned remove
count_owned-remove h owner [] k = ground arith
count_owned-remove h owner ((j, a) ∷ m) k = ground (arith, count_owned-remove h owner m k)

-- Removing a stream that the peer owns makes one less.
count_owned-remove_own :
    (h : ℕ → Inbound) (owner : Option BusName) (m : Map Str ℕ) (k : Str) (a : ℕ)
    → get m k ≡ some a
    → ((h a).owner == owner) ≡ true
    → count_owned h owner (remove m k) + 1 ≤ count_owned h owner m
unfolding count_owned remove get
count_owned-remove_own h owner [] k a e o = ground (arith, e)
count_owned-remove_own h owner ((j, b) ∷ m) k a e o =
    ground (arith, e, o, count_owned-remove h owner m k, count_owned-remove_own h owner m k a)

finish-owner : (s : Inbound) (verdict : Outcome) → (finish s verdict).owner ≡ s.owner
unfolding finish
finish-owner s verdict = ground arith

pub end_stream-owner : (s : Inbound) (reason : Str) → (end_stream s reason).owner ≡ s.owner
unfolding end_stream drop_reader
end_stream-owner s reason = finish-owner s (Outcome.aborted reason)

-- The keys and the addresses that a table leaves are among those that it had.
pub record IsSmaller (h h' : ℕ → Inbound) (m m' : Map Str ℕ) (fresh : ℕ) : Type 0 where
  pub owners : IsSameOwners h h'
  pub fewer : (owner : Option BusName) → count_owned h' owner m' ≤ count_owned h owner m
  pub absent : (k : Str) → get m k ≡ none → get m' k ≡ none
  pub distinct : IsDistinct m → IsDistinct m'
  pub below : All (λ e. e.1 < fresh) m → All (λ e. e.1 < fresh) m'

pub remove-below :
    (m : Map Str ℕ) (k : Str) (fresh : ℕ)
    → All (λ e. e.1 < fresh) m
    → All (λ e. e.1 < fresh) (remove m k)
unfolding remove
remove-below [] k fresh h = tt
remove-below ((j, a) ∷ m) k fresh (p, h) = elim (Bool-cases (j == k)) [
  | inl y ↦ rw y (remove-below m k fresh h)
  | inr n ↦ rw n (p, remove-below m k fresh h)
]

module _ (fresh : ℕ) where
  pub store-IsSmaller :
      (h : ℕ → Inbound) (m : Map Str ℕ) (a : ℕ) (s : Inbound)
      → s.owner ≡ (h a).owner
      → IsSmaller h (store h a s) m m fresh
  store-IsSmaller h m a s e = record {
    owners = store-owner h a s e;
    fewer = λ owner. ground (arith, count_owned-same h (store h a s) owner m (store-owner h a s e));
    absent = λ k p. p;
    distinct = λ d. d;
    below = λ b. b;
  }

  pub remove-IsSmaller :
      (h : ℕ → Inbound) (m : Map Str ℕ) (k : Str) → IsSmaller h h m (remove m k) fresh
  remove-IsSmaller h m k = record {
    owners = λ a. refl;
    fewer = λ owner. count_owned-remove h owner m k;
    absent = λ j p. ground (arith, get-remove m k j, p);
    distinct = remove-IsDistinct m k;
    below = remove-below m k fresh;
  }

  pub trans-IsSmaller :
      (h h' h'' : ℕ → Inbound) (m m' m'' : Map Str ℕ)
      → IsSmaller h h' m m' fresh
      → IsSmaller h' h'' m' m'' fresh
      → IsSmaller h h'' m m'' fresh
  trans-IsSmaller h h' h'' m m' m'' f g = record {
    owners = λ a. g.owners a ∙ f.owners a;
    fewer = λ owner. omega (arith, f.fewer owner, g.fewer owner);
    absent = λ k p. g.absent k (f.absent k p);
    distinct = λ d. g.distinct (f.distinct d);
    below = λ b. g.below (f.below b);
  }

  cons-IsSmaller :
      (h h' : ℕ → Inbound) (m m' : Map Str ℕ) (k : Str) (a : ℕ)
      → IsSmaller h h' m m' fresh
      → IsSmaller h h' ((k, a) ∷ m) ((k, a) ∷ m') fresh
  unfolding count_owned get
  cons-IsSmaller h h' m m' k a f = record {
    owners = f.owners;
    fewer = λ owner. ground (arith, f.fewer owner, f.owners a);
    absent = λ j p. ground (arith, p, f.absent j);
    distinct = λ (e, d). (f.absent k e, f.distinct d);
    below = λ (p, b). (p, f.below b);
  }

  skip-IsSmaller :
      (h h' : ℕ → Inbound) (m m' : Map Str ℕ) (k : Str) (a : ℕ)
      → IsSmaller h h' m m' fresh
      → IsSmaller h h' ((k, a) ∷ m) m' fresh
  unfolding count_owned get
  skip-IsSmaller h h' m m' k a f = record {
    owners = f.owners;
    fewer = λ owner. ground (arith, f.fewer owner);
    absent = λ j p. ground (arith, p, f.absent j);
    distinct = λ (e, d). f.distinct d;
    below = λ (p, b). f.below b;
  }

  pub reap-IsSmaller :
      (limits : StreamLimits) (now : ℕ) (m : Map Str ℕ) (h : ℕ → Inbound)
      → IsSmaller h (reap limits now m h).1 m (reap limits now m h).0 fresh
  unfolding reap
  reap-IsSmaller limits now [] h = record {
    owners = λ a. refl;
    fewer = λ owner. ground arith;
    absent = λ k p. p;
    distinct = λ d. d;
    below = λ b. b;
  }
  reap-IsSmaller limits now ((k, a) ∷ m) h =
      elim (Bool-cases (ltb (now - (h a).last_activity) limits.idle_timeout)) [
        | inl y ↦ rw y (cons-IsSmaller h _ m _ k a (reap-IsSmaller limits now m h))
        | inr n ↦
            let s = end_stream (h a) (txt "the stream went idle and was reaped") in
            rw n (
              trans-IsSmaller h (store h a s) _ ((k, a) ∷ m) ((k, a) ∷ m) _
                (store-IsSmaller h ((k, a) ∷ m) a s
                  (end_stream-owner (h a) (txt "the stream went idle and was reaped")))
                (skip-IsSmaller (store h a s) _ m _ k a
                  (reap-IsSmaller limits now m (store h a s))))
      ]

  pub evict-IsSmaller :
      (ks m : Map Str ℕ) (h : ℕ → Inbound) → IsSmaller h (evict ks m h).1 m (evict ks m h).0 fresh
  unfolding evict
  evict-IsSmaller [] m h = record {
    owners = λ a. refl;
    fewer = λ owner. ground arith;
    absent = λ k p. p;
    distinct = λ d. d;
    below = λ b. b;
  }
  evict-IsSmaller ((k, b) ∷ ks) m h = elim (Option-cases (get m k)) [
    | inl e ↦ rw (e, evict) (evict-IsSmaller ks m h)
    | inr (a, e) ↦
        let s = finish (h a) (Outcome.aborted (txt "the receiver never collected the stream")) in
        rw (e, evict)
          (trans-IsSmaller h (store h a s) _ m (remove m k) _
            (trans-IsSmaller h h (store h a s) m (remove m k) (remove m k) (remove-IsSmaller h m k)
              (store-IsSmaller h (remove m k) a s (
                finish-owner (h a)
                  (Outcome.aborted (txt "the receiver never collected the stream")))))
            (evict-IsSmaller ks (remove m k) (store h a s)))
  ]

All-owned :
    (h h' : ℕ → Inbound) (owner : Option BusName) (ks : Map Str ℕ)
    → IsSameOwners h h'
    → All (λ e. owns h owner e ≡ true) ks
    → All (λ e. owns h' owner e ≡ true) ks
All-owned h h' owner [] same o = tt
All-owned h h' owner ((k, a) ∷ ks) same (p, o) =
    (ground (arith, same a, p), All-owned h h' owner ks same o)

-- Each stream that is removed was one of the peer's own.
pub evict-own :
    (ks m : Map Str ℕ) (h : ℕ → Inbound) (owner : Option BusName)
    → IsDistinct ks
    → All (IsListed m) ks
    → All (λ e. owns h owner e ≡ true) ks
    → count_owned (evict ks m h).1 owner (evict ks m h).0 + length ks ≤ count_owned h owner m
unfolding evict
evict-own [] m h owner d l o = omega arith
evict-own ((k, a) ∷ ks) m h owner (e, d) (f, l) (p, o) =
    let s = finish (h a) (Outcome.aborted (txt "the receiver never collected the stream")) in
    let same =
      store-owner h a s
        (finish-owner (h a) (Outcome.aborted (txt "the receiver never collected the stream"))) in
    let rest =
      evict-own ks (remove m k) (store h a s) owner d (remove-IsListed m ks k e l)
        (All-owned h (store h a s) owner ks same o) in
    let less = count_owned-remove_own h owner m k a f p in
    rw (f, evict)
      (omega (arith, rest, less, count_owned-same h (store h a s) owner (remove m k) same))

pub filter-holds : (p : Str × ℕ → Bool) (m : Map Str ℕ) → All (λ e. p e ≡ true) (filter p m)
filter-holds p [] = tt
filter-holds p (e ∷ m) = elim (Bool-cases (p e)) [
  | inl y ↦ rw y (y, filter-holds p m)
  | inr n ↦ rw n (filter-holds p m)
]

pub filter-split :
    (p : Str × ℕ → Bool) (m : Map Str ℕ)
    → length (filter p m) + length (filter (λ e. not (p e)) m) ≡ length m
filter-split p [] = refl
filter-split p (e ∷ m) = ground (arith, filter-split p m)

count_owned-fresh :
    (h : ℕ → Inbound) (owner : Option BusName) (fresh : ℕ) (s : Inbound) (m : Map Str ℕ)
    → All (λ e. e.1 < fresh) m
    → count_owned (store h fresh s) owner m ≡ count_owned h owner m
unfolding count_owned
count_owned-fresh h owner fresh s [] b = refl
count_owned-fresh h owner fresh s ((k, a) ∷ m) (p, b) =
    ground (arith, p, eq_iff a fresh, count_owned-fresh h owner fresh s m b)

-- A new stream counts for the peer that opened it.
pub count_owned-insert :
    (h : ℕ → Inbound) (owner : Option BusName) (fresh : ℕ) (s : Inbound) (m : Map Str ℕ) (k : Str)
    → All (λ e. e.1 < fresh) m
    → count_owned (store h fresh s) owner (insert m k fresh)
      ≤ (if s.owner == owner then 1 else 0) + count_owned h owner m
unfolding count_owned insert
count_owned-insert h owner fresh s m k b = ground (
  arith,
  eq_refl fresh,
  count_owned-remove (store h fresh s) owner m k,
  count_owned-fresh h owner fresh s m b,
)

-- What a peer may hold: a full set of the streams that it writes, and one less of those that wait.
pub record IsWithinQuota (g : StreamRegistry) : Type 0 where
  pub distinct : IsDistinct g.inbound
  pub below : All (λ e. e.1 < g.fresh) g.inbound
  pub quota : (owner : Option BusName) → held g owner ≤ 2 * g.limits.max_streams_per_peer - 1

pub shrink-IsWithinQuota :
    (g g' : StreamRegistry)
    → g'.limits ≡ g.limits
    → g'.fresh ≡ g.fresh
    → IsSmaller g.heap g'.heap g.inbound g'.inbound g.fresh
    → IsWithinQuota g
    → IsWithinQuota g'
shrink-IsWithinQuota g g' el ef f q = record {
  distinct = f.distinct q.distinct;
  below = rw ef (f.below q.below);
  quota = λ owner. omega (arith, f.fewer owner, q.quota owner, ap (λ l. l.max_streams_per_peer) el);
}

-- The bound on what the opening peer holds once room has been made.
pub room :
    (live sealed max n total left : ℕ)
    → live < max
    → live + sealed ≡ total
    → left + n ≤ total
    → n ≡ (if leb max sealed then sealed + 1 - max else 0)
    → left + 1 ≤ 2 * max - 1
room live sealed max n total left lt split le e = ground (arith, lt, split, le, e)
