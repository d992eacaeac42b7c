-- ===== src/Stream/Registry/Cap.antt =====
-- The cap of `StreamRegistry::open` of crates/tinybus/src/stream/mod.rs holds over the whole life of
-- a table.
use tinybus.Prelude.{
  ℕ, ◌+◌, ◌-◌, ◌*◌, ◌%◌, ◌≤◌, ◌<◌, ◌≡◌, refl, inl, inr, true, Option, [], ◌∷◌, ◌++◌, arith, Map,
  insert, remove, IsDistinct, insert-IsDistinct, leb, ltb, nat_eq, ◌==◌, eq_iff, Bool-cases,
  list_eq, option_eq, if◌then◌else◌, length, length-take, filter, All, All-filter, is_some_and,
}
use tinybus.Text.{Str, txt}
use tinybus.Text.Decimal.{u64_size, decimal}
use tinybus.Name.Types.{BusName, bus_name_eq}
use tinybus.Error.{ok}
use tinybus.Stream.Inbound.{StreamDescriptor, new_stream, Inbound}
use tinybus.Stream.Registry.{
  StreamRegistry, store, reap, owns, is_live, live_of, sealed_of, doomed, sort_by_key, evict,
  open_stream,
}
use tinybus.Stream.Registry.Oldest.{
  length-sort_by_key, sort_by_key-IsDistinct, sort_by_key-All, take-All, take-IsDistinct,
  filter-IsDistinct, IsListed, All-IsListed,
}
use tinybus.Stream.Registry.Quota.{
  count_owned, IsSmaller, reap-IsSmaller, trans-IsSmaller, remove-below, evict-IsSmaller, evict-own,
  filter-holds, filter-split, count_owned-insert, IsWithinQuota, shrink-IsWithinQuota, room,
}

module _ (max : ℕ) (heap : ℕ → Inbound) (sender : Option BusName) (streams : Map Str ℕ) where
  abbrev mine : Map Str ℕ
  mine = filter (owns heap sender) streams

  abbrev sealed : Map Str ℕ
  sealed = sealed_of heap sender streams

  abbrev by_age : Str × ℕ → ℕ
  by_age (k, a) = (heap a).last_activity

  doomed-All : (P : Str × ℕ → Type 0) → All P sealed → All P (doomed max heap sealed)
  unfolding doomed
  doomed-All P h = elim (Bool-cases (leb max (length sealed))) [
    | inl y ↦ rw y (take-All P (length sealed + 1 - max) _ (sort_by_key-All by_age P sealed h))
    | inr n ↦ rw n tt
  ]

  doomed-IsDistinct : IsDistinct streams → IsDistinct (doomed max heap sealed)
  unfolding doomed
  doomed-IsDistinct d = elim (Bool-cases (leb max (length sealed))) [
    | inl y ↦ rw y (
        take-IsDistinct (length sealed + 1 - max) _ (
          sort_by_key-IsDistinct by_age sealed
            (filter-IsDistinct _ mine (filter-IsDistinct _ streams d))))
    | inr n ↦ rw n tt
  ]

  length-doomed :
      0 < max
      → length (doomed max heap sealed)
        ≡ (if leb max (length sealed) then length sealed + 1 - max else 0)
  unfolding doomed
  length-doomed pos = elim (Bool-cases (leb max (length sealed))) [
    | inl y ↦
        rw (y, doomed)
          (ground (
            arith,
            pos,
            length-take (length sealed + 1 - max) (sort_by_key by_age sealed),
            length-sort_by_key by_age sealed,
          ))
    | inr n ↦ rw (n, doomed) refl
  ]

  -- Once the oldest are gone, the opening peer has room for one more.
  evict-room :
      IsDistinct streams
      → length (live_of heap sender streams) < max
      → count_owned
            (evict (doomed max heap sealed) streams heap).1
            sender
            (evict (doomed max heap sealed) streams heap).0
          + 1
        ≤ 2 * max - 1
  unfolding count_owned
  evict-room d lt =
      let owned =
        doomed-All (λ e. owns heap sender e ≡ true)
          (All-filter _ _ mine (filter-holds (owns heap sender) streams)) in
      let listed =
        doomed-All (IsListed streams)
          (All-filter _ _ mine (All-filter _ _ streams (All-IsListed streams d))) in
      let gone =
        evict-own (doomed max heap sealed) streams heap sender (doomed-IsDistinct d) listed owned in
      room (length (live_of heap sender streams)) (length sealed) max
        (length (doomed max heap sealed)) (length mine) _ lt (filter-split (is_live heap) mine) gone
        (length-doomed (omega (arith, lt)))

module _ (g : StreamRegistry) (now : ℕ) (sender : Option BusName) (d : StreamDescriptor) where
  abbrev pub reaped : Map Str ℕ × (ℕ → Inbound)
  reaped = reap g.limits now g.inbound g.heap

  abbrev pub evicted : Map Str ℕ × (ℕ → Inbound)
  evicted =
      evict (doomed g.limits.max_streams_per_peer reaped.1 (sealed_of reaped.1 sender reaped.0))
        reaped.0 reaped.1

  unfoldable pub opened : StreamRegistry
  opened = record g {
    inbound = insert evicted.0 (txt "s" ++ decimal g.next_id) g.fresh;
    heap = store evicted.1 g.fresh (new_stream g.limits now sender d);
    next_id = (g.next_id + 1) % u64_size;
    fresh = g.fresh + 1;
  }

  evicted-IsSmaller : IsSmaller g.heap evicted.1 g.inbound evicted.0 g.fresh
  evicted-IsSmaller =
      trans-IsSmaller g.fresh g.heap reaped.1 evicted.1 g.inbound reaped.0 evicted.0
        (reap-IsSmaller g.fresh g.limits now g.inbound g.heap)
        (evict-IsSmaller g.fresh _ reaped.0 reaped.1)

  below-insert :
      (m : Map Str ℕ) (k : Str) (fresh : ℕ)
      → All (λ e. e.1 < fresh) m
      → All (λ e. e.1 < fresh + 1) (insert m k fresh)
  unfolding insert
  below-insert m k fresh b = (omega arith, weaken (remove m k) (remove-below m k fresh b))
    where
      weaken : (n : Map Str ℕ) → All (λ e. e.1 < fresh) n → All (λ e. e.1 < fresh + 1) n
      weaken [] h = tt
      weaken ((j, a) ∷ n) (p, h) = (omega (arith, p), weaken n h)

  opened-IsWithinQuota :
      IsWithinQuota g
      → length (live_of reaped.1 sender reaped.0) < g.limits.max_streams_per_peer
      → IsWithinQuota opened
  unfolding opened
  opened-IsWithinQuota q lt =
      let s = new_stream g.limits now sender d in
      let id = txt "s" ++ decimal g.next_id in
      let below = evicted-IsSmaller.below q.below in
      let spared = reap-IsSmaller g.fresh g.limits now g.inbound g.heap in
      let free =
        evict-room g.limits.max_streams_per_peer reaped.1 sender reaped.0
          (spared.distinct q.distinct) lt in
      record {
        distinct = insert-IsDistinct evicted.0 id g.fresh (evicted-IsSmaller.distinct q.distinct);
        below = below-insert evicted.0 id g.fresh below;
        quota = λ owner.
            let grows = count_owned-insert evicted.1 owner g.fresh s evicted.0 id below in
            elim (Bool-cases (sender == owner)) [
              | inl y ↦ ground (arith, grows, y, free, eq_iff sender owner)
              | inr n ↦ ground (arith, grows, n, evicted-IsSmaller.fewer owner, q.quota owner)
            ];
      }

  pub open_stream-IsWithinQuota : IsWithinQuota g → IsWithinQuota (open_stream g now sender d).0
  unfolding open_stream opened
  open_stream-IsWithinQuota q =
      elim (Bool-cases (is_some_and d.total_len (λ total. ltb g.limits.max_stream_len total))) [
        | inl y ↦ rw (y, open_stream) q
        | inr n ↦
            elim (Bool-cases
              (leb g.limits.max_streams_per_peer (length (live_of reaped.1 sender reaped.0)))) [
                | inl full ↦
                    rw (n, full, open_stream)
                      (shrink-IsWithinQuota g _ refl refl
                        (reap-IsSmaller g.fresh g.limits now g.inbound g.heap) q)
                | inr free ↦
                    rw (n, free, open_stream) (opened-IsWithinQuota q (ground (arith, free)))
              ]
      ]

  pub open_stream-eq-ok :
      (g' : StreamRegistry) (id : Str)
      → open_stream g now sender d ≡ (g', ok id)
      → (g' ≡ opened) × (id ≡ txt "s" ++ decimal g.next_id)
  unfolding open_stream opened
  open_stream-eq-ok g' id h =
      elim (Bool-cases (is_some_and d.total_len (λ total. ltb g.limits.max_stream_len total))) [
        | inl y ↦ ground (arith, h, y)
        | inr n ↦
            elim (Bool-cases
              (leb g.limits.max_streams_per_peer (length (live_of reaped.1 sender reaped.0)))) [
                | inl full ↦ ground (arith, h, n, full)
                | inr free ↦ ground (arith, h, n, free)
              ]
      ]
