-- ===== src/Version/Order.antt =====
-- The order of versions and the ranges that the program builds from one.
use tinybus.Prelude.{◌+◌, ◌<◌, ◌≡◌, ◌≢◌, ◌↔◌, ◌⊎◌, true, false, arith, nat_eq}
use tinybus.Text.Decimal.{u64_size}
use tinybus.Version.{Version, new, next_breaking, less, accepts, caret, compatible_series}

-- Equal numbers, whatever the tags are.
abbrev pub SameRelease : Version → Version → Type 0
SameRelease a b = (a.major ≡ b.major) × (a.minor ≡ b.minor) × (a.patch ≡ b.patch)

-- Two versions of one compatible series: the same major version, and below 1.0 the same minor one.
abbrev pub SameSeries : Version → Version → Type 0
SameSeries a b = (a.major ≡ b.major) × ((a.major ≢ 0) ⊎ (a.minor ≡ b.minor))

-- At or above, in the order of releases.
abbrev pub IsAtLeast : Version → Version → Type 0
IsAtLeast a b = less a b ≡ false

-- The order of versions is a strict linear order on releases: irreflexive, transitive, and two
-- versions neither of which is below the other have the same numbers. Tags do not count.
pub less_order :
    (a b c : Version)
    → (less a a ≡ false)
      × (less a b ≡ true → less b c ≡ true → less a c ≡ true)
      × ((less a b ≡ false) × (less b a ≡ false) ↔ SameRelease a b)
unfolding less
less_order a b c = ground arith

-- No component of the version is at the end of its range.
abbrev pub HasRoom : Version → Type 0
HasRoom v = (v.major + 1 < u64_size) × (v.minor + 1 < u64_size)

-- A consumer's range holds exactly the versions of the same series at or above its own, as long as
-- the next breaking version can be represented.
pub caret_iff :
    (v w : Version)
    → HasRoom v
    → (accepts (caret v) w ≡ true) ↔ (SameSeries v w × (less w v ≡ false))
unfolding accepts caret next_breaking less
caret_iff v w room = ground arith

-- A provider's range holds exactly the versions of its series, as long as the next breaking version
-- can be represented.
pub compatible_series_iff :
    (v w : Version) → HasRoom v → (accepts (compatible_series v) w ≡ true) ↔ SameSeries v w
unfolding accepts compatible_series next_breaking less
compatible_series_iff v w room = ground arith

-- For the last major version the next breaking version wraps around to 0.0.0, and the caret range
-- holds nothing, not even the version itself.
pub caret_wraps :
    (v w : Version)
    → v.major + 1 ≡ u64_size
    → (next_breaking v ≡ new 0 0 0) × (accepts (caret v) w ≡ false)
unfolding accepts caret next_breaking less
caret_wraps v w h = (ground arith, ground arith)
