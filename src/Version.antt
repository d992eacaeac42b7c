-- ===== src/Version.antt =====
-- crates/tinybus/src/version.rs: versions, ranges and the manifests of the peers.
mod Tests
pub mod Order
pub mod Text
pub mod Check
use tinybus.Prelude.{
  ℕ, ◌+◌, ◌%◌, ◌≡◌, ◌↔◌, Bool, true, false, ◌&&◌, ◌||◌, Option, none, some, List, [], ◌∷◌, ◌++◌,
  arith, ltb, nat_eq, ◌==◌, eq_iff, if◌then◌else◌, find, Eq,
}
use tinybus.Text.{Str}
use tinybus.Text.Decimal.{u64_size}
use tinybus.Name.Types.{InterfaceName, interface_name_eq}

pub record Version : Type 0 where
  pub major : ℕ
  pub minor : ℕ
  pub patch : ℕ
  pub tag : Option Str

abbrev pub new : ℕ → ℕ → ℕ → Version
new major minor patch = record { major = major; minor = minor; patch = patch; tag = none }

-- `u64` addition, which wraps around in a release build.
abbrev add_u64 : ℕ → ℕ → ℕ
add_u64 a b = (a + b) % u64_size

unfoldable pub next_breaking : Version → Version
next_breaking v = if v.major == 0 then new 0 (add_u64 v.minor 1) 0 else new (add_u64 v.major 1) 0 0

-- `Ord::cmp`, as `<`: lexicographic on the three numbers, whatever the tags are.
unfoldable pub less : Version → Version → Bool
less a b =
    ltb a.major b.major
    || a.major == b.major && (ltb a.minor b.minor || a.minor == b.minor && ltb a.patch b.patch)

pub record VersionRange : Type 0 where
  pub min : Version
  pub max_exclusive : Option Version

unfoldable pub accepts : VersionRange → Version → Bool
unfolding less
accepts r v =
    if less v r.min then false else elim r.max_exclusive [ some max ↦ less v max | none ↦ true ]

abbrev pub at_least : Version → VersionRange
at_least min = record { min = min; max_exclusive = none }

unfoldable pub caret : Version → VersionRange
caret v = record { min = new v.major v.minor v.patch; max_exclusive = some (next_breaking v) }

unfoldable pub compatible_series : Version → VersionRange
compatible_series v = record {
  min = if v.major == 0 then new 0 v.minor 0 else new v.major 0 0;
  max_exclusive = some (next_breaking v);
}

pub record InterfaceVersion : Type 0 where
  pub interface : InterfaceName
  pub speaks : Version
  pub accepted : VersionRange

unfoldable pub provided_version : InterfaceName → Version → InterfaceVersion
provided_version interface version = record {
  interface = interface;
  speaks = version;
  accepted = compatible_series version;
}

unfoldable pub consumed_version : InterfaceName → Version → InterfaceVersion
consumed_version interface version = record {
  interface = interface;
  speaks = version;
  accepted = caret version;
}

abbrev pub with_accepts : InterfaceVersion → VersionRange → InterfaceVersion
with_accepts i accepts = record i { accepted = accepts }

pub record PeerManifest : Type 0 where
  pub name : Str
  pub version : Option Version
  pub provides : List InterfaceVersion
  pub consumes : List InterfaceVersion

pub provided : PeerManifest → InterfaceName → Option InterfaceVersion
provided m interface = find (λ i. i.interface == interface) m.provides

pub consumed : PeerManifest → InterfaceName → Option InterfaceVersion
consumed m interface = find (λ i. i.interface == interface) m.consumes

pub data Compatibility : Type 0 where
  compatible : Version → Version → Compatibility
  consumer_rejects : Version → VersionRange → Compatibility
  provider_rejects : Version → VersionRange → Compatibility
  not_provided : Compatibility

abbrev pub is_compatible : Compatibility → Bool
is_compatible (compatible p c) = true
is_compatible _ = false

-- The two tests of `check`, for an interface that both sides declare.
weigh : InterfaceVersion → InterfaceVersion → Compatibility
weigh provided consumed =
    if accepts consumed.accepted provided.speaks
    then if accepts provided.accepted consumed.speaks
      then compatible provided.speaks consumed.speaks
      else provider_rejects consumed.speaks provided.accepted
    else consumer_rejects provided.speaks consumed.accepted

pub check : PeerManifest → PeerManifest → InterfaceName → Compatibility
check provider consumer interface = elim (provided provider interface) [
  | none ↦ not_provided
  | some provided ↦ elim (consumed consumer interface) [
    | none ↦ compatible provided.speaks provided.speaks
    | some consumed ↦ weigh provided consumed
  ]
]
