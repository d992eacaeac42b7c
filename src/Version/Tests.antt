-- ===== src/Version/Tests.antt =====
-- Examples of the theorems about crates/tinybus/src/version.rs.
use tinybus.Prelude.{
  ◌-◌, ◌≡◌, refl, ◌↔◌, ◌⊎◌, [], ◌∷◌, ◌++◌, arith, none, some, true, false, nat_eq,
}
use tinybus.Text.{txt}
use tinybus.Text.Decimal.{u64_size}
use tinybus.Name.Types.{InterfaceName}
use tinybus.Error.{ok}
use tinybus.Version.{
  Version, VersionRange, InterfaceVersion, PeerManifest, new, next_breaking, accepts, caret,
  provided_version, consumed_version, provided, consumed, check, is_compatible,
}
use tinybus.Version.Order.{HasRoom, caret_wraps}
use tinybus.Version.Check.{Agree, check_iff}
use tinybus.Version.Text.{parse, core_text}
use tinybus.Version.Text.RoundTrip.{parse-core_text}

abbrev low : Version
low = new 1 2 3

abbrev high : Version
high = new 1 4 0

abbrev last : Version
last = new (u64_size - 1) 0 0

abbrev mail : InterfaceName
mail = record { text = txt "ai.tinyhumans.Mail" }

abbrev provider : PeerManifest
provider = record {
  name = txt "mail";
  version = some high;
  provides = provided_version mail high ∷ [];
  consumes = [];
}

abbrev consumer : PeerManifest
consumer = record {
  name = txt "shell";
  version = none;
  provides = [];
  consumes = consumed_version mail low ∷ [];
}

low-HasRoom : HasRoom low
low-HasRoom = (omega arith, omega arith)

high-HasRoom : HasRoom high
high-HasRoom = (omega arith, omega arith)

caret_wraps_example : (next_breaking last ≡ new 0 0 0) × (accepts (caret last) last ≡ false)
caret_wraps_example = caret_wraps last last refl

check_iff_example : (is_compatible (check provider consumer mail) ≡ true) ↔ (
    (p : InterfaceVersion) × (provided provider mail ≡ some p)
    × ((consumed consumer mail ≡ none)
        ⊎ ((c : InterfaceVersion) × (consumed consumer mail ≡ some c) × Agree p c)))
check_iff_example = check_iff provider consumer mail

parse-core_text_example :
    parse (core_text low ++ b'+' ∷ txt "build.7") ≡ ok (record low { tag = some (txt "build.7") })
parse-core_text_example =
    parse-core_text low (txt "build.7") b'+' (omega arith, omega arith, omega arith) refl

abbrev window : VersionRange
window = record { min = low; max_exclusive = some high }
