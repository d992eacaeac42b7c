-- ===== src/Version/Check.antt =====
-- What `check` decides for two manifests.
use tinybus.Prelude.{◌≡◌, ◌↔◌, ◌⊎◌, inl, inr, true, none, some, arith, Option-cases}
use tinybus.Name.Types.{InterfaceName, interface_name_eq}
use tinybus.Version.{
  Version, accepts, InterfaceVersion, PeerManifest, provided, consumed, provided_version,
  consumed_version, is_compatible, weigh, check,
}
use tinybus.Version.Order.{HasRoom, SameSeries, caret_iff, compatible_series_iff, IsAtLeast}

-- Both sides take what the other speaks.
abbrev pub Agree : InterfaceVersion → InterfaceVersion → Type 0
Agree p c = (accepts c.accepted p.speaks ≡ true) × (accepts p.accepted c.speaks ≡ true)

weigh_iff : (p c : InterfaceVersion) → (is_compatible (weigh p c) ≡ true) ↔ Agree p c
unfolding weigh
weigh_iff p c = ground arith

-- A consumer may call an interface exactly if the provider declares it and, where the consumer
-- declares it too, each side accepts the version that the other speaks.
pub check_iff :
    (provider consumer : PeerManifest) (interface : InterfaceName)
    → (is_compatible (check provider consumer interface) ≡ true) ↔ (
        (p : InterfaceVersion) × (provided provider interface ≡ some p)
        × ((consumed consumer interface ≡ none)
            ⊎ ((c : InterfaceVersion) × (consumed consumer interface ≡ some c) × Agree p c)))
unfolding check
check_iff provider consumer interface = (sound, complete)
  where
    sound :
        is_compatible (check provider consumer interface) ≡ true
        → (p : InterfaceVersion) × (provided provider interface ≡ some p)
          × ((consumed consumer interface ≡ none)
              ⊎ ((c : InterfaceVersion) × (consumed consumer interface ≡ some c) × Agree p c))
    sound h = elim (Option-cases (provided provider interface)) [
      | inl e ↦ absurd (ground arith)
      | inr (p, e) ↦ elim (Option-cases (consumed consumer interface)) [
        | inl f ↦ (p, e, inl f)
        | inr (c, f) ↦ (p, e, inr (c, f, (weigh_iff p c).0 (ground arith)))
      ]
    ]

    complete :
        (p : InterfaceVersion) × (provided provider interface ≡ some p)
          × ((consumed consumer interface ≡ none)
              ⊎ ((c : InterfaceVersion) × (consumed consumer interface ≡ some c) × Agree p c))
        → is_compatible (check provider consumer interface) ≡ true
    complete (p, e, inl f) = ground arith
    complete (p, e, inr (c, f, agree)) = ground (arith, (weigh_iff p c).1 agree)

-- Two peers that declare an interface by the defaults, at versions with room for the next breaking
-- one, can talk exactly if their versions are of one series and the provider's is not below the
-- consumer's.
pub defaults-Agree_iff :
    (interface : InterfaceName) (p c : Version)
    → HasRoom p
    → HasRoom c
    → Agree (provided_version interface p) (consumed_version interface c)
      ↔ (SameSeries c p × IsAtLeast p c)
unfolding provided_version consumed_version
defaults-Agree_iff interface p c hp hc =
    ground (arith, caret_iff c p hc, compatible_series_iff p c hp)
