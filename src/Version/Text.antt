-- ===== src/Version/Text.antt =====
-- The texts of crates/tinybus/src/version.rs: `parse` and `Display` of versions and ranges.
pub mod RoundTrip
pub mod Ranges
use tinybus.Prelude.{
  ℕ, Bool, true, false, ◌||◌, Option, none, some, List, [], ◌∷◌, ◌++◌, nat_eq, ◌==◌, if◌then◌else◌,
}
use tinybus.Text.{Str, txt, trim, strip_prefix, contains_any}
use tinybus.Text.Decimal.{decimal, parse_u64}
use tinybus.Text.Split.{split}
use tinybus.Error.{Error, Result, ok, err, ◌>>=◌, ok_or}
use tinybus.Version.{Version, VersionRange, caret}

abbrev kept : ℕ → Str × Option Str → Str × Option Str
kept c (core, tag) = (c ∷ core, tag)

-- The text before the first `-` or `+`, and the text behind it.
cut_tag : Str → Str × Option Str
cut_tag [] = ([], none)
cut_tag (c ∷ s) =
    let rest = kept c (cut_tag s) in if c == b'-' || c == b'+' then ([], some s) else rest

abbrev bad_version : Str → Str → Error
bad_version input reason = Error.invalid_name (txt "version") input reason

component : Str → Str → Result ℕ
component input part =
    ok_or (parse_u64 part) (bad_version input (txt "each component must be a number"))

components : Str → List Str → Option Str → Result Version
unfolding component
components input (a ∷ b ∷ c ∷ []) tag = do
  major ← component input a
  minor ← component input b
  patch ← component input c
  ok (record { major = major; minor = minor; patch = patch; tag = tag })
components input _ tag = err (bad_version input (txt "expected major.minor.patch"))

pub parse : Str → Result Version
unfolding cut_tag components
parse input = let (core, tag) = cut_tag input in components input (split core b'.') tag

abbrev pub core_text : Version → Str
core_text v = decimal v.major ++ b'.' ∷ (decimal v.minor ++ b'.' ∷ decimal v.patch)

abbrev tag_text : Option Str → Str
tag_text none = []
tag_text (some tag) = b'-' ∷ tag

pub display : Version → Str
display v = core_text v ++ tag_text v.tag

abbrev bad_range : Str → Str → Error
bad_range input reason = Error.invalid_name (txt "version range") input reason

-- The loop over the clauses; the bounds found so far are its state.
clauses :
    Str → List Str → Option Version → Option Version → Result (Option Version × Option Version)
clauses input [] min max = ok (min, max)
clauses input (c ∷ cs) min max =
    let clause = trim c in
    elim (strip_prefix clause (b'>' ∷ b'=' ∷ [])) [
      | some rest ↦ do v ← parse (trim rest); clauses input cs (some v) max
      | none ↦ elim (strip_prefix clause (b'<' ∷ [])) [
        | some rest ↦ do v ← parse (trim rest); clauses input cs min (some v)
        | none ↦ err (bad_range input (txt "clauses must be `>=x.y.z` or `<x.y.z`"))
      ]
    ]

abbrev as_caret : Str → Result VersionRange
as_caret text = do v ← parse text; ok (caret v)

bounds : Str → Result VersionRange
unfolding clauses
bounds input = do
  (min, max) ← clauses input (split input b',') none none
  lower ← ok_or min (bad_range input (txt "needs a `>=` lower bound"))
  ok (record { min = lower; max_exclusive = max })

pub parse_range : Str → Result VersionRange
unfolding bounds
parse_range text =
    let input = trim text in
    elim (strip_prefix input (b'^' ∷ [])) [
      | some rest ↦ as_caret (trim rest)
      | none ↦ if contains_any input (b'<' ∷ b'>' ∷ b'=' ∷ []) then bounds input else as_caret input
    ]

abbrev upper_text : Option Version → Str
upper_text none = []
upper_text (some max) = b',' ∷ b' ' ∷ b'<' ∷ display max

pub display_range : VersionRange → Str
display_range r = (b'>' ∷ b'=' ∷ display r.min) ++ upper_text r.max_exclusive
