-- ===== src/Version/Text/RoundTrip.antt =====
-- Printing a version or a range and parsing it again.
use tinybus.Prelude.{
  ℕ, ◌<◌, ◌≡◌, refl, ap, ◌∙◌, true, false, ◌||◌, Option, none, some, [], ◌∷◌, ◌++◌, arith, nat_eq,
  ◌==◌, All, All-append, append-nil,
}
use tinybus.Text.{Str, is_ascii_digit}
use tinybus.Text.Decimal.{decimal, parse_u64-decimal, decimal-IsDigits, IsDigits, u64_size}
use tinybus.Text.Split.{Lacks, split, split-append, split_lacking}
use tinybus.Error.{ok}
use tinybus.Version.{Version}
use tinybus.Version.Text.{cut_tag, components, parse, core_text, tag_text, display}

-- Digits and dots.
abbrev pub IsCore : Str → Type 0
IsCore = All (λ c. (is_ascii_digit c || c == b'.') ≡ true)

pub digits-IsCore : (s : Str) → IsDigits s → IsCore s
digits-IsCore [] h = tt
digits-IsCore (c ∷ s) (hc, h) = (ground arith, digits-IsCore s h)

digits-Lacks : (x : ℕ) (s : Str) → is_ascii_digit x ≡ false → IsDigits s → Lacks x s
digits-Lacks x [] n h = tt
digits-Lacks x (c ∷ s) n (hc, h) = (λ e. ground (arith, e), digits-Lacks x s n h)

pub core_text-IsCore : (v : Version) → IsCore (core_text v)
core_text-IsCore v = All-append _ (decimal v.major) _ (digits-IsCore _ (decimal-IsDigits v.major)) (
  refl,
  All-append _ (decimal v.minor) _ (digits-IsCore _ (decimal-IsDigits v.minor))
      (refl, digits-IsCore _ (decimal-IsDigits v.patch)),
)

split-core_text :
    (v : Version)
    → split (core_text v) b'.' ≡ decimal v.major ∷ decimal v.minor ∷ decimal v.patch ∷ []
split-core_text v =
    split-append (decimal v.major) _ b'.' (digits-Lacks b'.' _ refl (decimal-IsDigits v.major))
    ∙ ap (λ r. decimal v.major ∷ r)
        (split-append (decimal v.minor) _ b'.' (digits-Lacks b'.' _ refl (decimal-IsDigits v.minor))
          ∙ ap (λ r. decimal v.minor ∷ r)
              (split_lacking (decimal v.patch) b'.'
                (digits-Lacks b'.' _ refl (decimal-IsDigits v.patch))))

cut_tag_core : (s : Str) → IsCore s → cut_tag s ≡ (s, none)
unfolding cut_tag
cut_tag_core [] h = refl
cut_tag_core (c ∷ s) (hc, h) = ground (arith, cut_tag_core s h)

-- Either separator ends the core.
cut_tag_at :
    (s tag : Str) (x : ℕ)
    → (x == b'-' || x == b'+') ≡ true
    → IsCore s
    → cut_tag (s ++ x ∷ tag) ≡ (s, some tag)
unfolding cut_tag
cut_tag_at [] tag x hx h = ground arith
cut_tag_at (c ∷ s) tag x hx (hc, h) = ground (arith, cut_tag_at s tag x hx h)

-- Every number of the version fits in 64 bits.
abbrev pub FitsU64 : Version → Type 0
FitsU64 v = (v.major < u64_size) × (v.minor < u64_size) × (v.patch < u64_size)

components_core :
    (input : Str) (v : Version) (tag : Option Str)
    → FitsU64 v
    → components input (split (core_text v) b'.') tag ≡ ok (record v { tag = tag })
unfolding components
components_core input v tag (h₀, h₁, h₂) = rw (split-core_text v) (
    ground (
      arith,
      parse_u64-decimal v.major h₀,
      parse_u64-decimal v.minor h₁,
      parse_u64-decimal v.patch h₂,
    ))

parse_of_cut :
    (input : Str) (v : Version) (tag : Option Str)
    → FitsU64 v
    → cut_tag input ≡ (core_text v, tag)
    → parse input ≡ ok (record v { tag = tag })
unfolding parse
parse_of_cut input v tag h e = rw e (components_core input v tag h)

-- A version of 64-bit numbers with a tag behind `x`, where `x` is one of the two separators, is
-- read back with that tag, whichever the separator is.
pub parse-core_text :
    (v : Version) (tag : Str) (x : ℕ)
    → FitsU64 v
    → (x == b'-' || x == b'+') ≡ true
    → parse (core_text v ++ x ∷ tag) ≡ ok (record v { tag = some tag })
parse-core_text v tag x h hx =
    parse_of_cut _ v (some tag) h (cut_tag_at (core_text v) tag x hx (core_text-IsCore v))

parse-tagged :
    (v : Version) (tag : Option Str)
    → FitsU64 v
    → parse (core_text v ++ tag_text tag) ≡ ok (record v { tag = tag })
parse-tagged v none h =
    rw append-nil (parse_of_cut _ v none h (cut_tag_core (core_text v) (core_text-IsCore v)))
parse-tagged v (some tag) h = parse-core_text v tag b'-' h refl

-- Every version of 64-bit numbers, tagged or not, is read back from its print.
pub parse-display : (v : Version) → FitsU64 v → parse (display v) ≡ ok v
unfolding display
parse-display v h = parse-tagged v v.tag h
