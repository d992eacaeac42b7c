-- ===== src/Text.antt =====
-- `str` as a list of code points, with what the program uses of the standard library's methods.
-- The tests on ASCII are the standard library's; so is the list of white space (Unicode).
pub mod Split
pub mod Decimal
pub mod Trim
use Prim.Native.Char.{code}
use mathlib.Core.List.{flat_map}
use tinybus.Prelude.{
  ℕ, ◌+◌, ◌*◌, ◌/◌, ◌%◌, String, Bool, true, false, ◌&&◌, ◌||◌, Option, none, some, List, [], ◌∷◌,
  ◌++◌, ltb, leb, nat_beq, nat_eq, ◌==◌, if◌then◌else◌, length, is_some_and, any, All, ◌<◌, ◌≡◌,
  refl, arith,
}

abbrev pub Str : Type 0
Str = List ℕ

abbrev codes : String → Str
codes String.[] = []
codes (String.◌∷◌ c s) = code c ∷ codes s

-- A literal of the source. Shut, so that a proof carries the literal and not its characters.
unfoldable pub txt : String → Str
txt = codes

-- The UTF-8 encoding of a code point, and of a text.
pub utf8 : ℕ → List ℕ
utf8 c =
    if ltb c 0x80
    then c ∷ []
    else if ltb c 0x800
    then (0xc0 + c / 0x40) ∷ (0x80 + c % 0x40) ∷ []
    else if ltb c 0x10000
    then (0xe0 + c / 0x1000) ∷ (0x80 + c / 0x40 % 0x40) ∷ (0x80 + c % 0x40) ∷ []
    else (0xf0 + c / 0x40000)
      ∷ (0x80 + c / 0x1000 % 0x40)
      ∷ (0x80 + c / 0x40 % 0x40)
      ∷ (0x80 + c % 0x40)
      ∷ []

unfoldable pub as_bytes : Str → List ℕ
unfolding utf8
as_bytes [] = []
as_bytes (c ∷ s) = utf8 c ++ as_bytes s

pub as_bytes_ascii : (s : Str) → All (λ c. c < 0x80) s → as_bytes s ≡ s
unfolding as_bytes utf8
as_bytes_ascii [] h = refl
as_bytes_ascii (c ∷ s) (hc, h) = ground (arith, as_bytes_ascii s h)

-- `str::len` counts bytes.
unfoldable pub len : Str → ℕ
unfolding as_bytes
len s = length (as_bytes s)

abbrev pub is_ascii_digit : ℕ → Bool
is_ascii_digit c = leb b'0' c && leb c b'9'

abbrev pub is_ascii_alphabetic : ℕ → Bool
is_ascii_alphabetic c = leb b'A' c && leb c b'Z' || leb b'a' c && leb c b'z'

abbrev pub is_ascii_alphanumeric : ℕ → Bool
is_ascii_alphanumeric c = is_ascii_alphabetic c || is_ascii_digit c

unfoldable pub is_whitespace : ℕ → Bool
is_whitespace c =
    leb 9 c && leb c 13
    || nat_beq c 0x20
    || nat_beq c 0x85
    || nat_beq c 0xa0
    || nat_beq c 0x1680
    || leb 0x2000 c && leb c 0x200a
    || leb 0x2028 c && leb c 0x2029
    || nat_beq c 0x202f
    || nat_beq c 0x205f
    || nat_beq c 0x3000

-- A prefix of code points is a prefix of bytes, since no encoding is a prefix of another.
unfoldable pub starts_with : Str → Str → Bool
starts_with s [] = true
starts_with [] (c ∷ p) = false
starts_with (d ∷ s) (c ∷ p) = c == d && starts_with s p

unfoldable pub strip_prefix : Str → Str → Option Str
strip_prefix s [] = some s
strip_prefix [] (c ∷ p) = none
strip_prefix (d ∷ s) (c ∷ p) = let rest = strip_prefix s p in if c == d then rest else none

unfoldable pub ends_with : Str → ℕ → Bool
ends_with [] c = false
ends_with (d ∷ []) c = d == c
ends_with (d ∷ e ∷ s) c = ends_with (e ∷ s) c

abbrev pub contains_any : Str → List ℕ → Bool
contains_any s cs = any (λ c. any (λ d. c == d) cs) s

unfoldable pub trim_start : Str → Str
unfolding is_whitespace
trim_start [] = []
trim_start (c ∷ s) = let rest = trim_start s in if is_whitespace c then rest else c ∷ s

abbrev trim_onto : ℕ → Str → Str
trim_onto c [] = if is_whitespace c then [] else c ∷ []
trim_onto c (d ∷ s) = c ∷ d ∷ s

unfoldable pub trim_end : Str → Str
unfolding is_whitespace
trim_end [] = []
trim_end (c ∷ s) = trim_onto c (trim_end s)

unfoldable pub trim : Str → Str
unfolding trim_start trim_end
trim s = trim_end (trim_start s)
