-- ===== src/Text/Decimal.antt =====
-- `u64` in decimal: `Display` and `str::parse::<u64>`. A `u64` has at most twenty digits.
use mathlib.Core.List.{concat-ne-nil}
use tinybus.Prelude.{
  ℕ, zero, suc, ◌+◌, ◌-◌, ◌*◌, ◌/◌, ◌%◌, ◌^◌, ◌<◌, ◌≡◌, ◌≢◌, refl, true, Option, none, some, [],
  ◌∷◌, ◌++◌, arith, ltb, nat_eq, ◌==◌, Bool-cases, inl, inr, if◌then◌else◌, All, All-append, ◌∙◌,
}
use tinybus.Text.{Str, is_ascii_digit, txt}

abbrev pub u64_size : ℕ
u64_size = 2 ^ 64

decimal_within : ℕ → ℕ → Str
decimal_within zero n = []
decimal_within (suc fuel) n =
    let rest = decimal_within fuel (n / 10) in
    if ltb n 10 then (b'0' + n) ∷ [] else rest ++ (b'0' + n % 10) ∷ []

unfoldable pub decimal : ℕ → Str
unfolding decimal_within
decimal n = decimal_within 20 n

scan : Str → ℕ → Option ℕ
scan [] acc = some acc
scan (c ∷ s) acc =
    let next = acc * 10 + (c - b'0') in
    let rest = scan s next in
    if is_ascii_digit c then (if ltb next u64_size then rest else none) else none

abbrev unsigned : Str → Option ℕ
unsigned [] = none
unsigned (c ∷ s) = scan (c ∷ s) 0

unfoldable pub parse_u64 : Str → Option ℕ
unfolding scan
parse_u64 [] = none
parse_u64 (c ∷ s) = if c == b'+' then unsigned s else unsigned (c ∷ s)

abbrev pub IsDigits : Str → Type 0
IsDigits = All (λ c. is_ascii_digit c ≡ true)

pow10 : ℕ → ℕ
pow10 zero = 1
pow10 (suc k) = 10 * pow10 k

scan-concat :
    (s : Str) (d acc m : ℕ)
    → scan s acc ≡ some m
    → d < 10
    → m * 10 + d < u64_size
    → scan (s ++ (b'0' + d) ∷ []) acc ≡ some (m * 10 + d)
unfolding scan
scan-concat [] d acc m h lt fits = ground arith
scan-concat (c ∷ s) d acc m h lt fits = ground (arith, scan-concat s d (acc * 10 + (c - b'0')) m)

decimal_within_step :
    (fuel n : ℕ)
    → decimal_within (suc fuel) n ≡ (
        if ltb n 10
        then (b'0' + n) ∷ []
        else (decimal_within fuel (n / 10) ++ (b'0' + n % 10) ∷ []))
unfolding decimal_within
decimal_within_step fuel n = refl

scan-digit : (n : ℕ) → n < 10 → scan ((b'0' + n) ∷ []) 0 ≡ some n
unfolding scan
scan-digit n h = ground arith

scan-decimal_within :
    (fuel n : ℕ)
    → n < pow10 (suc fuel)
    → n < u64_size
    → scan (decimal_within (suc fuel) n) 0 ≡ some n
unfolding pow10
scan-decimal_within zero n lt fits = ground (arith, decimal_within_step zero n, scan-digit n)
scan-decimal_within (suc fuel) n lt fits = elim (Bool-cases (ltb n 10)) [
  | inl small ↦ rw (decimal_within_step (suc fuel) n, small) (scan-digit n (ground arith))
  | inr large ↦ ground (
    arith,
    decimal_within_step (suc fuel) n,
    scan-decimal_within fuel (n / 10) (omega arith) (omega arith),
    scan-concat (decimal_within (suc fuel) (n / 10)) (n % 10) 0 (n / 10),
  )
]

decimal_within-IsDigits : (fuel n : ℕ) → IsDigits (decimal_within fuel n)
decimal_within-IsDigits zero n = unfold decimal_within in tt
decimal_within-IsDigits (suc fuel) n = elim (Bool-cases (ltb n 10)) [
  | inl small ↦ rw (decimal_within_step fuel n, small) (ground arith, tt)
  | inr large ↦
      rw (decimal_within_step fuel n, large)
        (All-append _ (decimal_within fuel (n / 10)) _ (decimal_within-IsDigits fuel (n / 10))
          (ground arith, tt))
]

pub decimal-IsDigits : (n : ℕ) → IsDigits (decimal n)
unfolding decimal
decimal-IsDigits n = decimal_within-IsDigits 20 n

decimal-ne-nil : (n : ℕ) → decimal n ≢ []
unfolding decimal
decimal-ne-nil n h = ground (arith, concat-ne-nil (b'0' + n % 10) (decimal_within 19 (n / 10)))

parse_of_digits : (s : Str) → IsDigits s → s ≢ [] → parse_u64 s ≡ scan s 0
unfolding parse_u64
parse_of_digits [] d h = absurd (h refl)
parse_of_digits (c ∷ s) d h = ground arith

-- Twenty digits are enough: every `u64` is read back from its print.
pub parse_u64-decimal : (n : ℕ) → n < u64_size → parse_u64 (decimal n) ≡ some n
unfolding pow10 decimal
parse_u64-decimal n h =
    parse_of_digits (decimal n) (decimal-IsDigits n) (decimal-ne-nil n)
    ∙ scan-decimal_within 19 n (omega arith) h

pub parse_empty : parse_u64 [] ≡ none
unfolding parse_u64
parse_empty = refl

-- So two numbers with one print are one.
pub decimal_inj : (m n : ℕ) → m < u64_size → n < u64_size → decimal m ≡ decimal n → m ≡ n
decimal_inj m n hm hn h = cc (parse_u64-decimal m hm, parse_u64-decimal n hn)

largest : decimal (u64_size - 1) ≡ txt "18446744073709551615"
unfolding decimal txt
largest = refl

overflow : parse_u64 (txt "18446744073709551616") ≡ none
unfolding parse_u64 txt
overflow = refl
