-- ===== src/Stream/Base64.antt =====
-- crates/tinybus/src/stream/base64.rs: the chunk codec. A byte is a number below 256; `none` is the
-- panic of an index out of range.
pub mod RoundTrip
mod Tests
use Prim.Native.Nat.{bit_and, bit_or, min}
use tinybus.Prelude.{
  ℕ, ◌+◌, ◌-◌, ◌*◌, ◌/◌, ◌%◌, zero, suc, Bool, true, false, not, ◌&&◌, ◌||◌, Option, none, some,
  List, [], ◌∷◌, ◌++◌, ◌==◌, ◌!=◌, nat_eq, ltb, leb, if◌then◌else◌, length, get_elem?, is_empty,
  and_then,
}
use tinybus.Prelude.Bits.{shl}
use tinybus.Text.{Str, txt, as_bytes}
use tinybus.Error.{Error, Result, ok, err, ◌>>=◌, ◌>>◌, refuse_if}

abbrev alphabet : Str
alphabet = txt "ABCDEFGHIJKLMNOPQRSTUVWXYZabcdefghijklmnopqrstuvwxyz0123456789+/"

-- `ALPHABET[v & 63]`
symbol : ℕ → Option ℕ
unfolding txt
symbol v = get_elem? alphabet (bit_and v 63)

-- `if group.len() > i { … } else { '=' }`
symbol_or_pad : Option ℕ → ℕ → Option ℕ
unfolding symbol
symbol_or_pad none v = some b'='
symbol_or_pad (some b) v = symbol v

-- One group of `encode`: the first byte, and the others if there are any.
encode_group : ℕ → Option ℕ → Option ℕ → Option Str
unfolding symbol symbol_or_pad
encode_group b0 o1 o2 =
    let b1 : ℕ = elim o1 [ none ↦ 0 | some b ↦ b ] in
    let b2 : ℕ = elim o2 [ none ↦ 0 | some b ↦ b ] in
    let packed = bit_or (bit_or (shl b0 16) (shl b1 8)) b2 in
    and_then (symbol (packed / 0x40000)) λ s0. and_then (symbol (packed / 0x1000)) λ s1.
      and_then (symbol_or_pad o1 (packed / 0x40))
        λ s2. and_then (symbol_or_pad o2 packed) λ s3. some (s0 ∷ s1 ∷ s2 ∷ s3 ∷ [])

-- `chunks(3)`
pub encode : List ℕ → Option Str
unfolding encode_group
encode [] = some []
encode (b0 ∷ []) = encode_group b0 none none
encode (b0 ∷ b1 ∷ []) = encode_group b0 (some b1) none
encode (b0 ∷ b1 ∷ b2 ∷ bytes) =
    let rest = encode bytes in
    and_then (encode_group b0 (some b1) (some b2)) (λ s. and_then rest (λ t. some (s ++ t)))

pub decode_symbol : ℕ → Result ℕ
decode_symbol byte =
    if leb b'A' byte && leb byte b'Z'
    then ok (byte - b'A')
    else if leb b'a' byte && leb byte b'z'
    then ok (byte - b'a' + 26)
    else if leb b'0' byte && leb byte b'9'
    then ok (byte - b'0' + 52)
    else if byte == b'+'
    then ok 62
    else if byte == b'/'
    then ok 63
    else err (Error.protocol (txt "base64 chunk has a symbol outside the alphabet"))

-- The loop over the symbols of one group, at a position; the bits so far and the bytes to keep are
-- its state.
read_symbols : Bool → ℕ → List ℕ → ℕ → ℕ → Result (ℕ × ℕ)
unfolding decode_symbol
read_symbols last position [] packed kept = ok (packed, kept)
read_symbols last position (byte ∷ rest) packed kept =
    let padded =
      read_symbols last (suc position) rest (bit_or (shl packed 6) 0) (min kept (position - 1)) in
    let read =
      λ (value : ℕ). read_symbols last (suc position) rest (bit_or (shl packed 6) value) kept in
    if byte == b'='
    then if not last || ltb position 2
      then err (Error.protocol (txt "base64 chunk has misplaced padding"))
      else padded
    else (decode_symbol byte >>= read)

-- `(packed & ((1 << slack) - 1)) != 0`, for the slack of `kept` bytes.
has_slack_bits : ℕ → ℕ → Bool
has_slack_bits packed kept =
    let slack = (3 - kept) * 8 in ltb 0 slack && bit_and packed (shl 1 slack - 1) != 0

-- The shifts 16, 8, 0, as many as are kept, each cast to a byte.
kept_bytes : ℕ → ℕ → List ℕ
kept_bytes packed zero = []
kept_bytes packed (suc zero) = packed / 0x10000 % 256 ∷ []
kept_bytes packed (suc (suc zero)) = packed / 0x10000 % 256 ∷ packed / 0x100 % 256 ∷ []
kept_bytes packed (suc (suc (suc _))) =
    packed / 0x10000 % 256 ∷ packed / 0x100 % 256 ∷ packed % 256 ∷ []

decode_group : Bool → List ℕ → Result (List ℕ)
unfolding read_symbols has_slack_bits kept_bytes
decode_group last group = do
  (packed, kept) ← read_symbols last 0 group 0 3
  refuse_if (has_slack_bits packed kept)
      (Error.protocol (txt "base64 chunk has non-canonical padding"))
  ok (kept_bytes packed kept)

-- `chunks(4)`, of a list whose length is a multiple of four.
decode_groups : List ℕ → Result (List ℕ)
unfolding decode_group
decode_groups (a ∷ b ∷ c ∷ d ∷ rest) = do
  group ← decode_group (is_empty rest) (a ∷ b ∷ c ∷ d ∷ [])
  bytes ← decode_groups rest
  ok (group ++ bytes)
decode_groups _ = ok []

pub decode : Str → Result (List ℕ)
unfolding decode_groups
decode text =
    let bytes = as_bytes text in
    if length bytes % 4 != 0
    then err (Error.protocol (txt "base64 chunk length is not a multiple of four"))
    else decode_groups bytes
