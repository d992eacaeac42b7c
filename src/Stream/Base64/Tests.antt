-- ===== src/Stream/Base64/Tests.antt =====
-- Examples of the theorems about crates/tinybus/src/stream/base64.rs.
use tinybus.Prelude.{ℕ, ◌≡◌, some, List, [], ◌∷◌, arith}
use tinybus.Text.{Str}
use tinybus.Error.{ok}
use tinybus.Stream.Base64.{encode, decode}
use tinybus.Stream.Base64.RoundTrip.{decode-encode, decode_loose}

abbrev four_bytes : List ℕ
four_bytes = 0 ∷ 255 ∷ 16 ∷ 7 ∷ []

decode-encode_example :
    (text : Str) × (encode four_bytes ≡ some text) × (decode text ≡ ok four_bytes)
decode-encode_example =
    decode-encode four_bytes (omega arith, (omega arith, (omega arith, (omega arith, tt))))

decode_loose_example :
    (s0 s1 : ℕ) × (encode (65 ∷ []) ≡ some (s0 ∷ s1 ∷ b'=' ∷ b'=' ∷ []))
    × (decode (s0 ∷ s1 ∷ b'=' ∷ b'A' ∷ []) ≡ ok (65 ∷ []))
decode_loose_example = decode_loose 65 (omega arith)
