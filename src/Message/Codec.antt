-- ===== src/Message/Codec.antt =====
-- crates/tinybus/src/message/codec.rs: a four-byte big-endian length, then the payload. The JSON
-- encoder is not the program's: `frame` and `decode_length` work on its bytes.
use tinybus.Prelude.{ℕ, ◌+◌, ◌*◌, ◌/◌, ◌%◌, ◌^◌, ◌≤◌, ◌≡◌, List, [], ◌∷◌, ◌++◌, arith, ltb, length}
use tinybus.Text.{txt}
use tinybus.Text.Decimal.{decimal}
use tinybus.Error.{Error, Result, ok, ◌>>◌, refuse_if}

abbrev pub max_frame_len : ℕ
max_frame_len = 16 * 1024 * 1024

-- `u32::to_be_bytes` and `from_be_bytes`, and the cast `as u32`.
abbrev as_u32 : ℕ → ℕ
as_u32 n = n % 2 ^ 32

abbrev pub byte_of : ℕ → ℕ → ℕ
byte_of n scale = n / scale % 256

abbrev to_be_bytes : ℕ → List ℕ
to_be_bytes n = byte_of n 0x1000000 ∷ byte_of n 0x10000 ∷ byte_of n 0x100 ∷ byte_of n 1 ∷ []

pub frame : List ℕ → Result (List ℕ)
frame payload = do
  refuse_if (ltb max_frame_len (length payload)) (
      Error.protocol (
        txt "frame of "
        ++ (decimal (length payload)
            ++ (txt " bytes exceeds the " ++ (decimal max_frame_len ++ txt "-byte cap")))))
  ok (to_be_bytes (as_u32 (length payload)) ++ payload)

pub decode_length : ℕ → ℕ → ℕ → ℕ → Result ℕ
decode_length b0 b1 b2 b3 = do
  let announced = b0 * 0x1000000 + b1 * 0x10000 + b2 * 0x100 + b3
  refuse_if (ltb max_frame_len announced) (
      Error.protocol (
        txt "peer announced a "
        ++ (decimal announced
            ++ (txt "-byte frame, over the " ++ (decimal max_frame_len ++ txt "-byte cap")))))
  ok announced

-- A payload within the cap is framed as four bytes and the payload, and the four bytes are read
-- back as its length.
frame-decode_length :
    (payload : List ℕ)
    → length payload ≤ max_frame_len
    → (b0 b1 b2 b3 : ℕ) × (frame payload ≡ ok (b0 ∷ b1 ∷ b2 ∷ b3 ∷ payload))
      × (decode_length b0 b1 b2 b3 ≡ ok (length payload))
unfolding frame decode_length
frame-decode_length payload fits =
    let n = length payload in
    (
      byte_of n 0x1000000,
      byte_of n 0x10000,
      byte_of n 0x100,
      byte_of n 1,
      ground arith,
      ground arith,
    )
