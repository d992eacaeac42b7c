-- ===== src/Stream/Base64/RoundTrip.antt =====
-- The codec of crates/tinybus/src/stream/base64.rs, out and back.
use Prim.Native.Nat.{zero, bit_and, bit_or, min}
use tinybus.Prelude.{
  ℕ, suc, ◌+◌, ◌-◌, ◌*◌, ◌/◌, ◌%◌, ◌<◌, ◌≡◌, refl, ◌∙◌, ◌≤◌, Bool, true, false, ◌&&◌, Option, none,
  some, List, [], ◌∷◌, arith, nat_eq, ◌==◌, ◌!=◌, ltb, All, length, is_empty, Option-cases, inl,
  inr,
}
use tinybus.Prelude.Bits.{shl, bit_or-shl, bit_and-63, bit_and-255, bit_and-65535}
use tinybus.Text.{Str, as_bytes, as_bytes_ascii, txt}
use tinybus.Error.{ok, err}
use tinybus.Stream.Base64.{
  symbol, symbol_or_pad, encode_group, encode, decode_symbol, read_symbols, has_slack_bits,
  kept_bytes, decode_group, decode_groups, decode,
}

all_below : ℕ → (ℕ → Bool) → Bool
all_below zero p = true
all_below (suc n) p = p n && all_below n p

all_below-lt : (n : ℕ) (p : ℕ → Bool) (v : ℕ) → all_below n p ≡ true → v < n → p v ≡ true
unfolding all_below
all_below-lt zero p v h lt = absurd (omega arith)
all_below-lt (suc n) p v h lt = ground (arith, all_below-lt n p v)

-- The symbol of a value is read back, is no padding, and is ASCII.
reads_back : ℕ → Bool
reads_back v = elim (symbol v) [
  | none ↦ false
  | some c ↦ elim (decode_symbol c) [ ok w ↦ w == v | err e ↦ false ] && c != b'=' && ltb c 0x80
]

table : all_below 64 reads_back ≡ true
unfolding all_below reads_back symbol decode_symbol txt
table = refl

pub record IsLetter (v c : ℕ) : Type 0 where
  pub read : decode_symbol c ≡ ok v
  pub no_padding : (c == b'=') ≡ false
  pub ascii : c < 0x80

letter : (v : ℕ) → v < 64 → (c : ℕ) × (symbol v ≡ some c) × IsLetter v c
unfolding reads_back
letter v h =
    let back = all_below-lt 64 reads_back v table h in
    elim (Option-cases (symbol v)) [
      | inl e ↦ absurd (ground (arith, back, e))
      | inr (c, e) ↦ (
        c,
        e,
        record {
          read = ground (arith, back, e);
          no_padding = ground (arith, back, e);
          ascii = ground (arith, back, e);
        },
      )
    ]

symbol-mod : (v : ℕ) → symbol v ≡ symbol (v % 64)
unfolding symbol
symbol-mod v =
    let e : bit_and v 63 ≡ bit_and (v % 64) 63 = omega (arith, bit_and-63 v, bit_and-63 (v % 64)) in
    rw e refl

-- The symbol that the encoder takes for the low six bits.
IsLetter-of : (v : ℕ) → (c : ℕ) × (symbol v ≡ some c) × IsLetter (v % 64) c
IsLetter-of v = let (c, e, l) = letter (v % 64) (omega arith) in (c, symbol-mod v ∙ e, l)

packed :
    (b0 b1 b2 : ℕ)
    → b1 < 256
    → b2 < 256
    → bit_or (bit_or (shl b0 16) (shl b1 8)) b2 ≡ b0 * 0x10000 + b1 * 0x100 + b2
unfolding shl
packed b0 b1 b2 h1 h2 =
    let e : bit_or (shl b0 16) (shl b1 8) ≡ shl (b0 * 256 + b1) 8 =
      omega (arith, bit_or-shl 16 b0 (shl b1 8) (omega arith)) in
    rw e (omega (arith, bit_or-shl 8 (b0 * 256 + b1) b2 (omega arith)))

pushed : (k v : ℕ) → v < 64 → bit_or (shl k 6) v ≡ k * 64 + v
unfolding shl
pushed k v h = omega (arith, bit_or-shl 6 k v (omega arith))

read_letter :
    (last : Bool) (p : ℕ) {c : ℕ} (v : ℕ) (rest : List ℕ) (k k' kept : ℕ)
    → IsLetter v c
    → v < 64
    → k' ≡ k * 64 + v
    → read_symbols last p (c ∷ rest) k kept ≡ read_symbols last (suc p) rest k' kept
unfolding read_symbols
read_letter last p v rest k k' kept l h e =
    rw e (ground (arith, l.read, l.no_padding, pushed k v h))

read_pad :
    (p : ℕ) (rest : List ℕ) (k k' kept kept' : ℕ)
    → 2 ≤ p
    → k' ≡ k * 64
    → kept' ≡ min kept (p - 1)
    → read_symbols true p (b'=' ∷ rest) k kept ≡ read_symbols true (suc p) rest k' kept'
unfolding read_symbols
read_pad p rest k k' kept kept' h e f = rw e (rw f (ground (arith, pushed k 0 (omega arith))))

-- A group of which the loop keeps these bits and that has no slack.
decode_kept :
    (last : Bool) (group : List ℕ) (n kept : ℕ)
    → read_symbols last 0 group 0 3 ≡ ok (n, kept)
    → has_slack_bits n kept ≡ false
    → decode_group last group ≡ ok (kept_bytes n kept)
unfolding decode_group
decode_kept last group n kept e h = rw (e) (rw (h) refl)

-- Four symbols that the encoder gives for a group, and the decoder reads as these bytes.
record IsCoded (o : Option Str) (last : Bool) (bytes : List ℕ) : Type 0 where
  s0 : ℕ
  s1 : ℕ
  s2 : ℕ
  s3 : ℕ
  coded : o ≡ some (s0 ∷ s1 ∷ s2 ∷ s3 ∷ [])
  decoded : decode_group last (s0 ∷ s1 ∷ s2 ∷ s3 ∷ []) ≡ ok bytes
  ascii : All (λ c. c < 0x80) (s0 ∷ s1 ∷ s2 ∷ s3 ∷ [])

IsCoded-three :
    (b0 b1 b2 : ℕ) (last : Bool)
    → b0 < 256
    → b1 < 256
    → b2 < 256
    → IsCoded (encode_group b0 (some b1) (some b2)) last (b0 ∷ b1 ∷ b2 ∷ [])
unfolding encode_group symbol_or_pad has_slack_bits kept_bytes read_symbols
IsCoded-three b0 b1 b2 last h0 h1 h2 =
    let n : ℕ = b0 * 0x10000 + b1 * 0x100 + b2 in
    let (c0, e0, l0) = IsLetter-of (n / 0x40000) in
    let (c1, e1, l1) = IsLetter-of (n / 0x1000) in
    let (c2, e2, l2) = IsLetter-of (n / 0x40) in
    let (c3, e3, l3) = IsLetter-of n in
    let read : read_symbols last 0 (c0 ∷ c1 ∷ c2 ∷ c3 ∷ []) 0 3 ≡ ok (n, 3) =
      read_letter last 0 (n / 0x40000 % 64) (c1 ∷ c2 ∷ c3 ∷ []) 0 (n / 0x40000) 3 l0 (omega arith)
        (omega arith)
      ∙ read_letter last 1 (n / 0x1000 % 64) (c2 ∷ c3 ∷ []) (n / 0x40000) (n / 0x1000) 3 l1
          (omega arith) (omega arith)
      ∙ read_letter last 2 (n / 0x40 % 64) (c3 ∷ []) (n / 0x1000) (n / 0x40) 3 l2 (omega arith)
          (omega arith)
      ∙ read_letter last 3 (n % 64) [] (n / 0x40) n 3 l3 (omega arith) (omega arith) in
    record {
      s0 = c0;
      s1 = c1;
      s2 = c2;
      s3 = c3;
      coded = rw (packed b0 b1 b2 h1 h2) (rw (e0) (rw (e1) (rw (e2) (rw (e3) refl))));
      decoded = decode_kept last (c0 ∷ c1 ∷ c2 ∷ c3 ∷ []) n 3 read refl ∙ ground arith;
      ascii = (l0.ascii, (l1.ascii, (l2.ascii, (l3.ascii, tt))));
    }

IsCoded-two :
    (b0 b1 : ℕ) → b0 < 256 → b1 < 256 → IsCoded (encode_group b0 (some b1) none) true (b0 ∷ b1 ∷ [])
unfolding encode_group symbol_or_pad has_slack_bits kept_bytes read_symbols shl
IsCoded-two b0 b1 h0 h1 =
    let n : ℕ = b0 * 0x10000 + b1 * 0x100 + 0 in
    let (c0, e0, l0) = IsLetter-of (n / 0x40000) in
    let (c1, e1, l1) = IsLetter-of (n / 0x1000) in
    let (c2, e2, l2) = IsLetter-of (n / 0x40) in
    let read : read_symbols true 0 (c0 ∷ c1 ∷ c2 ∷ b'=' ∷ []) 0 3 ≡ ok (n, 2) =
      read_letter true 0 (n / 0x40000 % 64) (c1 ∷ c2 ∷ b'=' ∷ []) 0 (n / 0x40000) 3 l0 (omega arith)
        (omega arith)
      ∙ read_letter true 1 (n / 0x1000 % 64) (c2 ∷ b'=' ∷ []) (n / 0x40000) (n / 0x1000) 3 l1
          (omega arith) (omega arith)
      ∙ read_letter true 2 (n / 0x40 % 64) (b'=' ∷ []) (n / 0x1000) (n / 0x40) 3 l2 (omega arith)
          (omega arith)
      ∙ read_pad 3 [] (n / 0x40) n 3 2 (omega arith) (omega arith) refl in
    record {
      s0 = c0;
      s1 = c1;
      s2 = c2;
      s3 = b'=';
      coded = rw (packed b0 b1 0 h1 (omega arith)) (rw (e0) (rw (e1) (rw (e2) refl)));
      decoded =
          decode_kept true (c0 ∷ c1 ∷ c2 ∷ b'=' ∷ []) n 2 read (ground (arith, bit_and-255 n))
          ∙ ground arith;
      ascii = (l0.ascii, (l1.ascii, (l2.ascii, (omega arith, tt))));
    }

IsCoded-one : (b0 : ℕ) → b0 < 256 → IsCoded (encode_group b0 none none) true (b0 ∷ [])
unfolding encode_group symbol_or_pad has_slack_bits kept_bytes read_symbols shl
IsCoded-one b0 h0 =
    let n : ℕ = b0 * 0x10000 + 0 * 0x100 + 0 in
    let (c0, e0, l0) = IsLetter-of (n / 0x40000) in
    let (c1, e1, l1) = IsLetter-of (n / 0x1000) in
    let read : read_symbols true 0 (c0 ∷ c1 ∷ b'=' ∷ b'=' ∷ []) 0 3 ≡ ok (n, 1) =
      read_letter true 0 (n / 0x40000 % 64) (c1 ∷ b'=' ∷ b'=' ∷ []) 0 (n / 0x40000) 3 l0
        (omega arith) (omega arith)
      ∙ read_letter true 1 (n / 0x1000 % 64) (b'=' ∷ b'=' ∷ []) (n / 0x40000) (n / 0x1000) 3 l1
          (omega arith) (omega arith)
      ∙ read_pad 2 (b'=' ∷ []) (n / 0x1000) (n / 0x40) 3 1 (omega arith) (omega arith) refl
      ∙ read_pad 3 [] (n / 0x40) n 1 1 (omega arith) (omega arith) refl in
    record {
      s0 = c0;
      s1 = c1;
      s2 = b'=';
      s3 = b'=';
      coded = rw (packed b0 0 0 (omega arith) (omega arith)) (rw (e0) (rw (e1) refl));
      decoded =
          decode_kept true (c0 ∷ c1 ∷ b'=' ∷ b'=' ∷ []) n 1 read (ground (arith, bit_and-65535 n))
          ∙ ground arith;
      ascii = (l0.ascii, (l1.ascii, (omega arith, (omega arith, tt))));
    }

-- What the induction over the groups carries.
record IsText (o : Option Str) (bytes : List ℕ) : Type 0 where
  text : Str
  coded : o ≡ some text
  decoded : decode_groups text ≡ ok bytes
  whole : length text % 4 ≡ 0
  ascii : All (λ c. c < 0x80) text

coded_groups : (bytes : List ℕ) → All (λ b. b < 256) bytes → IsText (encode bytes) bytes
unfolding encode decode_groups
coded_groups [] h = record { text = []; coded = refl; decoded = refl; whole = refl; ascii = tt }
coded_groups (b0 ∷ []) (h0, _) =
    let g = IsCoded-one b0 h0 in
    record {
      text = g.s0 ∷ g.s1 ∷ g.s2 ∷ g.s3 ∷ [];
      coded = g.coded;
      decoded = rw g.decoded refl;
      whole = refl;
      ascii = g.ascii;
    }
coded_groups (b0 ∷ b1 ∷ []) (h0, (h1, _)) =
    let g = IsCoded-two b0 b1 h0 h1 in
    record {
      text = g.s0 ∷ g.s1 ∷ g.s2 ∷ g.s3 ∷ [];
      coded = g.coded;
      decoded = rw g.decoded refl;
      whole = refl;
      ascii = g.ascii;
    }
coded_groups (b0 ∷ b1 ∷ b2 ∷ bytes) (h0, (h1, (h2, h))) =
    let r = coded_groups bytes h in
    let g = IsCoded-three b0 b1 b2 (is_empty r.text) h0 h1 h2 in
    record {
      text = g.s0 ∷ g.s1 ∷ g.s2 ∷ g.s3 ∷ r.text;
      coded = rw g.coded (rw r.coded refl);
      decoded = rw g.decoded (rw r.decoded refl);
      whole = omega (arith, r.whole);
      ascii = let (a0, (a1, (a2, (a3, _)))) = g.ascii in (a0, (a1, (a2, (a3, r.ascii))));
    }

-- Every list of bytes is encoded, and its text is decoded to that list.
pub decode-encode :
    (bytes : List ℕ)
    → All (λ b. b < 256) bytes
    → (text : Str) × (encode bytes ≡ some text) × (decode text ≡ ok bytes)
unfolding decode
decode-encode bytes h =
    let r = coded_groups bytes h in
    (r.text, r.coded, ground (arith, as_bytes_ascii r.text r.ascii, r.decoded, r.whole))

zero-IsLetter : IsLetter 0 b'A'
unfolding decode_symbol
zero-IsLetter = record { read = refl; no_padding = refl; ascii = omega arith }

-- A text that closes a group of one byte by `=A` is decoded like the one that closes it by `==`.
pub decode_loose :
    (b : ℕ)
    → b < 256
    → (s0 s1 : ℕ) × (encode (b ∷ []) ≡ some (s0 ∷ s1 ∷ b'=' ∷ b'=' ∷ []))
      × (decode (s0 ∷ s1 ∷ b'=' ∷ b'A' ∷ []) ≡ ok (b ∷ []))
unfolding decode decode_groups encode encode_group symbol_or_pad has_slack_bits kept_bytes
    read_symbols shl
decode_loose b h =
    let n : ℕ = b * 0x10000 + 0 * 0x100 + 0 in
    let (c0, e0, l0) = IsLetter-of (n / 0x40000) in
    let (c1, e1, l1) = IsLetter-of (n / 0x1000) in
    let text : Str = c0 ∷ c1 ∷ b'=' ∷ b'A' ∷ [] in
    let read : read_symbols true 0 text 0 3 ≡ ok (n, 1) =
      read_letter true 0 (n / 0x40000 % 64) (c1 ∷ b'=' ∷ b'A' ∷ []) 0 (n / 0x40000) 3 l0
        (omega arith) (omega arith)
      ∙ read_letter true 1 (n / 0x1000 % 64) (b'=' ∷ b'A' ∷ []) (n / 0x40000) (n / 0x1000) 3 l1
          (omega arith) (omega arith)
      ∙ read_pad 2 (b'A' ∷ []) (n / 0x1000) (n / 0x40) 3 1 (omega arith) (omega arith) refl
      ∙ read_letter true 3 0 [] (n / 0x40) n 1 zero-IsLetter (omega arith) (omega arith) in
    let group : decode_group true text ≡ ok (b ∷ []) =
      decode_kept true text n 1 read (ground (arith, bit_and-65535 n)) ∙ ground arith in
    let plain : as_bytes text ≡ text =
      as_bytes_ascii text (l0.ascii, (l1.ascii, (omega arith, (omega arith, tt)))) in
    (
      c0,
      c1,
      rw (packed b 0 0 (omega arith) (omega arith)) (rw (e0) (rw (e1) refl)),
      rw plain (rw group refl),
    )
