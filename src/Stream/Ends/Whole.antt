-- ===== src/Stream/Ends/Whole.antt =====
-- What the two ends of crates/tinybus/src/stream/mod.rs carry across.
use mathlib.Core.Path.{subst}
use tinybus.Prelude.{
  ℕ, zero, suc, ◌+◌, ◌%◌, ◌≤◌, ◌<◌, ◌≡◌, refl, sym, ap, ◌∙◌, inl, inr, false, Option, none, some,
  List, [], ◌∷◌, ◌++◌, arith, ltb, leb, if◌then◌else◌, length, take, length-append, append_assoc,
  append-nil, All, Bool-cases, map,
}
use tinybus.Text.{Str}
use tinybus.Text.Decimal.{u64_size}
use tinybus.Error.{Error, Result, Result-cases, ok, err}
use tinybus.Stream.Base64.{decode}
use tinybus.Stream.Base64.RoundTrip.{decode-encode}
use tinybus.Stream.Inbound.{max_chunk_len}
use tinybus.Stream.Ends.{
  StreamWriter, drop, chunks_within, chunks, Receiver, write_chunk, write_chunks, write, read_loop,
  read_to_end_capped,
}

abbrev pub concat : List (List ℕ) → List ℕ
concat [] = []
concat (c ∷ cs) = c ++ concat cs

take-drop : (n : ℕ) (xs : List ℕ) → take n xs ++ drop n xs ≡ xs
take-drop zero xs = refl
take-drop (suc n) [] = refl
take-drop (suc n) (x ∷ xs) = ap (λ ys. x ∷ ys) (take-drop n xs)

length-drop : (n : ℕ) (xs : List ℕ) → length (drop n xs) ≤ length xs
length-drop zero xs = omega arith
length-drop (suc n) [] = omega arith
length-drop (suc n) (x ∷ xs) = omega (arith, length-drop n xs)

-- Enough fuel cuts all of the bytes.
concat-chunks_within :
    (fuel n : ℕ) (bytes : List ℕ)
    → length bytes ≤ fuel
    → concat (chunks_within fuel (suc n) bytes) ≡ bytes
unfolding chunks_within
concat-chunks_within zero n [] h = refl
concat-chunks_within zero n (b ∷ bytes) h = ground (arith, h)
concat-chunks_within (suc fuel) n [] h = refl
concat-chunks_within (suc fuel) n (b ∷ bytes) h =
    ap (λ rest. take (suc n) (b ∷ bytes) ++ rest)
      (concat-chunks_within fuel n (drop n bytes) (omega (arith, h, length-drop n bytes)))
    ∙ take-drop (suc n) (b ∷ bytes)

-- A read to the end gives all of the bytes, or nothing if they exceed the limit.
read_loop-whole :
    (limit : ℕ) (out : List ℕ) (cs : List (List ℕ)) (rest : List (Result (Option (List ℕ))))
    → length out ≤ limit
    → read_loop limit out (map (λ c. ok (some c)) cs ++ (ok none ∷ rest))
      ≡ some (
          if leb (length (out ++ concat cs)) limit
          then ok (out ++ concat cs)
          else err (Error.stream_too_large limit))
unfolding read_loop
read_loop-whole limit out [] rest h = ground (arith, h, append-nil out)
read_loop-whole limit out (c ∷ cs) rest h = elim (Bool-cases (ltb limit (length out + length c))) [
  | inl y ↦ ground (arith, y, length-append out (c ++ concat cs), length-append c (concat cs))
  | inr n ↦ rw n (
      read_loop-whole limit (out ++ c) cs rest (ground (arith, n, length-append out c))
      ∙ rw (append_assoc out c (concat cs)) refl)
]

abbrev IsBytes : List ℕ → Type 0
IsBytes = All (λ b. b < 256)

take-IsBytes : (n : ℕ) (xs : List ℕ) → IsBytes xs → IsBytes (take n xs)
take-IsBytes zero xs h = tt
take-IsBytes (suc n) [] h = tt
take-IsBytes (suc n) (x ∷ xs) (p, h) = (p, take-IsBytes n xs h)

drop-IsBytes : (n : ℕ) (xs : List ℕ) → IsBytes xs → IsBytes (drop n xs)
drop-IsBytes zero xs h = h
drop-IsBytes (suc n) [] h = tt
drop-IsBytes (suc n) (x ∷ xs) (p, h) = drop-IsBytes n xs h

record IsChunk (n : ℕ) (c : List ℕ) : Type 0 where
  fits : length c ≤ n
  bytes : IsBytes c

length-take_le : (n : ℕ) (xs : List ℕ) → length (take n xs) ≤ n
length-take_le zero xs = omega arith
length-take_le (suc n) [] = omega arith
length-take_le (suc n) (x ∷ xs) = omega (arith, length-take_le n xs)

chunks_within-IsChunk :
    (fuel n : ℕ) (bytes : List ℕ) → IsBytes bytes → All (IsChunk n) (chunks_within fuel n bytes)
unfolding chunks_within
chunks_within-IsChunk zero n bytes h = tt
chunks_within-IsChunk (suc fuel) n [] h = tt
chunks_within-IsChunk (suc fuel) n (b ∷ bytes) h = (
  record { fits = length-take_le n (b ∷ bytes); bytes = take-IsBytes n (b ∷ bytes) h },
  chunks_within-IsChunk fuel n (drop n (b ∷ bytes)) (drop-IsBytes n (b ∷ bytes) h),
)

module _ {World : Type 0} (peer : Receiver World) (seen : World → List ℕ)
    (honest : (world after : World) (id : Str) (seq : ℕ) (text : Str) (chunk : List ℕ)
      → decode text ≡ ok chunk
      → peer.write world id seq text ≡ (after, ok tt)
      → seen after ≡ seen world ++ chunk) where
  -- The writer's answer, and what the receiver has seen if it is not an error.
  abbrev IsCarried :
      StreamWriter → World → List ℕ → Option (StreamWriter × (World × Result (Unit {0}))) → Type 0
  IsCarried w world bytes run =
      (w' : StreamWriter) × (after : World) × (answer : Result (Unit {0})) × (run
        ≡ some (w', (after, answer)))
      × (answer ≡ ok tt → (seen after ≡ seen world ++ bytes) × (w'.sent ≡ w.sent + length bytes))

  write_chunk-IsCarried :
      (w : StreamWriter) (world : World) (c : List ℕ)
      → IsChunk max_chunk_len c
      → w.sent + length c < u64_size
      → IsCarried w world c (write_chunk peer w world c)
  unfolding write_chunk
  write_chunk-IsCarried w world c h room =
      let (text, coded, decoded) = decode-encode c h.bytes in
      let called = peer.write world w.id w.seq text in
      let small : ltb max_chunk_len (length c) ≡ false = ground (arith, h.fits) in
      elim (Result-cases called.1) [
        | inl (e, he) ↦ (
          w,
          called.0,
          err e,
          rw (small, coded, he, write_chunk) refl,
          λ no_error. ground (arith, no_error),
        )
        | inr (done, hd) ↦ (
          record w { seq = (w.seq + 1) % u64_size; sent = (w.sent + length c) % u64_size },
          called.0,
          ok tt,
          rw (small, coded, hd, write_chunk) refl,
          λ fine. (
            honest world called.0 w.id w.seq text c decoded (ap (λ a. (called.0, a)) hd),
            omega (arith, room),
          ),
        )
      ]

  write_chunks-IsCarried :
      (w : StreamWriter) (world : World) (cs : List (List ℕ))
      → All (IsChunk max_chunk_len) cs
      → w.sent + length (concat cs) < u64_size
      → IsCarried w world (concat cs) (write_chunks peer w world cs)
  unfolding write_chunks
  write_chunks-IsCarried w world [] h room =
      (w, world, ok tt, refl, λ fine. (sym (append-nil (seen world)), omega arith))
  write_chunks-IsCarried w world (c ∷ cs) (p, h) room =
      let split = length-append c (concat cs) in
      let (w', after, answer, e, first) =
        write_chunk-IsCarried w world c p (omega (arith, room, split)) in
      elim (Result-cases answer) [
        | inl (refusal, he) ↦
            (w', after, answer, rw (e, he, write_chunks) refl, λ fine. ground (arith, he, fine))
        | inr (done, hd) ↦
            let (seen_first, sent_first) = first hd in
            let (w'', last, verdict, e', rest) =
              write_chunks-IsCarried w' after cs h (omega (arith, room, split, sent_first)) in
            (
              w'',
              last,
              verdict,
              rw (e, hd, write_chunks) e',
              λ fine.
                  let (seen_rest, sent_rest) = rest fine in
                  (
                    seen_rest
                        ∙ (ap (λ xs. xs ++ concat cs) seen_first
                            ∙ append_assoc (seen world) c (concat cs)),
                    omega (arith, sent_first, sent_rest, split),
                  ),
            )
      ]

  -- Writing any bytes through a receiver that appends the decoded chunk of each write it accepts
  -- returns; if the answer is not an error, the receiver has seen exactly these bytes, and the
  -- writer counts them, while its count leaves the 64-bit counter room for them.
  pub write-whole :
      (w : StreamWriter) (world : World) (bytes : List ℕ)
      → IsBytes bytes
      → w.sent + length bytes < u64_size
      → (w' : StreamWriter) × (after : World) × (answer : Result (Unit {0})) × (write peer w world
            bytes
          ≡ some (w', (after, answer)))
        × (answer ≡ ok tt → (seen after ≡ seen world ++ bytes) × (w'.sent ≡ w.sent + length bytes))
  unfolding write
  write-whole w world bytes h room =
      let whole : concat (chunks max_chunk_len bytes) ≡ bytes =
        concat-chunks_within (length bytes) 524287 bytes (omega arith) in
      let fit = chunks_within-IsChunk (length bytes) max_chunk_len bytes h in
      subst (λ xs. IsCarried w world xs (write peer w world bytes)) whole
        (write_chunks-IsCarried w world (chunks max_chunk_len bytes) fit (rw whole room))

-- Reading chunks up to a clean end gives all of their bytes in order if they are within the limit,
-- and otherwise the error that the stream is too large.
read_to_end_capped-whole :
    (limit : ℕ) (cs : List (List ℕ)) (rest : List (Result (Option (List ℕ))))
    → read_to_end_capped limit (map (λ c. ok (some c)) cs ++ (ok none ∷ rest))
      ≡ some (
          if leb (length (concat cs)) limit
          then ok (concat cs)
          else err (Error.stream_too_large limit))
read_to_end_capped-whole limit cs rest = read_loop-whole limit [] cs rest (omega arith)
