-- ===== src/Stream/Ends.antt =====
-- The two ends of a stream in crates/tinybus/src/stream/mod.rs: `StreamWriter`, whose calls go to a
-- receiver that is a parameter, and `StreamReader::read_to_end_capped`.
pub mod Whole
pub mod Tests
use tinybus.Prelude.{
  ℕ, zero, suc, ◌+◌, ◌%◌, Option, none, some, List, [], ◌∷◌, ◌++◌, ltb, if◌then◌else◌, length, take,
}
use tinybus.Text.{Str, txt}
use tinybus.Text.Decimal.{u64_size, decimal}
use tinybus.Error.{Error, Result, ok, err}
use tinybus.Stream.Base64.{encode}
use tinybus.Stream.Inbound.{max_chunk_len}

-- The part of a `StreamWriter` that its calls read and change.
pub record StreamWriter : Type 0 where
  pub id : Str
  pub seq : ℕ
  pub sent : ℕ

abbrev pub drop : ℕ → List ℕ → List ℕ
drop zero xs = xs
drop (suc n) [] = []
drop (suc n) (x ∷ xs) = drop n xs

-- `slice::chunks`, on fuel: each chunk takes at least one element.
unfoldable pub chunks_within : ℕ → ℕ → List ℕ → List (List ℕ)
chunks_within zero n bytes = []
chunks_within (suc fuel) n [] = []
chunks_within (suc fuel) n (b ∷ bytes) =
    take n (b ∷ bytes) ∷ chunks_within fuel n (drop n (b ∷ bytes))

abbrev pub chunks : ℕ → List ℕ → List (List ℕ)
chunks n bytes = chunks_within (length bytes) n bytes

-- `call("Write", …)` on the receiver's state, with the id of the stream.
pub record Receiver (World : Type 0) : Type 0 where
  pub write : World → Str → ℕ → Str → World × Result (Unit {0})

abbrev too_long : ℕ → Error
too_long n = Error.protocol (
    txt "chunk of "
    ++ (decimal n ++ (txt " bytes exceeds the " ++ (decimal max_chunk_len ++ txt "-byte cap"))))

-- Every call answers, or the encoder panics (`none`), which it does not do on bytes.
module _ {World : Type 0} (peer : Receiver World) where
  unfoldable pub write_chunk :
      StreamWriter → World → List ℕ → Option (StreamWriter × (World × Result (Unit {0})))
  write_chunk w world chunk =
      if ltb max_chunk_len (length chunk)
      then some (w, (world, err (too_long (length chunk))))
      else elim (encode chunk) [
        | none ↦ none
        | some text ↦
            let (after, answer) = peer.write world w.id w.seq text in
            elim answer [
              | err e ↦ some (w, (after, err e))
              | ok done ↦ some (
                record w {
                  seq = (w.seq + 1) % u64_size;
                  sent = (w.sent + length chunk) % u64_size;
                },
                (after, ok tt),
              )
            ]
      ]

  unfoldable pub write_chunks :
      StreamWriter → World → List (List ℕ) → Option (StreamWriter × (World × Result (Unit {0})))
  unfolding write_chunk
  write_chunks w world [] = some (w, (world, ok tt))
  write_chunks w world (c ∷ cs) = elim (write_chunk w world c) [
    | none ↦ none
    | some (w', (world', answer)) ↦
        let rest = write_chunks w' world' cs in
        elim answer as (λ a. Option (StreamWriter × (World × Result (Unit {0})))) [
          | err e ↦ some (w', (world', err e))
          | ok done ↦ rest
        ]
  ]

  unfoldable pub write :
      StreamWriter → World → List ℕ → Option (StreamWriter × (World × Result (Unit {0})))
  unfolding write_chunks
  write w world bytes = write_chunks w world (chunks max_chunk_len bytes)

-- `read_to_end_capped` over what `next_chunk` answers in turn; `none` if it still waits for more.
unfoldable pub read_loop : ℕ → List ℕ → List (Result (Option (List ℕ))) → Option (Result (List ℕ))
read_loop limit out [] = none
read_loop limit out (err e ∷ answers) = some (err e)
read_loop limit out (ok none ∷ answers) = some (ok out)
read_loop limit out (ok (some chunk) ∷ answers) =
    let rest = read_loop limit (out ++ chunk) answers in
    if ltb limit (length out + length chunk)
    then some (err (Error.stream_too_large limit))
    else rest

abbrev pub read_to_end_capped : ℕ → List (Result (Option (List ℕ))) → Option (Result (List ℕ))
read_to_end_capped limit answers = read_loop limit [] answers
