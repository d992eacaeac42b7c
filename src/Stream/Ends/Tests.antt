-- ===== src/Stream/Ends/Tests.antt =====
-- Examples of the theorems about the two ends of a stream in crates/tinybus/src/stream/mod.rs, with a
-- receiver that accepts every chunk.
use tinybus.Prelude.{ℕ, ◌≡◌, some, List, [], ◌∷◌, ◌++◌, arith}
use tinybus.Text.{Str, txt}
use tinybus.Error.{Result, ok, err}
use tinybus.Stream.Base64.{decode}
use tinybus.Stream.Ends.{StreamWriter, Receiver, write}
use tinybus.Stream.Ends.Whole.{write-whole}

-- The receiver's state is what it has seen.
abbrev after_write : List ℕ → Result (List ℕ) → List ℕ × Result (Unit {0})
after_write seen (ok chunk) = (seen ++ chunk, ok tt)
after_write seen (err e) = (seen, err e)

abbrev accepting : Receiver (List ℕ)
accepting = record { write = λ seen id seq text. after_write seen (decode text) }

accepting-honest :
    (seen after : List ℕ) (id : Str) (seq : ℕ) (text : Str) (chunk : List ℕ)
    → decode text ≡ ok chunk
    → accepting.write seen id seq text ≡ (after, ok tt)
    → after ≡ seen ++ chunk
accepting-honest seen after id seq text chunk e h = ground (arith, e, h)

abbrev writer : StreamWriter
writer = record { id = txt "s1"; seq = 0; sent = 0 }

abbrev payload : List ℕ
payload = 104 ∷ 105 ∷ 33 ∷ []

write-whole_example :
    (w' : StreamWriter) × (after : List ℕ) × (answer : Result (Unit {0})) × (write accepting writer
        [] payload
      ≡ some (w', (after, answer)))
    × (answer ≡ ok tt → (after ≡ payload) × (w'.sent ≡ 3))
write-whole_example =
    write-whole accepting (λ seen. seen) accepting-honest writer [] payload
      (omega arith, (omega arith, (omega arith, tt))) (omega arith)
