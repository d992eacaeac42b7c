-- ===== src/Text/Trim.antt =====
-- What `trim` leaves alone.
use tinybus.Prelude.{ℕ, ◌≡◌, refl, ap, ◌∙◌, false, [], ◌∷◌, ◌++◌, arith, All}
use tinybus.Text.{Str, is_whitespace, trim_start, trim_end, trim_onto, trim}

abbrev pub NoSpace : Str → Type 0
NoSpace = All (λ c. is_whitespace c ≡ false)

trim_onto_cons : (c d : ℕ) (s t : Str) → t ≡ d ∷ s → trim_onto c t ≡ c ∷ t
trim_onto_cons c d s t e = ground arith

trim_end_onto : (c d : ℕ) (s : Str) → trim_end (d ∷ s) ≡ d ∷ s → trim_end (c ∷ d ∷ s) ≡ c ∷ d ∷ s
unfolding trim_end
trim_end_onto c d s e = ap (trim_onto c) e

pub trim_end-NoSpace : (s : Str) → NoSpace s → trim_end s ≡ s
unfolding trim_end
trim_end-NoSpace [] h = refl
trim_end-NoSpace (c ∷ []) (hc, h) = ground arith
trim_end-NoSpace (c ∷ d ∷ s) (hc, h) = ap (trim_onto c) (trim_end-NoSpace (d ∷ s) h)

-- Only the end of a text matters to `trim_end`.
pub trim_end-append :
    (s : Str) (c : ℕ) (t : Str) → trim_end (c ∷ t) ≡ c ∷ t → trim_end (s ++ c ∷ t) ≡ s ++ c ∷ t
trim_end-append [] c t h = h
trim_end-append (d ∷ []) c t h = trim_end_onto d c t h
trim_end-append (d ∷ e ∷ s) c t h = trim_end_onto d e (s ++ c ∷ t) (trim_end-append (e ∷ s) c t h)

pub trim_start-cons : (c : ℕ) (s : Str) → is_whitespace c ≡ false → trim_start (c ∷ s) ≡ c ∷ s
unfolding trim_start
trim_start-cons c s h = ground arith

pub trim_start_space : (s : Str) → trim_start (0x20 ∷ s) ≡ trim_start s
unfolding trim_start is_whitespace
trim_start_space s = refl

pub trim-NoSpace : (s : Str) → NoSpace s → trim s ≡ s
unfolding trim trim_start
trim-NoSpace [] h = trim_end-NoSpace [] tt
trim-NoSpace (c ∷ s) (hc, h) =
    ap trim_end (trim_start-cons c s hc) ∙ trim_end-NoSpace (c ∷ s) (hc, h)
