-- ===== src/Error/Tests.antt =====
-- Examples of the theorems about the redaction of crates/tinybus/src/error.rs.
use tinybus.Prelude.{arith, ◌≡◌, refl, [], ◌∷◌, ◌++◌}
use tinybus.Text.{Str}
use tinybus.Error.Redact.{
  redact_values, ellipsis, quote, backslash, IsHidden, redact_values-IsHidden,
}

-- The value holds an escaped quote.
abbrev value : Str
value = b'a' ∷ backslash ∷ quote ∷ []

value-IsHidden : IsHidden quote value
value-IsHidden =
    IsHidden.plain (λ e. omega arith) (λ e k. omega arith) (IsHidden.escape refl IsHidden.done)

redact_values-IsHidden_example :
    redact_values ((b's' ∷ []) ++ quote ∷ (value ++ quote ∷ (b',' ∷ [])))
    ≡ (b's' ∷ []) ++ quote ∷ ellipsis ∷ quote ∷ redact_values (b',' ∷ [])
redact_values-IsHidden_example =
    redact_values-IsHidden (b's' ∷ []) value (b',' ∷ []) quote (refl, tt) refl value-IsHidden
