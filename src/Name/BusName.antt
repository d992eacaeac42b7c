-- ===== src/Name/BusName.antt =====
-- `BusName` of crates/tinybus/src/name.rs: unique names `:1.7` and well-known names.
pub mod Grammar
use tinybus.Prelude.{ℕ, Bool, ◌||◌, not, none, some, List, [], ◌∷◌, all, nat_eq, is_empty}
use tinybus.Text.{Str, txt, strip_prefix, starts_with, is_ascii_digit, as_bytes}
use tinybus.Text.Decimal.{decimal}
use tinybus.Text.Split.{split}
use tinybus.Name.Types.{BusName}
use tinybus.Name.Dotted.{invalid, validate_dotted}
use tinybus.Error.{Result, ok, ◌>>◌, refuse_if}

abbrev of_text : Str → BusName
of_text s = record { text = s }

-- The loop over the elements of a unique name.
check_digits : Str → List Str → Result (Unit {0})
check_digits input [] = ok tt
check_digits input (e ∷ es) = do
  refuse_if (is_empty e || not (all is_ascii_digit (as_bytes e)))
      (invalid (txt "bus name") input (txt "a unique name is `:` followed by dot-separated digits"))
  check_digits input es

unfoldable pub new : Str → Result BusName
unfolding check_digits
new input = elim (strip_prefix input (b':' ∷ [])) [
  | some rest ↦ do
    refuse_if (is_empty rest) (invalid (txt "bus name") input (txt "is just `:`"))
    check_digits input (split rest b'.')
    ok (of_text input)
  | none ↦ do validate_dotted (txt "bus name") input; ok (of_text input)
]

-- `format!(":1.{id}")`
unfoldable pub unique : ℕ → BusName
unique id = of_text (b':' ∷ b'1' ∷ b'.' ∷ decimal id)

unfoldable pub is_unique : BusName → Bool
is_unique name = starts_with name.text (b':' ∷ [])
