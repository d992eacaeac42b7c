-- ===== src/Name/Dotted.antt =====
-- `invalid`, `validate_dotted` and `MAX_NAME_LEN` of crates/tinybus/src/name.rs.
pub mod Grammar
use tinybus.Prelude.{
  ℕ, Bool, ◌||◌, not, List, [], ◌∷◌, ◌++◌, ltb, nat_eq, ◌==◌, if◌then◌else◌, is_empty, length,
}
use tinybus.Text.{Str, txt, len, is_ascii_alphabetic, is_ascii_alphanumeric}
use tinybus.Text.Decimal.{decimal}
use tinybus.Text.Split.{split}
use tinybus.Error.{Error, Result, ok, err, ◌>>◌, refuse_if}

abbrev pub max_name_len : ℕ
max_name_len = 255

pub invalid : Str → Str → Str → Error
invalid kind input reason = Error.invalid_name kind input reason

abbrev pub too_long : Str
too_long = txt "is longer than " ++ (decimal max_name_len ++ txt " bytes")

abbrev pub is_start : ℕ → Bool
is_start c = is_ascii_alphabetic c || c == b'_'

abbrev pub is_rest : ℕ → Bool
is_rest c = is_ascii_alphanumeric c || (c == b'_' || c == b'-')

module _ (kind input : Str) where
  -- The loop over the characters of one element.
  check_rest : Str → Str → Result (Unit {0})
  check_rest element [] = ok tt
  check_rest element (c ∷ s) =
      let next = check_rest element s in
      if not (is_rest c)
      then err (
          invalid kind input
            (txt "element `" ++ (element ++ (txt "` contains `" ++ (c ∷ txt "`")))))
      else next

  check_element : Str → Result (Unit {0})
  unfolding check_rest
  check_element [] = err (invalid kind input (txt "has an empty element"))
  check_element (first ∷ s) =
      if not (is_start first)
      then err (
          invalid kind input
            (txt "element `" ++ ((first ∷ s) ++ txt "` must start with a letter or underscore")))
      else check_rest (first ∷ s) s

  -- The loop over the elements.
  check_elements : List Str → Result (Unit {0})
  check_elements [] = ok tt
  check_elements (e ∷ es) = do check_element e; check_elements es

unfoldable pub validate_dotted : Str → Str → Result (Unit {0})
unfolding check_elements check_element check_rest
validate_dotted kind input = do
  refuse_if (is_empty input) (invalid kind input (txt "is empty"))
  refuse_if (ltb max_name_len (len input)) (invalid kind input too_long)
  refuse_if (ltb (length (split input b'.')) 2)
      (invalid kind input (txt "needs at least two dot-separated elements"))
  check_elements kind input (split input b'.')
