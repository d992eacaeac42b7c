-- ===== src/Name/ObjectPath.antt =====
-- `ObjectPath` of crates/tinybus/src/name.rs.
pub mod Grammar
pub mod Subtree
pub mod Beneath
use mathlib.Core.Option
use tinybus.Prelude.{
  Bool, true, false, not, Option, none, some, List, [], ◌∷◌, ◌++◌, ltb, find, nat_eq, list_eq, ◌==◌,
  if◌then◌else◌, is_empty, get_elem?, is_some_and,
}
use tinybus.Text.{Str, txt, len, as_bytes, starts_with as starts_with_text, ends_with}
use tinybus.Text.Split.{split}
use tinybus.Name.Types.{ObjectPath}
use tinybus.Name.Dotted.{max_name_len, invalid, too_long}
use tinybus.Name.MemberName.{is_word}
use tinybus.Error.{Result, ok, err, ◌>>◌, refuse_if}

abbrev kind : Str
kind = txt "object path"

abbrev slash : Str
slash = b'/' ∷ []

-- `&input[1..]`, for an input that starts with `/`.
abbrev after_first : Str → Str
after_first [] = []
after_first (c ∷ s) = s

-- The loop over the elements.
check_elements : Str → List Str → Result (Unit {0})
check_elements input [] = ok tt
check_elements input (element ∷ es) = do
  refuse_if (is_empty element) (invalid kind input (txt "has an empty element"))
  elim (find (λ c. not (is_word c)) element) [
    | some c ↦
        err (
          invalid kind input
            (txt "element `" ++ (element ++ (txt "` contains `" ++ (c ∷ txt "`")))))
    | none ↦ ok tt
  ]
  check_elements input es

-- The rest of `new`, for an input other than `/`.
check_absolute : Str → Result ObjectPath
unfolding check_elements
check_absolute input = do
  refuse_if (not (starts_with_text input slash)) (invalid kind input (txt "must start with `/`"))
  refuse_if (ends_with input b'/') (invalid kind input (txt "must not end with `/`"))
  check_elements input (split (after_first input) b'/')
  ok (record { text = input })

unfoldable pub new : Str → Result ObjectPath
unfolding check_absolute
new input = do
  refuse_if (ltb max_name_len (len input)) (invalid kind input too_long)
  if input == slash then ok (record { text = input }) else check_absolute input

unfoldable pub root : ObjectPath
root = record { text = slash }

-- `none` is a panic: the byte after the prefix is read by its index.
unfoldable pub starts_with : ObjectPath → ObjectPath → Option Bool
starts_with self other =
    if other.text == slash
    then some true
    else if self.text == other.text
    then some true
    else if not (starts_with_text self.text other.text)
    then some false
    else Option.map (λ b. b == b'/') (get_elem? (as_bytes self.text) (len other.text))

-- The answer of `starts_with`, which never panics.
unfoldable pub is_beneath : ObjectPath → ObjectPath → Bool
unfolding starts_with
is_beneath self other = is_some_and (starts_with self other) (λ b. b)
