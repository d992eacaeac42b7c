-- ===== src/Name/MemberName.antt =====
-- `MemberName` of crates/tinybus/src/name.rs.
pub mod Grammar
use tinybus.Prelude.{ℕ, Bool, not, ◌||◌, none, some, [], ◌∷◌, ◌++◌, ltb, find, nat_eq, ◌==◌}
use tinybus.Text.{Str, txt, len, is_ascii_alphanumeric}
use tinybus.Name.Types.{MemberName}
use tinybus.Name.Dotted.{max_name_len, invalid, too_long, is_start}
use tinybus.Error.{Result, ok, err, ◌>>◌, refuse_if}

abbrev pub is_word : ℕ → Bool
is_word c = is_ascii_alphanumeric c || c == b'_'

abbrev kind : Str
kind = txt "member name"

unfoldable pub new : Str → Result MemberName
new [] = err (invalid kind [] (txt "is empty"))
new (first ∷ s) = do
  let input = first ∷ s
  refuse_if (ltb max_name_len (len input)) (invalid kind input too_long)
  refuse_if (not (is_start first))
      (invalid kind input (txt "must start with a letter or underscore"))
  elim (find (λ c. not (is_word c)) s) [
    | some c ↦ err (invalid kind input (txt "contains `" ++ (c ∷ txt "`")))
    | none ↦ ok (record { text = input })
  ]
