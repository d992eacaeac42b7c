-- ===== src/Name/MemberName/Grammar.antt =====
-- The grammar of member names.
use tinybus.Prelude.{◌≤◌, ◌≡◌, ◌↔◌, true, not, none, [], ◌∷◌, arith, All, find}
use tinybus.Text.{Str, len}
use tinybus.Name.Types.{MemberName}
use tinybus.Name.Dotted.{max_name_len, is_start}
use tinybus.Name.MemberName.{new, is_word}
use tinybus.Error.{ok}

-- `[A-Za-z_][A-Za-z0-9_]*`, in 255 bytes.
abbrev pub IsMember : Str → Type 0
IsMember [] = ⊥
IsMember (c ∷ s) =
    (is_start c ≡ true) × All (λ d. is_word d ≡ true) s × (len (c ∷ s) ≤ max_name_len)

pub find-not_word :
    (s : Str) → (find (λ d. not (is_word d)) s ≡ none) ↔ All (λ d. is_word d ≡ true) s
find-not_word [] = ground arith
find-not_word (c ∷ s) = ground (arith, find-not_word s)

-- The constructor accepts exactly a letter or `_` followed by letters, digits and `_`, in at most
-- 255 bytes, and keeps the text as it is.
pub new_member_name_iff : (s : Str) (n : MemberName) → (new s ≡ ok n) ↔ (IsMember s × (n.text ≡ s))
unfolding new
new_member_name_iff [] n = ground arith
new_member_name_iff (c ∷ s) n = ground (arith, find-not_word s)
