-- ===== src/Name/InterfaceName/Grammar.antt =====
-- The grammar of interface names.
use tinybus.Prelude.{◌≡◌, ◌↔◌, arith}
use tinybus.Text.{Str, txt}
use tinybus.Name.Types.{InterfaceName}
use tinybus.Name.Dotted.Grammar.{IsDotted, validate_dotted_iff}
use tinybus.Name.InterfaceName.{new}
use tinybus.Error.{ok}

-- The constructor accepts exactly the dotted names: two or more elements, each a letter or `_`
-- followed by letters, digits, `_` or `-`, in at most 255 bytes; and it keeps the text as it is.
pub new_interface_name_iff :
    (s : Str) (n : InterfaceName) → (new s ≡ ok n) ↔ (IsDotted s × (n.text ≡ s))
unfolding new
new_interface_name_iff s n = (
  λ h. ((validate_dotted_iff (txt "interface name") s).0 (ground arith), ground arith),
  λ (d, e). ground (arith, (validate_dotted_iff (txt "interface name") s).1 d),
)
