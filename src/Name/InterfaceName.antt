-- ===== src/Name/InterfaceName.antt =====
-- `InterfaceName` of crates/tinybus/src/name.rs.
pub mod Grammar
use tinybus.Text.{Str, txt}
use tinybus.Name.Types.{InterfaceName}
use tinybus.Name.Dotted.{validate_dotted}
use tinybus.Error.{Result, ok, ◌>>◌}

unfoldable pub new : Str → Result InterfaceName
new input = do validate_dotted (txt "interface name") input; ok (record { text = input })
