-- ===== src/Router/Rule/Wire.antt =====
-- `rule_to_wire` of crates/tinybus/src/connection.rs: a match rule as the text that `AddMatch` takes.
pub mod Plain
pub mod RoundTrip
mod Tests
use tinybus.Prelude.{String, Option, none, some, List, [], ◌∷◌, ◌++◌}
use tinybus.Text.{Str, txt}
use tinybus.Text.Split.{join}
use tinybus.Message.Types.{MessageKind}
use tinybus.Router.Rule.{MatchRule}

abbrev pub kind_name : MessageKind → Str
kind_name MessageKind.signal = txt "signal"
kind_name MessageKind.directed_signal = txt "directed_signal"
kind_name MessageKind.method_call = txt "method_call"
kind_name MessageKind.method_return = txt "method_return"
kind_name MessageKind.error = txt "error"

-- `format!("key={v}")`
abbrev pub clause : Str → Str → Str
clause key value = key ++ b'=' ∷ value

-- `if let Some(v) = … { clauses.push(…) }`
abbrev pub push : {A : Type 0} → Str → (A → Str) → Option A → List Str
push key show none = []
push key show (some v) = clause key (show v) ∷ []

abbrev pub clauses : MatchRule → List Str
clauses rule =
    push (txt "type") kind_name rule.kind
    ++ (push (txt "sender") (λ v. v.text) rule.sender
        ++ (push (txt "interface") (λ v. v.text) rule.interface
            ++ (push (txt "member") (λ v. v.text) rule.member
                ++ (push (txt "path") (λ v. v.text) rule.path
                    ++ push (txt "path_namespace") (λ v. v.text) rule.path_namespace))))

unfoldable pub rule_to_wire : MatchRule → Str
rule_to_wire rule = join (clauses rule) b','
