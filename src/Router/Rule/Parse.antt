-- ===== src/Router/Rule/Parse.antt =====
-- `MatchRule::parse`: the comma-separated `key=value` form.
use tinybus.Prelude.{
  not, some, List, [], ◌∷◌, ◌++◌, ◌==◌, list_eq, nat_eq, if◌then◌else◌, filter, is_empty,
}
use tinybus.Text.{Str, txt, trim}
use tinybus.Text.Split.{split, split_once}
use tinybus.Error.{Error, Result, ok, err, ◌>>=◌, ok_or}
use tinybus.Message.Types.{MessageKind}
use tinybus.Name.BusName
use tinybus.Name.ObjectPath
use tinybus.Name.InterfaceName
use tinybus.Name.MemberName
use tinybus.Router.Rule.{MatchRule, new}

-- The value of `type`.
unfoldable pub kind_of : Str → Result MessageKind
kind_of value =
    if value == txt "signal"
    then ok MessageKind.signal
    else if value == txt "directed_signal"
    then ok MessageKind.directed_signal
    else if value == txt "method_call"
    then ok MessageKind.method_call
    else if value == txt "method_return"
    then ok MessageKind.method_return
    else if value == txt "error"
    then ok MessageKind.error
    else err (Error.protocol (txt "unknown message type `" ++ (value ++ txt "`")))

-- The field that one clause sets.
unfoldable pub set_field : MatchRule → Str → Str → Result MatchRule
unfolding kind_of
set_field rule key value =
    if key == txt "type"
    then (kind_of value >>= λ k. ok (record rule { kind = some k }))
    else if key == txt "sender"
    then (BusName.new value >>= λ n. ok (record rule { sender = some n }))
    else if key == txt "interface"
    then (InterfaceName.new value >>= λ n. ok (record rule { interface = some n }))
    else if key == txt "member"
    then (MemberName.new value >>= λ n. ok (record rule { member = some n }))
    else if key == txt "path"
    then (ObjectPath.new value >>= λ p. ok (record rule { path = some p }))
    else if key == txt "path_namespace"
    then (ObjectPath.new value >>= λ p. ok (record rule { path_namespace = some p }))
    else err (Error.protocol (txt "unknown match key `" ++ (key ++ txt "`")))

-- The loop over the clauses.
unfoldable pub read_clauses : MatchRule → List Str → Result MatchRule
unfolding set_field
read_clauses rule [] = ok rule
read_clauses rule (clause ∷ rest) = do
  (key, value) ←
      ok_or (split_once clause b'=')
        (Error.protocol (txt "match clause `" ++ (clause ++ txt "` has no `=`")))
  next ← set_field rule (trim key) (trim value)
  read_clauses next rest

unfoldable pub parse : Str → Result MatchRule
unfolding read_clauses
parse input = read_clauses new (filter (λ c. not (is_empty (trim c))) (split input b','))
