-- ===== src/Router/Rule/Wire/RoundTrip.antt =====
-- A match rule of crates/tinybus/src/connection.rs as text, and `MatchRule::parse` of
-- crates/tinybus/src/router.rs back again.
use tinybus.Prelude.{
  ◌≡◌, ◌≢◌, refl, sym, ap, ◌∙◌, true, not, Option, none, some, List, [], ◌∷◌, ◌++◌, arith, nat_eq,
  list_eq, eq_iff, list_beq, all, filter, is_empty, All, All-append, append-nil,
}
use tinybus.Text.{Str, txt, is_whitespace, trim, trim_start, trim_end}
use tinybus.Text.Split.{split, split_once, join, Lacks}
use tinybus.Text.Trim.{NoSpace, trim-NoSpace}
use tinybus.Name.Types.{BusName, ObjectPath, InterfaceName, MemberName}
use tinybus.Name.Dotted.Grammar.{split-join}
use tinybus.Name.BusName as BusName
use tinybus.Name.ObjectPath as ObjectPath
use tinybus.Name.InterfaceName as InterfaceName
use tinybus.Name.MemberName as MemberName
use tinybus.Error.{Result, ok}
use tinybus.Message.Types.{MessageKind}
use tinybus.Router.Rule.{MatchRule, new}
use tinybus.Router.Rule.Parse.{kind_of, set_field, read_clauses, parse}
use tinybus.Router.Rule.Wire.{kind_name, clause, push, clauses, rule_to_wire}
use tinybus.Router.Rule.Wire.Plain.{
  is_plain, IsPlain, IsPlain-Lacks, IsPlain-NoSpace, bus_name-IsPlain, object_path-IsPlain,
  interface_name-IsPlain, member_name-IsPlain,
}

-- A value that its constructor makes from its own text.
abbrev IsMade : {A : Type 0} → (Str → Result A) → (A → Str) → Option A → Type 0
IsMade make show none = Unit {0}
IsMade make show (some v) = make (show v) ≡ ok v

-- Every name and path of the rule was validated; a `MessageKind` needs no check.
pub record IsValid (rule : MatchRule) : Type 0 where
  pub sender : IsMade BusName.new (λ v. v.text) rule.sender
  pub interface : IsMade InterfaceName.new (λ v. v.text) rule.interface
  pub member : IsMade MemberName.new (λ v. v.text) rule.member
  pub path : IsMade ObjectPath.new (λ v. v.text) rule.path
  pub path_namespace : IsMade ObjectPath.new (λ v. v.text) rule.path_namespace

-- One clause on the wire.
record IsClause (c : Str) : Type 0 where
  separate : Lacks b',' c
  tight : NoSpace c
  filled : c ≢ []

clause-IsClause : (key value : Str) → IsPlain key → IsPlain value → IsClause (clause key value)
unfolding is_whitespace
clause-IsClause key value k v = record {
  separate = All-append _ key _ (IsPlain-Lacks key k) (ground arith, IsPlain-Lacks value v);
  tight = All-append _ key _ (IsPlain-NoSpace key k) (refl, IsPlain-NoSpace value v);
  filled = elim key as (λ k. clause k value ≢ []) [ [] ↦ λ e. cc | c ∷ s ↦ λ e. cc ];
}

kept : (c : Str) → IsClause c → not (is_empty (trim c)) ≡ true
kept c h = ground (arith, trim-NoSpace c h.tight, h.filled)

filter-clauses : (cs : List Str) → All IsClause cs → filter (λ c. not (is_empty (trim c))) cs ≡ cs
filter-clauses [] h = refl
filter-clauses (c ∷ cs) (hc, h) = ground (arith, kept c hc, filter-clauses cs h)

All-separate : (cs : List Str) → All IsClause cs → All (Lacks b',') cs
All-separate [] h = tt
All-separate (c ∷ cs) (hc, h) = (hc.separate, All-separate cs h)

-- The clauses come back from the wire, and the empty rule has none.
split-clauses :
    (cs : List Str)
    → All IsClause cs
    → filter (λ c. not (is_empty (trim c))) (split (join cs b',') b',') ≡ cs
unfolding join split trim trim_start trim_end
split-clauses [] h = refl
split-clauses (c ∷ cs) h =
    ap (filter (λ d. not (is_empty (trim d)))) (split-join b',' c cs (All-separate (c ∷ cs) h))
    ∙ filter-clauses (c ∷ cs) h

split_once-clause :
    (key value : Str) → IsPlain key → split_once (clause key value) b'=' ≡ some (key, value)
unfolding split_once
split_once-clause [] value h = refl
split_once-clause (c ∷ key) value (hc, h) =
    ground (arith, split_once-clause key value h, eq_iff c b'=')

read_clauses-clause :
    (rule next : MatchRule) (key value : Str) (rest : List Str)
    → IsPlain key
    → IsPlain value
    → set_field rule key value ≡ ok next
    → read_clauses rule (clause key value ∷ rest) ≡ read_clauses next rest
unfolding read_clauses
read_clauses-clause rule next key value rest k v e = ground (
  arith,
  split_once-clause key value k,
  trim-NoSpace key (IsPlain-NoSpace key k),
  trim-NoSpace value (IsPlain-NoSpace value v),
  e,
)

module _ {A : Type 0} (make : Str → Result A) (show : A → Str) where
  IsMade-All :
      (key : Str) (o : Option A) (rest : List Str)
      → IsPlain key
      → ((v : A) → make (show v) ≡ ok v → IsPlain (show v))
      → IsMade make show o
      → All IsClause rest
      → All IsClause (push key show o ++ rest)
  IsMade-All key none rest k plain h r = r
  IsMade-All key (some v) rest k plain h r = (clause-IsClause key (show v) k (plain v h), r)

  -- A field is read back; what the loop has done before and does after stands around it.
  read_clauses-push :
      (key : Str) (o : Option A) (put : Option A → MatchRule) (rest : List Str)
      → IsPlain key
      → ((v : A) → make (show v) ≡ ok v → IsPlain (show v))
      → ((s : Str) (v : A) → make s ≡ ok v → set_field (put none) key s ≡ ok (put (some v)))
      → IsMade make show o
      → read_clauses (put none) (push key show o ++ rest) ≡ read_clauses (put o) rest
  read_clauses-push key none put rest k plain set h = refl
  read_clauses-push key (some v) put rest k plain set h =
      read_clauses-clause (put none) (put (some v)) key (show v) rest k (plain v h)
        (set (show v) v h)

-- A message kind is made from its name.
kind_of-kind_name : (k : MessageKind) → kind_of (kind_name k) ≡ ok k
unfolding kind_of txt list_beq
kind_of-kind_name MessageKind.signal = refl
kind_of-kind_name MessageKind.directed_signal = refl
kind_of-kind_name MessageKind.method_call = refl
kind_of-kind_name MessageKind.method_return = refl
kind_of-kind_name MessageKind.error = refl

all-IsPlain : (s : Str) → all is_plain s ≡ true → IsPlain s
all-IsPlain [] h = tt
all-IsPlain (c ∷ s) h = (ground (arith, h), all-IsPlain s (ground (arith, h)))

kind_name-IsPlain : (k : MessageKind) → IsPlain (kind_name k)
unfolding txt
kind_name-IsPlain MessageKind.signal = all-IsPlain (kind_name MessageKind.signal) refl
kind_name-IsPlain MessageKind.directed_signal =
    all-IsPlain (kind_name MessageKind.directed_signal) refl
kind_name-IsPlain MessageKind.method_call = all-IsPlain (kind_name MessageKind.method_call) refl
kind_name-IsPlain MessageKind.method_return = all-IsPlain (kind_name MessageKind.method_return) refl
kind_name-IsPlain MessageKind.error = all-IsPlain (kind_name MessageKind.error) refl

kind-IsMade : (o : Option MessageKind) → IsMade kind_of kind_name o
kind-IsMade none = tt
kind-IsMade (some k) = kind_of-kind_name k

key-IsPlain :
    IsPlain (txt "type")
    × IsPlain (txt "sender")
    × IsPlain (txt "interface")
    × IsPlain (txt "member")
    × IsPlain (txt "path")
    × IsPlain (txt "path_namespace")
unfolding txt
key-IsPlain = (
  all-IsPlain (txt "type") refl,
  all-IsPlain (txt "sender") refl,
  all-IsPlain (txt "interface") refl,
  all-IsPlain (txt "member") refl,
  all-IsPlain (txt "path") refl,
  all-IsPlain (txt "path_namespace") refl,
)

clauses-All : (rule : MatchRule) → IsValid rule → All IsClause (clauses rule)
clauses-All rule v =
    let (kt, ks, ki, km, kp, kn) = key-IsPlain in
    IsMade-All kind_of kind_name (txt "type") rule.kind _ kt (λ k h. kind_name-IsPlain k)
      (kind-IsMade rule.kind)
      (IsMade-All BusName.new (λ n. n.text) (txt "sender") rule.sender _ ks
        (λ n. bus_name-IsPlain n.text n) v.sender
        (IsMade-All InterfaceName.new (λ n. n.text) (txt "interface") rule.interface _ ki
          (λ n. interface_name-IsPlain n.text n) v.interface
          (IsMade-All MemberName.new (λ n. n.text) (txt "member") rule.member _ km
            (λ n. member_name-IsPlain n.text n) v.member
            (IsMade-All ObjectPath.new (λ n. n.text) (txt "path") rule.path _ kp
              (λ n. object_path-IsPlain n.text n) v.path
              (rw append-nil at (
                IsMade-All ObjectPath.new (λ n. n.text) (txt "path_namespace") rule.path_namespace
                  [] kn (λ n. object_path-IsPlain n.text n) v.path_namespace tt))))))

-- The fields that are set so far.
abbrev six :
    Option MessageKind
    → Option BusName
    → Option InterfaceName
    → Option MemberName
    → Option ObjectPath
    → Option ObjectPath
    → MatchRule
six k s i m p n = record {
  kind = k;
  sender = s;
  interface = i;
  member = m;
  path = p;
  path_namespace = n;
}

read_clauses-clauses : (rule : MatchRule) → IsValid rule → read_clauses new (clauses rule) ≡ ok rule
unfolding read_clauses set_field txt list_beq
read_clauses-clauses rule v =
    let (kt, ks, ki, km, kp, kn) = key-IsPlain in
    read_clauses-push kind_of kind_name (txt "type") rule.kind (λ o. six o none none none none none)
      _ kt (λ x h. kind_name-IsPlain x) (λ t x h. ground (arith, h)) (kind-IsMade rule.kind)
    ∙ read_clauses-push BusName.new (λ x. x.text) (txt "sender") rule.sender
        (λ o. six rule.kind o none none none none) _ ks (λ x. bus_name-IsPlain x.text x)
        (λ t x h. ground (arith, h)) v.sender
    ∙ read_clauses-push InterfaceName.new (λ x. x.text) (txt "interface") rule.interface
        (λ o. six rule.kind rule.sender o none none none) _ ki
        (λ x. interface_name-IsPlain x.text x) (λ t x h. ground (arith, h)) v.interface
    ∙ read_clauses-push MemberName.new (λ x. x.text) (txt "member") rule.member
        (λ o. six rule.kind rule.sender rule.interface o none none) _ km
        (λ x. member_name-IsPlain x.text x) (λ t x h. ground (arith, h)) v.member
    ∙ read_clauses-push ObjectPath.new (λ x. x.text) (txt "path") rule.path
        (λ o. six rule.kind rule.sender rule.interface rule.member o none) _ kp
        (λ x. object_path-IsPlain x.text x) (λ t x h. ground (arith, h)) v.path
    ∙ ap (read_clauses (six rule.kind rule.sender rule.interface rule.member rule.path none))
        (sym (append-nil _))
    ∙ read_clauses-push ObjectPath.new (λ x. x.text) (txt "path_namespace") rule.path_namespace
        (λ o. six rule.kind rule.sender rule.interface rule.member rule.path o) [] kn
        (λ x. object_path-IsPlain x.text x) (λ t x h. ground (arith, h)) v.path_namespace

-- A match rule whose names and paths are valid, in any combination of fields, is read back
-- unchanged from the text that a client sends for it.
pub parse-rule_to_wire : (rule : MatchRule) → IsValid rule → parse (rule_to_wire rule) ≡ ok rule
unfolding parse rule_to_wire
parse-rule_to_wire rule v =
    ap (read_clauses new) (split-clauses (clauses rule) (clauses-All rule v))
    ∙ read_clauses-clauses rule v
