-- ===== src/Router/Rule/Wire/Plain.antt =====
-- The characters of the names of crates/tinybus/src/name.rs: none separates the clauses of a rule.
use tinybus.Prelude.{
  ℕ, ◌≡◌, refl, inl, inr, Bool, true, ◌&&◌, ◌||◌, List, [], ◌∷◌, arith, leb, nat_eq, ◌==◌, All,
  All-append,
}
use tinybus.Text.{Str, is_ascii_alphabetic, is_whitespace}
use tinybus.Text.Split.{join, Lacks}
use tinybus.Text.Trim.{NoSpace}
use tinybus.Name.Types.{BusName, ObjectPath, InterfaceName, MemberName}
use tinybus.Name.Dotted.Grammar.{IsElement, IsDotted}
use tinybus.Name.BusName as BusName
use tinybus.Name.BusName.Grammar.{IsRun, new_bus_name_iff}
use tinybus.Name.ObjectPath as ObjectPath
use tinybus.Name.ObjectPath.Grammar.{IsWord, path_text, spell, new_object_path_iff}
use tinybus.Name.InterfaceName as InterfaceName
use tinybus.Name.InterfaceName.Grammar.{new_interface_name_iff}
use tinybus.Name.MemberName as MemberName
use tinybus.Name.MemberName.Grammar.{IsMember, new_member_name_iff}
use tinybus.Error.{ok}

-- `-`, `.`, `/`, `:`, `_`, letters and digits.
abbrev pub is_plain : ℕ → Bool
is_plain c = leb b'-' c && leb c b':' || (is_ascii_alphabetic c || c == b'_')

abbrev pub IsPlain : Str → Type 0
IsPlain = All (λ c. is_plain c ≡ true)

pub IsPlain-Lacks : (s : Str) → IsPlain s → Lacks b',' s
IsPlain-Lacks [] h = tt
IsPlain-Lacks (c ∷ s) (p, h) = (ground arith, IsPlain-Lacks s h)

pub IsPlain-NoSpace : (s : Str) → IsPlain s → NoSpace s
unfolding is_whitespace
IsPlain-NoSpace [] h = tt
IsPlain-NoSpace (c ∷ s) (p, h) = (ground arith, IsPlain-NoSpace s h)

join-IsPlain :
    (sep : ℕ) (ps : List Str) → is_plain sep ≡ true → All IsPlain ps → IsPlain (join ps sep)
unfolding join
join-IsPlain sep [] p h = tt
join-IsPlain sep (a ∷ []) p (ha, h) = ha
join-IsPlain sep (a ∷ b ∷ ps) p (ha, h) = All-append _ a _ ha (p, join-IsPlain sep (b ∷ ps) p h)

weaken : (P : ℕ → Type 0) (s : Str) → ((c : ℕ) → P c → is_plain c ≡ true) → All P s → IsPlain s
weaken P [] f h = tt
weaken P (c ∷ s) f (p, h) = (f c p, weaken P s f h)

weaken-each :
    (P : Str → Type 0) (ps : List Str) → ((s : Str) → P s → IsPlain s) → All P ps → All IsPlain ps
weaken-each P [] f h = tt
weaken-each P (p ∷ ps) f (hp, h) = (f p hp, weaken-each P ps f h)

IsElement-IsPlain : (s : Str) → IsElement s → IsPlain s
IsElement-IsPlain [] h = absurd h
IsElement-IsPlain (c ∷ s) (first, rest) = (ground arith, weaken _ s (λ d p. ground (arith, p)) rest)

IsDotted-IsPlain : (s : Str) → IsDotted s → IsPlain s
IsDotted-IsPlain s d =
    rw d.spelled
      (join-IsPlain b'.' d.parts refl (weaken-each IsElement d.parts IsElement-IsPlain d.elements))

IsRun-IsPlain : (s : Str) → IsRun s → IsPlain s
IsRun-IsPlain s (some_digit, digits) = weaken _ s (λ d p. ground (arith, p)) digits

IsWord-IsPlain : (s : Str) → IsWord s → IsPlain s
IsWord-IsPlain s (some_char, word) = weaken _ s (λ d p. ground (arith, p)) word

spell-IsPlain : (es : List Str) → All IsWord es → IsPlain (spell es)
spell-IsPlain [] h = tt
spell-IsPlain (e ∷ es) (he, h) = (refl, All-append _ e _ (IsWord-IsPlain e he) (spell-IsPlain es h))

path_text-IsPlain : (es : List Str) → All IsWord es → IsPlain (path_text es)
path_text-IsPlain [] h = (refl, tt)
path_text-IsPlain (e ∷ es) h = spell-IsPlain (e ∷ es) h

pub bus_name-IsPlain : (s : Str) (n : BusName) → BusName.new s ≡ ok n → IsPlain s
bus_name-IsPlain s n h = elim ((new_bus_name_iff s n).0 h).0 [
  | inl u ↦
      rw u.spelled
        (refl, join-IsPlain b'.' u.runs refl (weaken-each IsRun u.runs IsRun-IsPlain u.digits))
  | inr d ↦ IsDotted-IsPlain s d
]

pub object_path-IsPlain : (s : Str) (p : ObjectPath) → ObjectPath.new s ≡ ok p → IsPlain s
object_path-IsPlain s p h =
    let w = ((new_object_path_iff s p).0 h).0 in rw w.spelled (path_text-IsPlain w.elements w.words)

pub interface_name-IsPlain : (s : Str) (n : InterfaceName) → InterfaceName.new s ≡ ok n → IsPlain s
interface_name-IsPlain s n h = IsDotted-IsPlain s ((new_interface_name_iff s n).0 h).0

IsMember-IsPlain : (s : Str) → IsMember s → IsPlain s
IsMember-IsPlain [] h = absurd h
IsMember-IsPlain (c ∷ s) (first, word, bounded) =
    (ground arith, weaken _ s (λ d p. ground (arith, p)) word)

pub member_name-IsPlain : (s : Str) (n : MemberName) → MemberName.new s ≡ ok n → IsPlain s
member_name-IsPlain s n h = IsMember-IsPlain s ((new_member_name_iff s n).0 h).0
