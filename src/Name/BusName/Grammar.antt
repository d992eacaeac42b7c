-- ===== src/Name/BusName/Grammar.antt =====
-- The grammar of bus names, and the names that the broker mints.
use tinybus.Prelude.{
  ℕ, ◌≤◌, ◌<◌, ◌≡◌, ◌≢◌, refl, sym, ap, ◌↔◌, ◌⊎◌, inl, inr, true, none, List, [], ◌∷◌, arith, ◌==◌,
  nat_eq, eq_iff, length, All, all, Bool-cases,
}
use tinybus.Text.{Str, txt, is_ascii_digit, strip_prefix, starts_with, as_bytes}
use tinybus.Text.Decimal.{
  decimal, decimal-IsDigits, decimal_inj, parse_u64-decimal, parse_empty, IsDigits, u64_size,
}
use tinybus.Text.Split.{Lacks, split, join, join-split, split-ne-nil}
use tinybus.Name.Types.{BusName}
use tinybus.Name.Dotted.Grammar.{IsElement, IsDotted, validate_dotted_iff, split-join, join-ne-nil}
use tinybus.Name.BusName.{new, unique, is_unique, check_digits}
use tinybus.Error.{ok}

-- A run of digits.
abbrev pub IsRun : Str → Type 0
IsRun s = (s ≢ []) × IsDigits s

-- `:` and runs of digits between dots. There is no bound on the length.
pub record IsUnique (s : Str) : Type 0 where
  pub runs : List Str
  pub some_runs : runs ≢ []
  pub digits : All IsRun runs
  pub spelled : s ≡ b':' ∷ join runs b'.'

-- A byte of a multi-byte character is no digit.
digit_bytes : (s : Str) → (all is_ascii_digit (as_bytes s) ≡ true) ↔ IsDigits s
unfolding as_bytes
digit_bytes [] = ground arith
digit_bytes (c ∷ s) = ground (arith, digit_bytes s)

check_digits_iff : (input : Str) (es : List Str) → (check_digits input es ≡ ok tt) ↔ All IsRun es
unfolding check_digits
check_digits_iff input [] = ground arith
check_digits_iff input ([] ∷ es) = ground arith
check_digits_iff input ((c ∷ s) ∷ es) =
    ground (arith, digit_bytes (c ∷ s), check_digits_iff input es)

IsRun-Lacks : (es : List Str) → All IsRun es → All (Lacks b'.') es
IsRun-Lacks [] h = tt
IsRun-Lacks (e ∷ es) ((_, d), h) = (go e d, IsRun-Lacks es h)
  where
    go : (t : Str) → IsDigits t → Lacks b'.' t
    go [] k = tt
    go (c ∷ t) (hc, k) = (ground arith, go t k)

-- The part behind the colon.
check_digits-IsUnique :
    (input rest : Str) → check_digits input (split rest b'.') ≡ ok tt → IsUnique (b':' ∷ rest)
check_digits-IsUnique input rest h = record {
  runs = split rest b'.';
  some_runs = split-ne-nil rest b'.';
  digits = (check_digits_iff input (split rest b'.')).0 h;
  spelled = ap (λ t. b':' ∷ t) (sym (join-split rest b'.'));
}

split-runs : (es : List Str) → es ≢ [] → All IsRun es → split (join es b'.') b'.' ≡ es
split-runs [] n h = absurd (n refl)
split-runs (e ∷ es) n h = split-join b'.' e es (IsRun-Lacks (e ∷ es) h)

join-runs-ne-nil : (es : List Str) → es ≢ [] → All IsRun es → join es b'.' ≢ []
unfolding join
join-runs-ne-nil [] n h = absurd (n refl)
join-runs-ne-nil ([] ∷ es) n (h, _) = absurd (h.0 refl)
join-runs-ne-nil ((c ∷ s) ∷ []) n h = λ e. cc
join-runs-ne-nil ((c ∷ s) ∷ f ∷ es) n h = λ e. cc

-- Behind a colon.
new-IsUnique_iff :
    (rest : Str) (n : BusName)
    → (new (b':' ∷ rest) ≡ ok n) ↔ (IsUnique (b':' ∷ rest) × (n.text ≡ b':' ∷ rest))
unfolding new strip_prefix
new-IsUnique_iff rest n = (
  λ h. (check_digits-IsUnique (b':' ∷ rest) rest (ground arith), ground arith),
  λ (u, e). ground (
    arith,
    u.spelled,
    split-runs u.runs u.some_runs u.digits,
    join-runs-ne-nil u.runs u.some_runs u.digits,
    (check_digits_iff (b':' ∷ rest) u.runs).1 u.digits,
  ),
)

-- Behind any other character, and for the empty text.
new-IsDotted_iff :
    (s : Str) (n : BusName)
    → strip_prefix s (b':' ∷ []) ≡ none
    → (new s ≡ ok n) ↔ (IsDotted s × (n.text ≡ s))
unfolding new
new-IsDotted_iff s n h = (
  λ k. ((validate_dotted_iff (txt "bus name") s).0 (ground arith), ground arith),
  λ (d, e). ground (arith, (validate_dotted_iff (txt "bus name") s).1 d),
)

IsDotted-ne-colon : (c : ℕ) (s : Str) → IsDotted (c ∷ s) → c ≢ b':'
unfolding join
IsDotted-ne-colon c s d = go d.parts d.several d.elements d.spelled
  where
    go : (es : List Str) → 2 ≤ length es → All IsElement es → c ∷ s ≡ join es b'.' → c ≢ b':'
    go [] n h e = absurd (omega arith)
    go ([] ∷ es) n (h, _) e = absurd h
    go ((d ∷ t) ∷ []) n h e = absurd (omega arith)
    go ((d ∷ t) ∷ f ∷ es) n h e = ground arith

not-IsDotted-nil : ¬ IsDotted []
not-IsDotted-nil d = join-ne-nil d.parts d.several d.elements (sym d.spelled)

-- The constructor accepts exactly the unique names (`:` and runs of digits between dots, of any
-- length) and the dotted names of at most 255 bytes, and keeps the text as it is.
pub new_bus_name_iff :
    (s : Str) (n : BusName) → (new s ≡ ok n) ↔ ((IsUnique s ⊎ IsDotted s) × (n.text ≡ s))
new_bus_name_iff [] n = (
  λ h. let (d, e) = (new-IsDotted_iff [] n (unfold strip_prefix in refl)).0 h in (inr d, e),
  λ (u, e). elim u [ inl u ↦ cc (u.spelled) | inr d ↦ absurd (not-IsDotted-nil d) ],
)
new_bus_name_iff (c ∷ s) n = elim (Bool-cases (c == b':')) [
  | inl same ↦
      let colon : c ≡ b':' = (eq_iff c b':').0 same in
      rw colon (
        λ h. let (u, e) = (new-IsUnique_iff s n).0 h in (inl u, e),
        λ (u, e). elim u [
          | inl u ↦ (new-IsUnique_iff s n).1 (u, e)
          | inr d ↦ absurd (IsDotted-ne-colon b':' s d refl)
        ],
      )
  | inr other ↦
      let none_stripped : strip_prefix (c ∷ s) (b':' ∷ []) ≡ none =
        unfold strip_prefix in ground (arith, eq_iff c b':') in
      (
        λ h. let (d, e) = (new-IsDotted_iff (c ∷ s) n none_stripped).0 h in (inr d, e),
        λ (u, e). elim u [
          | inl u ↦ absurd (ground (arith, u.spelled, eq_iff c b':'))
          | inr d ↦ (new-IsDotted_iff (c ∷ s) n none_stripped).1 (d, e)
        ],
      )
]

digits-ne-nil : (id : ℕ) → id < u64_size → decimal id ≢ []
digits-ne-nil id h e = ground (arith, parse_u64-decimal id h, e, parse_empty)

-- The name that the broker makes from a 64-bit id is a unique name that the constructor accepts.
pub new-unique :
    (id : ℕ)
    → id < u64_size
    → (new (unique id).text ≡ ok (unique id)) × (is_unique (unique id) ≡ true)
unfolding unique is_unique starts_with
new-unique id h = ((new_bus_name_iff _ (unique id)).1 (inl minted, refl), refl)
  where
    minted : IsUnique (unique id).text
    minted = record {
      runs = (b'1' ∷ []) ∷ decimal id ∷ [];
      some_runs = λ e. cc;
      digits = ((λ e. cc, (refl, tt)), ((digits-ne-nil id h, decimal-IsDigits id), tt));
      spelled = unfold join in refl;
    }

-- Two 64-bit ids with one unique name are equal.
pub unique_inj : (i j : ℕ) → i < u64_size → j < u64_size → unique i ≡ unique j → i ≡ j
unfolding unique
unique_inj i j hi hj e = decimal_inj i j hi hj (cc)
