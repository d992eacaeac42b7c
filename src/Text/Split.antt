-- ===== src/Text/Split.antt =====
-- `str::split` and `split_once` at one character, and joining again.
use tinybus.Prelude.{
  ℕ, ◌≡◌, ◌≢◌, refl, Option, none, some, List, [], ◌∷◌, ◌++◌, arith, ◌==◌, nat_eq, eq_iff,
  if◌then◌else◌, All,
}
use tinybus.Text.{Str}

abbrev onto : ℕ → List Str → List Str
onto c [] = (c ∷ []) ∷ []
onto c (p ∷ ps) = (c ∷ p) ∷ ps

unfoldable pub split : Str → ℕ → List Str
split [] sep = [] ∷ []
split (c ∷ s) sep = let rest = split s sep in if c == sep then [] ∷ rest else onto c rest

abbrev before : ℕ → Option (Str × Str) → Option (Str × Str)
before c none = none
before c (some (a, b)) = some (c ∷ a, b)

unfoldable pub split_once : Str → ℕ → Option (Str × Str)
split_once [] sep = none
split_once (c ∷ s) sep =
    let rest = split_once s sep in if c == sep then some ([], s) else before c rest

-- The inverse of `split`.
unfoldable pub join : List Str → ℕ → Str
join [] sep = []
join (p ∷ []) sep = p
join (p ∷ q ∷ ps) sep = p ++ sep ∷ join (q ∷ ps) sep

abbrev pub Lacks : ℕ → Str → Type 0
Lacks sep = All (λ c. c ≢ sep)

split-cons : (c : ℕ) (s : Str) (sep : ℕ) → c ≢ sep → split (c ∷ s) sep ≡ onto c (split s sep)
unfolding split
split-cons c s sep h = ground (arith, eq_iff c sep)

split_at : (s : Str) (sep : ℕ) → split (sep ∷ s) sep ≡ [] ∷ split s sep
unfolding split
split_at s sep = ground (arith, eq_iff sep sep)

-- A part with no separator is split off whole.
pub split-append : (p s : Str) (sep : ℕ) → Lacks sep p → split (p ++ sep ∷ s) sep ≡ p ∷ split s sep
split-append [] s sep h = split_at s sep
split-append (c ∷ p) s sep (hc, h) = cc (split-cons c (p ++ sep ∷ s) sep hc, split-append p s sep h)

pub split_lacking : (p : Str) (sep : ℕ) → Lacks sep p → split p sep ≡ p ∷ []
split_lacking [] sep h = unfold split in refl
split_lacking (c ∷ p) sep (hc, h) = cc (split-cons c p sep hc, split_lacking p sep h)

join-onto : (c : ℕ) (ps : List Str) (sep : ℕ) → join (onto c ps) sep ≡ c ∷ join ps sep
unfolding join
join-onto c [] sep = refl
join-onto c (p ∷ []) sep = refl
join-onto c (p ∷ q ∷ ps) sep = refl

pub split-ne-nil : (s : Str) (sep : ℕ) → split s sep ≢ []
unfolding split
split-ne-nil [] sep h = cc
split-ne-nil (c ∷ s) sep h = ground (arith, split-ne-nil s sep)

join_empty : (ps : List Str) (sep : ℕ) → ps ≢ [] → join ([] ∷ ps) sep ≡ sep ∷ join ps sep
unfolding join
join_empty [] sep h = absurd (h refl)
join_empty (p ∷ ps) sep h = refl

pub join-split : (s : Str) (sep : ℕ) → join (split s sep) sep ≡ s
unfolding split
join-split [] sep = unfold join in refl
join-split (c ∷ s) sep = ground (
  arith,
  eq_iff c sep,
  join-split s sep,
  join-onto c (split s sep) sep,
  join_empty (split s sep) sep (split-ne-nil s sep),
)
