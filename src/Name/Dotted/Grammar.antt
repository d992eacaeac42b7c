-- ===== src/Name/Dotted/Grammar.antt =====
-- The dotted names of crates/tinybus/src/name.rs, written as what a name is made of, and the proof
-- that `validate_dotted` accepts exactly them.
use tinybus.Prelude.{
  ℕ, ◌≤◌, ◌≡◌, ◌≢◌, sym, ◌↔◌, true, List, [], ◌∷◌, arith, nat_eq, list_eq, length, All,
}
use tinybus.Text.{Str, len}
use tinybus.Text.Split.{Lacks, split, join, join-split, split-append, split_lacking}
use tinybus.Name.Dotted.{
  max_name_len, is_start, is_rest, check_rest, check_element, check_elements, validate_dotted,
}
use tinybus.Error.{ok}

-- `[A-Za-z_][A-Za-z0-9_-]*`
abbrev pub IsElement : Str → Type 0
IsElement [] = ⊥
IsElement (c ∷ s) = (is_start c ≡ true) × All (λ d. is_rest d ≡ true) s

-- At least two elements between dots, in 255 bytes.
pub record IsDotted (s : Str) : Type 0 where
  pub bounded : len s ≤ max_name_len
  pub parts : List Str
  pub several : 2 ≤ length parts
  pub elements : All IsElement parts
  pub spelled : s ≡ join parts b'.'

module _ (kind input : Str) where
  check_rest_iff :
      (element s : Str) → (check_rest kind input element s ≡ ok tt) ↔ All (λ d. is_rest d ≡ true) s
  unfolding check_rest
  check_rest_iff element [] = ground arith
  check_rest_iff element (c ∷ s) = ground (arith, check_rest_iff element s)

  check_element_iff : (e : Str) → (check_element kind input e ≡ ok tt) ↔ IsElement e
  unfolding check_element
  check_element_iff [] = ground arith
  check_element_iff (c ∷ s) = ground (arith, check_rest_iff (c ∷ s) s)

  check_elements_iff : (es : List Str) → (check_elements kind input es ≡ ok tt) ↔ All IsElement es
  unfolding check_elements
  check_elements_iff [] = ground arith
  check_elements_iff (e ∷ es) = ground (arith, check_element_iff e, check_elements_iff es)

IsElement-Lacks : (e : Str) → IsElement e → Lacks b'.' e
IsElement-Lacks [] h = absurd h
IsElement-Lacks (c ∷ s) (hc, h) = (ground arith, go s h)
  where
    go : (t : Str) → All (λ d. is_rest d ≡ true) t → Lacks b'.' t
    go [] h = tt
    go (d ∷ t) (hd, h) = (ground arith, go t h)

pub split-join :
    (sep : ℕ) (p : Str) (ps : List Str)
    → All (Lacks sep) (p ∷ ps)
    → split (join (p ∷ ps) sep) sep ≡ p ∷ ps
unfolding join
split-join sep p [] (hp, h) = split_lacking p sep hp
split-join sep p (q ∷ ps) (hp, h) =
    cc (split-append p (join (q ∷ ps) sep) sep hp, split-join sep q ps h)

All-IsElement-Lacks : (es : List Str) → All IsElement es → All (Lacks b'.') es
All-IsElement-Lacks [] h = tt
All-IsElement-Lacks (e ∷ es) (he, h) = (IsElement-Lacks e he, All-IsElement-Lacks es h)

split-join_elements :
    (es : List Str) → 2 ≤ length es → All IsElement es → split (join es b'.') b'.' ≡ es
split-join_elements [] n h = absurd (omega arith)
split-join_elements (e ∷ es) n h = split-join b'.' e es (All-IsElement-Lacks (e ∷ es) h)

pub join-ne-nil : (es : List Str) → 2 ≤ length es → All IsElement es → join es b'.' ≢ []
unfolding join
join-ne-nil [] n h e = absurd (omega arith)
join-ne-nil ([] ∷ es) n (he, h) e = absurd he
join-ne-nil ((c ∷ s) ∷ []) n h e = absurd (omega arith)
join-ne-nil ((c ∷ s) ∷ f ∷ es) n h e = cc

validate_dotted_sound : (kind s : Str) → validate_dotted kind s ≡ ok tt → IsDotted s
unfolding validate_dotted
validate_dotted_sound kind s h = record {
  bounded = ground arith;
  parts = split s b'.';
  several = ground arith;
  elements = ground (arith, check_elements_iff kind s (split s b'.'));
  spelled = sym (join-split s b'.');
}

validate_dotted_complete : (kind s : Str) → IsDotted s → validate_dotted kind s ≡ ok tt
unfolding validate_dotted
validate_dotted_complete kind s d = ground (
  arith,
  d.bounded,
  d.several,
  d.spelled,
  split-join_elements d.parts d.several d.elements,
  join-ne-nil d.parts d.several d.elements,
  (check_elements_iff kind s d.parts).1 d.elements,
)

pub validate_dotted_iff : (kind s : Str) → (validate_dotted kind s ≡ ok tt) ↔ IsDotted s
validate_dotted_iff kind s = (validate_dotted_sound kind s, validate_dotted_complete kind s)
