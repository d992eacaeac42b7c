-- ===== src/Name/ObjectPath/Grammar.antt =====
-- The grammar of object paths.
use tinybus.Prelude.{
  ℕ, ◌≤◌, ◌≡◌, ◌≢◌, refl, sym, ap, ◌∙◌, ◌↔◌, inl, inr, true, false, List, [], ◌∷◌, ◌++◌, arith,
  ◌==◌, nat_eq, list_eq, eq_iff, All, Bool-cases, append-nil,
}
use tinybus.Text.{Str, len, starts_with as starts_with_text, ends_with}
use tinybus.Text.Split.{Lacks, split, join, join-split, split-ne-nil}
use tinybus.Name.Types.{ObjectPath}
use tinybus.Name.Dotted.{max_name_len}
use tinybus.Name.Dotted.Grammar.{split-join}
use tinybus.Name.MemberName.{is_word}
use tinybus.Name.MemberName.Grammar.{find-not_word}
use tinybus.Name.ObjectPath.{new, check_absolute, check_elements, after_first, slash}
use tinybus.Error.{ok}

-- A non-empty run of letters, digits and `_`.
abbrev pub IsWord : Str → Type 0
IsWord s = (s ≢ []) × All (λ c. is_word c ≡ true) s

-- The path of a list of elements.
abbrev pub spell : List Str → Str
spell [] = []
spell (e ∷ es) = b'/' ∷ (e ++ spell es)

abbrev pub path_text : List Str → Str
path_text [] = slash
path_text (e ∷ es) = spell (e ∷ es)

pub record IsPath (s : Str) : Type 0 where
  pub elements : List Str
  pub words : All IsWord elements
  pub spelled : s ≡ path_text elements
  pub bounded : len s ≤ max_name_len

spell-join : (e : Str) (es : List Str) → spell (e ∷ es) ≡ b'/' ∷ join (e ∷ es) b'/'
unfolding join
spell-join e [] = simp append-nil
spell-join e (f ∷ es) = ap (λ t. b'/' ∷ (e ++ t)) (spell-join f es)

spell-split : (s : Str) → spell (split s b'/') ≡ b'/' ∷ s
spell-split s = go (split s b'/') (split-ne-nil s b'/') (join-split s b'/')
  where
    go : (ps : List Str) → ps ≢ [] → join ps b'/' ≡ s → spell ps ≡ b'/' ∷ s
    go [] n e = absurd (n refl)
    go (p ∷ ps) n e = spell-join p ps ∙ ap (λ t. b'/' ∷ t) e

check_elements_iff :
    (input : Str) (es : List Str) → (check_elements input es ≡ ok tt) ↔ All IsWord es
unfolding check_elements
check_elements_iff input [] = ground arith
check_elements_iff input ([] ∷ es) = ground arith
check_elements_iff input ((c ∷ s) ∷ es) =
    ground (arith, find-not_word (c ∷ s), check_elements_iff input es)

pub words-Lacks : (es : List Str) → All IsWord es → All (Lacks b'/') es
words-Lacks [] h = tt
words-Lacks (e ∷ es) ((_, w), h) = (go e w, words-Lacks es h)
  where
    go : (t : Str) → All (λ c. is_word c ≡ true) t → Lacks b'/' t
    go [] k = tt
    go (c ∷ t) (hc, k) = (ground arith, go t k)

-- A path of words does not end in a slash.
ends_with_word :
    (c : ℕ) (s : Str) → All (λ d. is_word d ≡ true) (c ∷ s) → ends_with (c ∷ s) b'/' ≡ false
unfolding ends_with
ends_with_word c [] h = ground (arith, eq_iff c b'/')
ends_with_word c (d ∷ s) (_, h) = ends_with_word d s h

ends_with-append :
    (a : Str) (c : ℕ) (s : Str) (x : ℕ) → ends_with (a ++ c ∷ s) x ≡ ends_with (c ∷ s) x
unfolding ends_with
ends_with-append [] c s x = refl
ends_with-append (b ∷ []) c s x = refl
ends_with-append (b ∷ d ∷ a) c s x = ends_with-append (d ∷ a) c s x

ends_with-spell :
    (e : Str) (es : List Str) → All IsWord (e ∷ es) → ends_with (spell (e ∷ es)) b'/' ≡ false
ends_with-spell [] es ((n, _), _) = absurd (n refl)
ends_with-spell (c ∷ s) [] ((n, w), _) =
    rw append-nil (ends_with-append (b'/' ∷ []) c s b'/' ∙ ends_with_word c s w)
ends_with-spell (c ∷ s) (f ∷ es) (_, h) =
    ends_with-append (b'/' ∷ c ∷ s) b'/' (f ++ spell es) b'/' ∙ ends_with-spell f es h

pub spell-ne-slash : (e : Str) (es : List Str) → All IsWord (e ∷ es) → spell (e ∷ es) ≢ slash
spell-ne-slash [] es ((n, _), _) = absurd (n refl)
spell-ne-slash (c ∷ s) es h = λ e. cc

split-spell :
    (e : Str) (es : List Str)
    → All IsWord (e ∷ es)
    → split (after_first (spell (e ∷ es))) b'/' ≡ e ∷ es
split-spell e es h =
    ap (λ t. split (after_first t) b'/') (spell-join e es)
    ∙ split-join b'/' e es (words-Lacks (e ∷ es) h)

-- An accepted path other than `/`.
absolute_sound :
    (s : Str) (p : ObjectPath)
    → check_absolute s ≡ ok p
    → All IsWord (split (after_first s) b'/')
      × (s ≡ spell (split (after_first s) b'/'))
      × (p.text ≡ s)
unfolding check_absolute starts_with_text
absolute_sound [] p h = cc
absolute_sound (c ∷ s) p h = (
  ground (arith, check_elements_iff (c ∷ s) (split s b'/')),
  ground (arith, spell-split s, eq_iff b'/' c),
  ground arith,
)

absolute_complete :
    (e : Str) (es : List Str) (p : ObjectPath)
    → All IsWord (e ∷ es)
    → p.text ≡ spell (e ∷ es)
    → check_absolute (spell (e ∷ es)) ≡ ok p
unfolding check_absolute starts_with_text
absolute_complete e es p h t = ground (
  arith,
  ends_with-spell e es h,
  split-spell e es h,
  (check_elements_iff (spell (e ∷ es)) (e ∷ es)).1 h,
)

new_complete :
    (es : List Str) (p : ObjectPath)
    → All IsWord es
    → len (path_text es) ≤ max_name_len
    → p.text ≡ path_text es
    → new (path_text es) ≡ ok p
unfolding new
new_complete [] p h b t = ground (arith, eq_iff slash slash)
new_complete (e ∷ es) p h b t =
    ground
      (arith, eq_iff (spell (e ∷ es)) slash, spell-ne-slash e es h, absolute_complete e es p h t)

path_text-split : (s : Str) → path_text (split s b'/') ≡ spell (split s b'/')
path_text-split s = go (split s b'/') (split-ne-nil s b'/')
  where
    go : (ps : List Str) → ps ≢ [] → path_text ps ≡ spell ps
    go [] n = absurd (n refl)
    go (p ∷ ps) n = refl

new_sound : (s : Str) (p : ObjectPath) → new s ≡ ok p → IsPath s × (p.text ≡ s)
unfolding new
new_sound s p h = elim (Bool-cases (s == slash)) [
  | inl root ↦ (
    record { elements = []; words = tt; spelled = (eq_iff s slash).0 root; bounded = ground arith },
    ground arith,
  )
  | inr other ↦
      let (w, e, t) = absolute_sound s p (ground arith) in
      (
        record {
          elements = split (after_first s) b'/';
          words = w;
          spelled = e ∙ sym (path_text-split (after_first s));
          bounded = ground arith;
        },
        t,
      )
]

-- The constructor accepts exactly `/` and the paths `/a/b/c` of non-empty words of letters, digits
-- and `_`, in at most 255 bytes, and keeps the text as it is.
pub new_object_path_iff : (s : Str) (p : ObjectPath) → (new s ≡ ok p) ↔ (IsPath s × (p.text ≡ s))
new_object_path_iff s p = (
  new_sound s p,
  λ (w, t).
      rw (w.spelled)
        (new_complete w.elements p w.words (rw (w.spelled) at w.bounded) (t ∙ w.spelled)),
)
