-- ===== src/Name/ObjectPath/Subtree.antt =====
-- `ObjectPath::starts_with` against the subtree relation on the elements of a path.
use mathlib.Core.Option
use tinybus.Prelude.{
  ℕ, ◌≡◌, refl, sym, ap, ap₂, ◌∙◌, inl, inr, Bool, true, false, ◌&&◌, ◌||◌, some, List, [], ◌∷◌,
  ◌++◌, arith, ◌==◌, nat_eq, list_eq, list_beq, eq_iff, eq_refl, length, get_elem?, All, Bool-cases,
  append_assoc, append-nil,
}
use tinybus.Text.{Str, len, as_bytes, utf8, starts_with as starts_with_text}
use tinybus.Text.Split.{Lacks}
use tinybus.Name.Types.{ObjectPath}
use tinybus.Name.ObjectPath.{starts_with, is_beneath, slash}
use tinybus.Name.ObjectPath.Grammar.{IsWord, spell, path_text, words-Lacks, spell-ne-slash}

-- `q` is an initial part of the list `p`.
abbrev pub is_initial : List Str → List Str → Bool
is_initial [] p = true
is_initial (e ∷ q) [] = false
is_initial (e ∷ q) (f ∷ p) = e == f && is_initial q p

as_bytes-append : (s t : Str) → as_bytes (s ++ t) ≡ as_bytes s ++ as_bytes t
unfolding as_bytes
as_bytes-append [] t = refl
as_bytes-append (c ∷ s) t =
    ap (λ r. utf8 c ++ r) (as_bytes-append s t)
    ∙ sym (append_assoc (utf8 c) (as_bytes s) (as_bytes t))

get_elem?-append : (xs ys : List ℕ) → get_elem? (xs ++ ys) (length xs) ≡ get_elem? ys 0
get_elem?-append [] ys = refl
get_elem?-append (x ∷ xs) ys = get_elem?-append xs ys

-- The byte behind a prefix is a slash exactly where the character is.
byte_behind :
    (p : Str) (c : ℕ) (r : Str)
    → Option.map (λ b. b == b'/') (get_elem? (as_bytes (p ++ c ∷ r)) (len p)) ≡ some (c == b'/')
unfolding len as_bytes
byte_behind p c r =
    rw (as_bytes-append p (c ∷ r))
      (rw (get_elem?-append (as_bytes p) (as_bytes (c ∷ r))) (ground arith))

pub starts_with_split : (s p : Str) → starts_with_text s p ≡ true → (r : Str) × (s ≡ p ++ r)
unfolding starts_with_text
starts_with_split s [] h = (s, refl)
starts_with_split [] (c ∷ p) h = cc
starts_with_split (d ∷ s) (c ∷ p) h =
    let (r, e) = starts_with_split s p (ground arith) in (r, ground (arith, eq_iff c d))

starts_with_append :
    (p r : Str) (c : ℕ) (t : Str)
    → starts_with_text (p ++ c ∷ r) (p ++ t) ≡ starts_with_text (c ∷ r) t
unfolding starts_with_text
starts_with_append [] r c t = refl
starts_with_append (d ∷ p) r c t = ground (arith, eq_refl d, starts_with_append p r c t)

starts_with_shorter :
    (s p t : Str) → starts_with_text s (p ++ t) ≡ true → starts_with_text s p ≡ true
unfolding starts_with_text
starts_with_shorter s [] t h = refl
starts_with_shorter [] (c ∷ p) t h = cc
starts_with_shorter (d ∷ s) (c ∷ p) t h = ground (arith, starts_with_shorter s p t)

-- A closing slash on both sides stands for "equal, or below".
pub starts_with_closed :
    (s p : Str)
    → starts_with_text (s ++ slash) (p ++ slash) ≡ (s == p || starts_with_text s (p ++ slash))
unfolding starts_with_text list_beq
starts_with_closed [] [] = refl
starts_with_closed [] (c ∷ []) = ground arith
starts_with_closed [] (c ∷ d ∷ p) = ground arith
starts_with_closed (d ∷ s) [] = ground arith
starts_with_closed (d ∷ s) (c ∷ p) = ground (arith, eq_iff c d, eq_iff d c, starts_with_closed s p)

starts_with_slash : (c : ℕ) (r : Str) → starts_with_text (c ∷ r) slash ≡ (c == b'/')
unfolding starts_with_text
starts_with_slash c r = ground arith

pub starts_with_chars :
    (a b : ObjectPath)
    → starts_with a b
      ≡ some (b.text == slash || starts_with_text (a.text ++ slash) (b.text ++ slash))
unfolding starts_with
starts_with_chars a b = elim (Bool-cases (starts_with_text a.text b.text)) [
  | inr no_prefix ↦
      ground (arith, starts_with_closed a.text b.text, starts_with_shorter a.text b.text slash)
  | inl prefix ↦ let (r, e) = starts_with_split a.text b.text prefix in behind r e prefix
]
  where
    behind :
        (r : Str)
        → a.text ≡ b.text ++ r
        → starts_with_text a.text b.text ≡ true
        → starts_with a b
          ≡ some (b.text == slash || starts_with_text (a.text ++ slash) (b.text ++ slash))
    behind [] e h =
        ground (arith, append-nil b.text, eq_iff a.text b.text, starts_with_closed a.text b.text)
    behind (c ∷ r) e h = ground (
      arith,
      e,
      eq_iff a.text b.text,
      starts_with_closed a.text b.text,
      starts_with_append b.text r c slash,
      starts_with_slash c r,
      byte_behind b.text c r,
    )

starts_with_word :
    (f e a t : Str)
    → Lacks b'/' f
    → Lacks b'/' e
    → starts_with_text (f ++ b'/' ∷ a) (e ++ b'/' ∷ t)
      ≡ (e == f && starts_with_text (b'/' ∷ a) (b'/' ∷ t))
unfolding starts_with_text list_beq
starts_with_word [] [] a t hf he = refl
starts_with_word [] (c ∷ e) a t hf (hc, he) = ground (arith, eq_iff c b'/')
starts_with_word (d ∷ f) [] a t (hd, hf) he = ground (arith, eq_iff b'/' d)
starts_with_word (d ∷ f) (c ∷ e) a t (hd, hf) (hc, he) =
    ground (arith, eq_iff c d, starts_with_word f e a t hf he)

-- The closed spelling of a list of words begins with a slash.
abbrev closed_rest : List Str → Str
closed_rest [] = []
closed_rest (e ∷ es) = e ++ (spell es ++ slash)

spell_closed : (es : List Str) → spell es ++ slash ≡ b'/' ∷ closed_rest es
spell_closed [] = refl
spell_closed (e ∷ es) = ap (λ t. b'/' ∷ t) (append_assoc e (spell es) slash)

spell_step :
    (e : Str) (es : List Str) → spell (e ∷ es) ++ slash ≡ b'/' ∷ (e ++ b'/' ∷ closed_rest es)
spell_step e es = spell_closed (e ∷ es) ∙ ap (λ t. b'/' ∷ (e ++ t)) (spell_closed es)

starts_with_same : (s p : Str) → starts_with_text (b'/' ∷ s) (b'/' ∷ p) ≡ starts_with_text s p
unfolding starts_with_text
starts_with_same s p = refl

starts_with_nothing : (e t : Str) → starts_with_text [] (e ++ (t ++ slash)) ≡ false
unfolding starts_with_text
starts_with_nothing [] [] = refl
starts_with_nothing [] (c ∷ t) = refl
starts_with_nothing (c ∷ e) t = refl

is_initial-spell :
    (q p : List Str)
    → All (Lacks b'/') q
    → All (Lacks b'/') p
    → starts_with_text (spell p ++ slash) (spell q ++ slash) ≡ is_initial q p
is_initial-spell [] p hq hp = rw (spell_closed p) (unfold starts_with_text in refl)
is_initial-spell (e ∷ q) [] (he, hq) hp =
    rw append_assoc (unfold starts_with_text in starts_with_nothing e (spell q))
is_initial-spell (e ∷ q) (f ∷ p) (he, hq) (hf, hp) =
    ap₂ starts_with_text (spell_step f p) (spell_step e q)
    ∙ starts_with_same (f ++ b'/' ∷ closed_rest p) (e ++ b'/' ∷ closed_rest q)
    ∙ starts_with_word f e (closed_rest p) (closed_rest q) hf he
    ∙ ap (λ b. e == f && b)
        (ap₂ starts_with_text (sym (spell_closed p)) (sym (spell_closed q))
          ∙ is_initial-spell q p hq hp)

-- For the paths of two lists of words the test never reads past the end, and says whether the
-- second list is an initial part of the first: a path lies below another by whole elements only.
starts_with-path_text :
    (p q : List Str)
    → All IsWord p
    → All IsWord q
    → starts_with (record { text = path_text p }) (record { text = path_text q })
      ≡ some (is_initial q p)
starts_with-path_text p [] hp hq = rw starts_with_chars (ground (arith, eq_iff slash slash))
starts_with-path_text [] ([] ∷ q) hp ((n, _), _) = absurd (n refl)
starts_with-path_text [] ((c ∷ e) ∷ q) hp ((n, (w, _)), _) =
    rw starts_with_chars (unfold starts_with_text list_beq in ground (arith, eq_iff c b'/'))
starts_with-path_text (f ∷ p) (e ∷ q) hp hq = rw starts_with_chars (
    ground (
      arith,
      eq_iff (spell (e ∷ q)) slash,
      spell-ne-slash e q hq,
      is_initial-spell (e ∷ q) (f ∷ p) (words-Lacks (e ∷ q) hq) (words-Lacks (f ∷ p) hp),
    ))

-- The subtree test reads no byte out of range: it returns on every two paths.
pub starts_with-total : (p q : ObjectPath) → starts_with p q ≡ some (is_beneath p q)
unfolding starts_with is_beneath
starts_with-total p q = elim (Bool-cases (starts_with_text p.text q.text)) [
  | inr n ↦ ground (arith, n)
  | inl y ↦ let (r, e) = starts_with_split p.text q.text y in by_rest r e
]
  where
    by_rest : (r : Str) → p.text ≡ q.text ++ r → starts_with p q ≡ some (is_beneath p q)
    by_rest [] e = ground (arith, eq_iff p.text q.text, e, append-nil q.text)
    by_rest (c ∷ r) e =
        ground (arith, byte_behind q.text c r, ap (λ t. get_elem? (as_bytes t) (len q.text)) e)
