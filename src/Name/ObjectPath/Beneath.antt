-- ===== src/Name/ObjectPath/Beneath.antt =====
-- The subtree test of crates/tinybus/src/name.rs, on the text of two paths.
use tinybus.Prelude.{
  ◌≡◌, ◌↔◌, ◌⊎◌, refl, sym, ap, ◌∙◌, true, [], ◌∷◌, ◌++◌, arith, nat_eq, list_eq, ◌==◌, eq_iff,
  eq_refl, append_assoc, ◌||◌, some,
}
use tinybus.Text.{Str, starts_with as starts_with_text}
use tinybus.Name.Types.{ObjectPath}
use tinybus.Name.ObjectPath.{is_beneath, starts_with, slash}
use tinybus.Name.ObjectPath.Subtree.{starts_with_chars, starts_with_closed, starts_with_split}

-- The namespace is the root, or the path itself, or what stands before a slash of the path.
abbrev pub IsBeneath : ObjectPath → ObjectPath → Type 0
IsBeneath path namespace =
    (namespace.text ≡ b'/' ∷ [])
    ⊎ ((path.text ≡ namespace.text) ⊎ ((rest : Str) × (path.text ≡ namespace.text ++ b'/' ∷ rest)))

starts_with_itself : (p r : Str) → starts_with_text (p ++ r) p ≡ true
unfolding starts_with_text
starts_with_itself [] r = refl
starts_with_itself (c ∷ p) r = ground (arith, eq_refl c, starts_with_itself p r)

starts_with-text :
    (a b : ObjectPath)
    → starts_with a b
      ≡ some (b.text == slash || (a.text == b.text || starts_with_text a.text (b.text ++ slash)))
starts_with-text a b =
    starts_with_chars a b ∙ ap (λ t. some (b.text == slash || t)) (starts_with_closed a.text b.text)

-- Text behind the namespace and a slash.
starts_with-rest :
    (s p : Str) → (starts_with_text s (p ++ slash) ≡ true) ↔ ((rest : Str) × (s ≡ p ++ b'/' ∷ rest))
starts_with-rest s p = (
  λ h. let (r, e) = starts_with_split s (p ++ slash) h in (r, e ∙ append_assoc p slash r),
  λ (r, e).
      ap (λ t. starts_with_text t (p ++ slash)) (e ∙ sym (append_assoc p slash r))
      ∙ starts_with_itself (p ++ slash) r,
)

pub is_beneath_iff :
    (path namespace : ObjectPath) → (is_beneath path namespace ≡ true) ↔ IsBeneath path namespace
unfolding is_beneath
is_beneath_iff path namespace = ground (
  arith,
  starts_with-text path namespace,
  starts_with-rest path.text namespace.text,
  eq_iff namespace.text slash,
  eq_iff path.text namespace.text,
)
