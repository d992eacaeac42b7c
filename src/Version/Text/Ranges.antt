-- ===== src/Version/Text/Ranges.antt =====
-- Printing a range of untagged versions and parsing it again.
use tinybus.Prelude.{
  ◌≡◌, refl, sym, ap, ◌∙◌, Option, none, some, List, [], ◌∷◌, ◌++◌, arith, nat_eq, eq_iff,
  append-nil,
}
use tinybus.Text.{Str, trim, trim_end, is_whitespace, strip_prefix}
use tinybus.Text.Trim.{
  NoSpace, trim-NoSpace, trim_end-NoSpace, trim_end-append, trim_start-cons, trim_start_space,
}
use tinybus.Text.Split.{Lacks, split, split-append, split_lacking}
use tinybus.Error.{ok}
use tinybus.Version.{Version, VersionRange}
use tinybus.Version.Text.{
  parse, core_text, tag_text, display, clauses, bounds, parse_range, upper_text, display_range,
}
use tinybus.Version.Text.RoundTrip.{IsCore, core_text-IsCore, FitsU64, parse-display}

IsCore-NoSpace : (s : Str) → IsCore s → NoSpace s
unfolding is_whitespace
IsCore-NoSpace [] h = tt
IsCore-NoSpace (c ∷ s) (hc, h) = (ground (arith, eq_iff c b'.'), IsCore-NoSpace s h)

IsCore-Lacks : (s : Str) → IsCore s → Lacks b',' s
IsCore-Lacks [] h = tt
IsCore-Lacks (c ∷ s) (hc, h) = (λ e. ground (arith, e), IsCore-Lacks s h)

-- A version that fits and has no tag, as every bound that the program itself computes.
abbrev pub IsBound : Version → Type 0
IsBound v = FitsU64 v × (v.tag ≡ none)

display_bound : (v : Version) → IsBound v → display v ≡ core_text v
unfolding display
display_bound v (_, e) = ap (λ t. core_text v ++ tag_text t) e ∙ append-nil (core_text v)

bound-NoSpace : (v : Version) → IsBound v → NoSpace (display v)
bound-NoSpace v h = rw (display_bound v h) (IsCore-NoSpace (core_text v) (core_text-IsCore v))

bound-Lacks : (v : Version) → IsBound v → Lacks b',' (display v)
bound-Lacks v h = rw (display_bound v h) (IsCore-Lacks (core_text v) (core_text-IsCore v))

lower-NoSpace : (v : Version) → IsBound v → NoSpace (b'>' ∷ b'=' ∷ display v)
unfolding is_whitespace
lower-NoSpace v h = (refl, (refl, bound-NoSpace v h))

upper-NoSpace : (v : Version) → IsBound v → NoSpace (b'<' ∷ display v)
unfolding is_whitespace
upper-NoSpace v h = (refl, bound-NoSpace v h)

trim_upper : (v : Version) → IsBound v → trim (b' ' ∷ b'<' ∷ display v) ≡ b'<' ∷ display v
unfolding trim is_whitespace
trim_upper v h =
    ap trim_end (trim_start_space (b'<' ∷ display v) ∙ trim_start-cons b'<' (display v) refl)
    ∙ trim_end-NoSpace (b'<' ∷ display v) (upper-NoSpace v h)

parse_bound : (v : Version) → IsBound v → parse (trim (display v)) ≡ ok v
parse_bound v h = ap parse (trim-NoSpace (display v) (bound-NoSpace v h)) ∙ parse-display v h.0

clauses_lower :
    (input : Str) (v : Version) (cs : List Str) (min max : Option Version)
    → IsBound v
    → clauses input ((b'>' ∷ b'=' ∷ display v) ∷ cs) min max ≡ clauses input cs (some v) max
unfolding clauses strip_prefix
clauses_lower input v cs min max h =
    rw (trim-NoSpace (b'>' ∷ b'=' ∷ display v) (lower-NoSpace v h), clauses) (rw (parse_bound v h))

clauses_upper :
    (input : Str) (v : Version) (min max : Option Version)
    → IsBound v
    → clauses input ((b' ' ∷ b'<' ∷ display v) ∷ []) min max ≡ ok (min, some v)
unfolding clauses strip_prefix
clauses_upper input v min max h =
    rw (trim_upper v h, clauses) (rw (trim_upper v h) (rw (parse_bound v h)))

-- The upper bound, if there is one, has no tag either.
abbrev pub IsUpper : Option Version → Type 0
IsUpper none = Unit
IsUpper (some max) = IsBound max

abbrev range_text : Version → Option Version → Str
range_text min max = (b'>' ∷ b'=' ∷ display min) ++ upper_text max

lower-Lacks : (v : Version) → IsBound v → Lacks b',' (b'>' ∷ b'=' ∷ display v)
lower-Lacks v h = ((λ e. ground (arith, e)), ((λ e. ground (arith, e)), bound-Lacks v h))

alone :
    (v : Version)
    → IsBound v
    → split (b'>' ∷ b'=' ∷ display v) b',' ≡ (b'>' ∷ b'=' ∷ display v) ∷ []
alone v h = split_lacking (b'>' ∷ b'=' ∷ display v) b',' (lower-Lacks v h)

both :
    (min max : Version)
    → IsBound min
    → IsBound max
    → split (range_text min (some max)) b','
      ≡ (b'>' ∷ b'=' ∷ display min) ∷ (b' ' ∷ b'<' ∷ display max) ∷ []
both min max h k =
    split-append (b'>' ∷ b'=' ∷ display min) (b' ' ∷ b'<' ∷ display max) b',' (lower-Lacks min h)
    ∙ ap (λ r. (b'>' ∷ b'=' ∷ display min) ∷ r)
        (split_lacking (b' ' ∷ b'<' ∷ display max) b','
          ((λ e. ground (arith, e)), ((λ e. ground (arith, e)), bound-Lacks max k)))

bounds_range :
    (min : Version) (max : Option Version)
    → IsBound min
    → IsUpper max
    → bounds (range_text min max) ≡ ok (record { min = min; max_exclusive = max })
unfolding bounds
bounds_range min none h k =
    rw append-nil
      (rw (alone min h) (rw (clauses_lower _ min [] none none h) (unfold clauses in refl)))
bounds_range min (some max) h k = rw (both min max h k) (
    rw (clauses_lower _ min ((b' ' ∷ b'<' ∷ display max) ∷ []) none none h)
      (rw (clauses_upper _ max (some min) none k)))

trim_range :
    (min : Version) (max : Option Version)
    → IsBound min
    → IsUpper max
    → trim (range_text min max) ≡ range_text min max
unfolding trim is_whitespace
trim_range min none h k =
    let e = append-nil (b'>' ∷ b'=' ∷ display min) in
    ap trim e ∙ trim-NoSpace (b'>' ∷ b'=' ∷ display min) (lower-NoSpace min h) ∙ sym e
trim_range min (some max) h k =
    ap trim_end
      (trim_start-cons b'>' (b'=' ∷ (display min ++ b',' ∷ b' ' ∷ b'<' ∷ display max)) refl)
    ∙ trim_end-append (b'>' ∷ b'=' ∷ display min) b',' (b' ' ∷ b'<' ∷ display max) (
        trim_end-append (b',' ∷ b' ' ∷ []) b'<' (display max)
          (trim_end-NoSpace (b'<' ∷ display max) (upper-NoSpace max k)))

-- Every range of untagged versions of 64-bit numbers, bounded above or not, is read back from its
-- print.
parse_range-display_range :
    (r : VersionRange)
    → IsBound r.min
    → IsUpper r.max_exclusive
    → parse_range (display_range r) ≡ ok r
unfolding parse_range display_range strip_prefix
parse_range-display_range r h k =
    let e = trim_range r.min r.max_exclusive h k in
    rw (e, parse_range) (rw (e) (bounds_range r.min r.max_exclusive h k))
