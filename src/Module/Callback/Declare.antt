-- ===== src/Module/Callback/Declare.antt =====
-- The declarations of a callback scope in crates/tinybus/src/module/host_callbacks.rs, and the calls
-- that a scope of valid declarations admits.
use mathlib.Core.Path.{subst}
use tinybus.Prelude.{
  ◌+◌, ◌%◌, ◌≡◌, ◌↔◌, inl, inr, Bool, true, false, not, ◌&&◌, ◌||◌, some, List, [], ◌∷◌, ◌++◌, any,
  find, length, ltb, nat_eq, list_eq, option_eq, ◌==◌, eq_iff, eq_refl, if◌then◌else◌, is_empty,
  arith, Bool-cases, Option-cases, In, In→any, any→In,
}
use tinybus.Text.{txt}
use tinybus.Text.Decimal.{u64_size}
use tinybus.Name.Types.{
  BusName, MemberName, bus_name_eq, object_path_eq, interface_name_eq, member_name_eq,
}
use tinybus.Error.{Result, ok, ◌>>◌, refuse_if, failed}
use tinybus.Router.Callbacks.{Endpoint}
use tinybus.Module.Callback.{
  Place, is_place, place_of, places, count_places, Scope, CallContext, find_endpoint, declares,
  admit,
}

-- A member that stands in the list before.
repeats : List MemberName → List MemberName → Bool
repeats known [] = false
repeats known (m ∷ ms) = any (λ k. k == m) known || repeats (known ++ (m ∷ [])) ms

abbrev bad_members : Endpoint → Bool
bad_members e = is_empty e.members || ltb 64 (length e.members) || repeats [] e.members

unfoldable pub repeats_place : List Place → List Place → Bool
repeats_place known [] = false
repeats_place known (p ∷ ps) = any (is_place p) known || repeats_place (known ++ (p ∷ [])) ps

-- The same member of the same interface at one path.
abbrev overlaps : Endpoint → Endpoint → Bool
overlaps stream confidential =
    is_place (place_of confidential) (place_of stream)
    && any (λ member. any (λ m. m == member) confidential.members) stream.members

abbrev invalid_stream_endpoint : List Endpoint → List Endpoint → Bool
invalid_stream_endpoint endpoints stream_endpoints =
    any bad_members stream_endpoints
    || (repeats_place [] (places stream_endpoints)
        || any (λ e. any (overlaps e) endpoints) stream_endpoints)

unfoldable pub check_declaration : List Endpoint → List Endpoint → List Endpoint → Result (Unit {0})
unfolding repeats repeats_place places count_places
check_declaration endpoints signals stream_endpoints =
    let count = length (count_places [] (places endpoints ++ places stream_endpoints)) in
    do
      refuse_if
          (count == 0
            || ltb 32 count
            || invalid_stream_endpoint endpoints stream_endpoints
            || is_empty endpoints && not (is_empty signals)
            || any bad_members endpoints
            || repeats_place [] (places endpoints))
          (failed (txt "callback endpoint declaration is invalid"))
      refuse_if
          (any (λ s. bad_members s || not (any (λ e. is_place (place_of e) (place_of s)) endpoints))
              signals
            || repeats_place [] (places signals))
          (failed (txt "callback signal declaration is invalid"))
      ok tt

find-In :
    {A : Type 0} (p : A → Bool) (xs : List A) (a : A) → find p xs ≡ some a → In a xs × (p a ≡ true)
find-In p [] a h = cc
find-In p (x ∷ xs) a h = elim (Bool-cases (p x)) [
  | inl e ↦ (inl (ground (arith, h, e)), ground (arith, h, e))
  | inr e ↦ let (i, q) = find-In p xs a (ground (arith, h, e)) in (inr i, q)
]

pub declares-In :
    (es : List Endpoint) (p : Place) (member : MemberName)
    → declares es p member ≡ true
    → (e : Endpoint) × In e es × (is_place (place_of e) p ≡ true) × In member e.members
declares-In es p member h = elim (Option-cases (find_endpoint es p)) [
  | inl none_there ↦ absurd (ground (arith, h, none_there))
  | inr (e, there) ↦
      let (i, here) = find-In (λ e. is_place (place_of e) p) es e there in
      let (m, j, same_name) = any→In (λ m. m == member) e.members (ground (arith, h, there)) in
      (e, i, here, subst (λ k. In k e.members) ((eq_iff m member).0 same_name) j)
]

overlaps-In :
    (s c : Endpoint) (p : Place) (member : MemberName)
    → is_place (place_of s) p ≡ true
    → is_place (place_of c) p ≡ true
    → In member s.members
    → In member c.members
    → overlaps s c ≡ true
overlaps-In s c p member hs hc is ic =
    let shared : any (λ member. any (λ m. m == member) c.members) s.members ≡ true =
      In→any (λ member. any (λ m. m == member) c.members) s.members member is
        (In→any (λ m. m == member) c.members member ic (eq_refl member)) in
    ground (
      arith,
      shared,
      hs,
      hc,
      eq_iff s.path p.path,
      eq_iff c.path p.path,
      eq_iff c.path s.path,
      eq_iff s.interface p.interface,
      eq_iff c.interface p.interface,
      eq_iff c.interface s.interface,
    )

-- No member of a valid declaration is both private and ordinary.
check_declaration-declares :
    (endpoints signals stream_endpoints : List Endpoint) (p : Place) (member : MemberName)
    → check_declaration endpoints signals stream_endpoints ≡ ok tt
    → declares endpoints p member ≡ true
    → declares stream_endpoints p member ≡ false
unfolding check_declaration
check_declaration-declares endpoints signals stream_endpoints p member valid hc =
    elim (Bool-cases (declares stream_endpoints p member)) [
      | inr n ↦ n
      | inl hs ↦
          let (s, is, ps, ms) = declares-In stream_endpoints p member hs in
          let (c, ic, pc, mc) = declares-In endpoints p member hc in
          let clash : any (λ e. any (overlaps e) endpoints) stream_endpoints ≡ true =
            In→any (λ e. any (overlaps e) endpoints) stream_endpoints s is
              (In→any (overlaps s) endpoints c ic (overlaps-In s c p member ps pc ms mc)) in
          absurd (ground (arith, valid, clash))
    ]

-- A scope of valid declarations admits a call exactly if its module is live, the scope is active
-- and bound to a peer, that peer is the caller, and the member is declared private for a
-- confidential call and ordinary for any other.
pub admit_iff :
    (signals : List Endpoint) (s : Scope) (p : Place) (member : MemberName) (context : CallContext)
    → check_declaration s.endpoints signals s.stream_endpoints ≡ ok tt
    → ((t : Scope) × (admit s p member context ≡ ok t)) ↔ (
        (s.module_live ≡ true)
        × (s.lifetime.active ≡ true)
        × ((peer : BusName) × (s.lifetime.bound ≡ some peer) × (context.sender ≡ some peer))
        × ((if context.confidential
              then declares s.endpoints p member
              else declares s.stream_endpoints p member)
            ≡ true))
unfolding admit
admit_iff signals s p member context valid =
    let one_kind =
      check_declaration-declares s.endpoints signals s.stream_endpoints p member valid in
    (
      λ (t, h). (
        ground (arith, h),
        ground (arith, h),
        elim (Option-cases s.lifetime.bound) [
          | inl unbound ↦ absurd (ground (arith, h, unbound))
          | inr (peer, e) ↦ (peer, e, ground (arith, h, e, eq_iff context.sender s.lifetime.bound))
        ],
        ground (arith, h, one_kind),
      ),
      λ (live, active, (peer, bound, sender), declared). (
        record s {
          lifetime = record (s.lifetime) { running = (s.lifetime.running + 1) % u64_size };
        },
        ground (
          arith,
          live,
          active,
          bound,
          sender,
          declared,
          one_kind,
          eq_iff context.sender s.lifetime.bound,
        ),
      ),
    )
