-- ===== src/Module/Callback/Routed.antt =====
-- The two gates of a private callback: the route that crates/tinybus/src/router.rs opens to it, and the
-- admission in crates/tinybus/src/module/host_callbacks.rs.
use mathlib.Core.Path.{subst}
use tinybus.Prelude.{
  ◌≡◌, ◌↔◌, inl, inr, refl, sym, true, false, some, List, [], ◌∷◌, ◌++◌, any, nat_eq, list_eq,
  option_eq, ◌==◌, eq_iff, eq_refl, arith, Bool-cases, Option-cases, In, In→any, any→In, In-append,
}
use tinybus.Name.Types.{
  BusName, MemberName, bus_name_eq, object_path_eq, interface_name_eq, member_name_eq,
}
use tinybus.Error.{ok}
use tinybus.Message.Types.{Header}
use tinybus.Router.Callbacks.{Endpoint, CallbackState, admits, matches}
use tinybus.Module.Callback.{Place, is_place, place_of, places, Scope, CallContext, declares, admit}
use tinybus.Module.Callback.Declare.{repeats_place, check_declaration, declares-In, admit_iff}

-- The scope as the router holds it, under the name of the callback's connection.
abbrev pub routed : Scope → BusName → CallbackState
routed s destination = record {
  destination = destination;
  endpoints = s.endpoints;
  signals = s.signals;
  module_live = s.module_live;
  active = s.lifetime.active;
  revoked = s.lifetime.revoked;
  module_peer = s.lifetime.bound;
}

is_place-join : (a b p : Place) → is_place a p ≡ true → is_place b p ≡ true → is_place a b ≡ true
is_place-join a b p ha hb = ground (
  arith,
  ha,
  hb,
  eq_iff a.path p.path,
  eq_iff b.path p.path,
  eq_iff a.path b.path,
  eq_iff a.interface p.interface,
  eq_iff b.interface p.interface,
  eq_iff a.interface b.interface,
)

repeats_place-In :
    (known : List Place) (es : List Endpoint) (k : Place) (e : Endpoint)
    → In k known
    → In e es
    → is_place (place_of e) k ≡ true
    → repeats_place known (places es) ≡ true
unfolding repeats_place places
repeats_place-In known [] k e hk he same = absurd he
repeats_place-In known (x ∷ es) k e hk (inl first) same =
    let seen : any (is_place (place_of x)) known ≡ true =
      In→any (is_place (place_of x)) known k hk (rw first same) in
    ground (arith, seen)
repeats_place-In known (x ∷ es) k e hk (inr later) same =
    let rest =
      repeats_place-In (known ++ (place_of x ∷ [])) es k e
        ((In-append k known (place_of x ∷ [])).1 (inl hk)) later same in
    ground (arith, rest)

-- With no two endpoints at one place, the one that is found is the one that declares the member.
declares-unrepeated :
    (known : List Place) (es : List Endpoint) (e : Endpoint) (p : Place) (member : MemberName)
    → repeats_place known (places es) ≡ false
    → In e es
    → is_place (place_of e) p ≡ true
    → any (λ m. m == member) e.members ≡ true
    → declares es p member ≡ true
unfolding repeats_place places
declares-unrepeated known [] e p member single he here told = absurd he
declares-unrepeated known (x ∷ es) e p member single (inl first) here told =
    subst (λ y. declares (y ∷ es) p member ≡ true) (sym first) (ground (arith, here, told))
declares-unrepeated known (x ∷ es) e p member single (inr later) here told =
    elim (Bool-cases (is_place (place_of x) p)) [
      | inl y ↦
          let again =
            repeats_place-In (known ++ (place_of x ∷ [])) es (place_of x) e
              ((In-append (place_of x) known (place_of x ∷ [])).1 (inr (inl refl))) later
              (is_place-join (place_of e) (place_of x) p here y) in
          absurd (ground (arith, single, again))
      | inr n ↦
          let rest =
            declares-unrepeated (known ++ (place_of x ∷ [])) es e p member (ground (arith, single))
              later here told in
          ground (arith, n, rest)
    ]

admits-here :
    (header : Header) (p : Place) (member : MemberName) (e : Endpoint)
    → header.path ≡ some p.path
    → header.interface ≡ some p.interface
    → header.member ≡ some member
    → (admits header e ≡ true)
      ↔ ((is_place (place_of e) p ≡ true) × (any (λ m. m == member) e.members ≡ true))
unfolding admits
admits-here header p member e hp hi hm = ground (
  arith,
  hp,
  hi,
  hm,
  eq_iff p.path e.path,
  eq_iff e.path p.path,
  eq_iff p.interface e.interface,
  eq_iff e.interface p.interface,
)

admits-declares :
    (s : Scope) (header : Header) (p : Place) (member : MemberName)
    → check_declaration s.endpoints s.signals s.stream_endpoints ≡ ok tt
    → header.path ≡ some p.path
    → header.interface ≡ some p.interface
    → header.member ≡ some member
    → (any (admits header) s.endpoints ≡ true) ↔ (declares s.endpoints p member ≡ true)
unfolding check_declaration
admits-declares s header p member valid hp hi hm = (
  λ h.
      let (e, i, here) = any→In (admits header) s.endpoints h in
      let (at_place, told) = (admits-here header p member e hp hi hm).0 here in
      declares-unrepeated [] s.endpoints e p member (ground (arith, valid)) i at_place told,
  λ h.
      let (e, i, at_place, listed) = declares-In s.endpoints p member h in
      In→any (admits header) s.endpoints e i (
        (admits-here header p member e hp hi hm).1
          (at_place, In→any (λ m. m == member) e.members member listed (eq_refl member))),
)

-- The two gates of a private callback agree: the scope, as the router holds it under the name of
-- its connection, opens a route to a confidential call of a member at a place exactly if the scope
-- would admit that call from the same sender; the declarations are valid, and the header names the
-- place, the member and the connection.
pub matches-admit_iff :
    (s : Scope) (destination : BusName) (header : Header) (p : Place) (member : MemberName)
    → check_declaration s.endpoints s.signals s.stream_endpoints ≡ ok tt
    → header.path ≡ some p.path
    → header.interface ≡ some p.interface
    → header.member ≡ some member
    → header.confidential ≡ true
    → header.destination ≡ some destination
    → (matches (routed s destination) header ≡ true) ↔ (
        (t : Scope) × (admit s p member (record { sender = header.sender; confidential = true })
          ≡ ok t))
unfolding matches
matches-admit_iff s destination header p member valid hp hi hm hc hd =
    let context : CallContext = record { sender = header.sender; confidential = true } in
    let allowed = admit_iff s.signals s p member context valid in
    let listed = admits-declares s header p member valid hp hi hm in
    (
      λ h. allowed.1 (
        ground (arith, h),
        ground (arith, h),
        elim (Option-cases s.lifetime.bound) [
          | inl unbound ↦ absurd (ground (arith, h, unbound))
          | inr (peer, e) ↦ (peer, e, ground (arith, h, e, eq_iff header.sender s.lifetime.bound))
        ],
        listed.0 (ground (arith, h)),
      ),
      λ h.
          let (live, active, (peer, bound, sender), declared) = allowed.0 h in
          ground (
            arith,
            live,
            active,
            bound,
            sender,
            hc,
            hd,
            listed.1 declared,
            eq_refl (some destination),
            eq_iff header.sender s.lifetime.bound,
          ),
    )
