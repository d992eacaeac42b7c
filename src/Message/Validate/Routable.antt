-- ===== src/Message/Validate/Routable.antt =====
-- What a header promises once `validate` has passed, stated field by field.
use tinybus.Prelude.{
  ◌≡◌, refl, ◌≢◌, ◌↔◌, ◌⊎◌, true, false, Option, none, arith, is_some, is_some_and,
}
use tinybus.Name.Types.{BusName}
use tinybus.Name.BusName.{is_unique}
use tinybus.Error.{ok, >>=-eq-ok}
use tinybus.Message.Types.{MessageKind, Header, Message}
use tinybus.Message.Build.{method_return}
use tinybus.Message.Validate.{validate, check_flags, check_private, check_kind}

abbrev IsPrivate : Header → Type 0
IsPrivate h = (h.confidential ≡ true) ⊎ (h.sensitive ≡ true)

abbrev pub IsAddressed : Header → Type 0
IsAddressed h = (is_some h.path ≡ true) × (is_some h.interface ≡ true) × (is_some h.member ≡ true)

-- Every name that stands in an optional field is unique.
abbrev UniqueIfSet : Option BusName → Type 0
UniqueIfSet o = is_some_and o is_unique ≡ is_some o

-- What each kind wants of its own fields.
abbrev pub IsShaped : MessageKind → Header → Type 0
IsShaped MessageKind.method_call h = (is_some h.destination ≡ true) × IsAddressed h
IsShaped MessageKind.method_return h = is_some h.reply_serial ≡ true
IsShaped MessageKind.error h = is_some h.reply_serial ≡ true
IsShaped MessageKind.signal h =
    (is_some h.interface ≡ true) × (is_some h.member ≡ true) × UniqueIfSet h.destination
IsShaped MessageKind.directed_signal h =
    (is_some_and h.destination is_unique ≡ true)
    × IsAddressed h
    × (h.reply_serial ≡ none)
    × (h.error_name ≡ none)
    × (h.expected_responder ≡ none)

pub record IsRoutable (h : Header) : Type 0 where
  pub streamed : h.stream_reply ≡ true → h.kind ≡ MessageKind.method_call
  pub expecting : is_some h.expected_responder ≡ true → h.kind ≡ MessageKind.method_call
  pub expected : UniqueIfSet h.expected_responder
  pub no_broadcast :
      IsPrivate h → (h.kind ≢ MessageKind.signal) × (h.kind ≢ MessageKind.directed_signal)
  pub destined : IsPrivate h → is_some h.destination ≡ true
  pub shaped : IsShaped h.kind h

abbrev PassesFlags : Header → Type 0
PassesFlags h =
    (h.stream_reply ≡ true → h.kind ≡ MessageKind.method_call)
    × (is_some h.expected_responder ≡ true → h.kind ≡ MessageKind.method_call)
    × UniqueIfSet h.expected_responder

check_flags_sound : (h : Header) → check_flags h ≡ ok tt → PassesFlags h
unfolding check_flags
check_flags_sound h e = (λ s. ground arith, λ s. ground arith, ground arith)

check_flags_complete : (h : Header) → PassesFlags h → check_flags h ≡ ok tt
unfolding check_flags
check_flags_complete h (a, b, c) = ground arith

abbrev PassesPrivate : Header → Type 0
PassesPrivate h =
    (IsPrivate h → (h.kind ≢ MessageKind.signal) × (h.kind ≢ MessageKind.directed_signal))
    × (IsPrivate h → is_some h.destination ≡ true)

check_private_sound : (h : Header) → check_private h ≡ ok tt → PassesPrivate h
unfolding check_private
check_private_sound h e = (λ s. ground arith, λ s. ground arith)

check_private_complete : (h : Header) → PassesPrivate h → check_private h ≡ ok tt
unfolding check_private
check_private_complete h (a, b) = ground arith

check_kind_sound : (k : MessageKind) (h : Header) → check_kind k h ≡ ok tt → IsShaped k h
unfolding check_kind
check_kind_sound MessageKind.method_call h e = ground arith
check_kind_sound MessageKind.method_return h e = ground arith
check_kind_sound MessageKind.error h e = ground arith
check_kind_sound MessageKind.signal h e = ground arith
check_kind_sound MessageKind.directed_signal h e = ground arith

check_kind_complete :
    (k : MessageKind) (h : Header)
    → k ≡ h.kind
    → (h.stream_reply ≡ true → h.kind ≡ MessageKind.method_call)
    → IsShaped k h
    → check_kind k h ≡ ok tt
unfolding check_kind
check_kind_complete MessageKind.method_call h same s e = ground arith
check_kind_complete MessageKind.method_return h same s e = ground arith
check_kind_complete MessageKind.error h same s e = ground arith
check_kind_complete MessageKind.signal h same s e = ground arith
check_kind_complete MessageKind.directed_signal h same s e = ground arith

module _ {Value : Type 0} (m : Message Value) where
  validate_sound : validate m ≡ ok tt → IsRoutable m.header
  unfolding validate
  validate_sound e =
      let (_, flags, rest) = >>=-eq-ok (check_flags m.header) _ e in
      let (_, private_body, kind) = >>=-eq-ok (check_private m.header) _ rest in
      let (streamed, expecting, expected) = check_flags_sound m.header flags in
      let (no_broadcast, destined) = check_private_sound m.header private_body in
      record {
        streamed = streamed;
        expecting = expecting;
        expected = expected;
        no_broadcast = no_broadcast;
        destined = destined;
        shaped = check_kind_sound m.header.kind m.header kind;
      }

  validate_complete : IsRoutable m.header → validate m ≡ ok tt
  unfolding validate
  validate_complete r = rw (
    check_flags_complete m.header (r.streamed, r.expecting, r.expected),
    check_private_complete m.header (r.no_broadcast, r.destined),
    check_kind_complete m.header.kind m.header refl r.streamed r.shaped,
  )

  -- The ingress check passes exactly the routable messages: a streamed reply and an expected
  -- responder belong to calls only, the responder is a unique name, a private body has a
  -- destination and is never a signal, and each kind has the fields that its routing reads.
  pub validate-eq-ok_iff : (validate m ≡ ok tt) ↔ IsRoutable m.header
  validate-eq-ok_iff = (validate_sound, validate_complete)

-- A reply passes the ingress check exactly if it is not confidential or the call had a sender.
pub validate-method_return_iff :
    {Value : Type 0} (call : Header) (body : Value)
    → (validate (method_return call body) ≡ ok tt)
      ↔ ((call.confidential ≡ false) ⊎ (is_some call.sender ≡ true))
unfolding validate method_return
validate-method_return_iff call body = ground arith
