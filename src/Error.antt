-- ===== src/Error.antt =====
-- crates/tinybus/src/error.rs: the error type, the result type and its chains. The cases `io` and
-- `json` carry the text of the foreign error; a `PathBuf` is its displayed text.
mod Tests
pub mod Wire
pub mod Redact
use tinybus.Prelude.{ℕ, ◌≡◌, refl, ◌⊎◌, inl, inr, Bool, true, false, Option, none, some, arith}
use tinybus.Text.{Str, txt}
use tinybus.Name.Types.{BusName, ObjectPath, InterfaceName, MemberName}

pub data Error : Type 0 where
  invalid_name : Str → Str → Str → Error
  protocol : Str → Error
  transport : Str → Error
  connection_closed : Error
  backpressure : Error
  name_has_no_owner : BusName → Error
  not_attested : BusName → Str → Error
  confidentiality_required : InterfaceName → MemberName → Error
  name_taken : BusName → BusName → Error
  unknown_object : ObjectPath → Error
  unknown_interface : ObjectPath → InterfaceName → Error
  unknown_method : InterfaceName → MemberName → Error
  invalid_domain : Str → Str → Error
  bad_arguments : MemberName → Str → Error
  incompatible_version : Str → Str → Str → Error
  method_failed : Str → Str → Error
  timeout : MemberName → ℕ → Error
  path : Str → Str → Error
  feature_disabled : Str → Str → Error
  module_refused : Str → Str → Error
  module_unavailable : Str → Str → Str → Error
  unknown_stream : Str → Error
  stream_aborted : Str → Error
  stream_too_large : ℕ → Error
  too_many_streams : ℕ → Error
  io : Str → Error
  json : Str → Error

pub data Result {ℓ} (Value : Type ℓ) : Type ℓ where
  err : Error → Result Value
  ok : Value → Result Value

-- The `?` operator.
infixl 5 ◌>>=◌ ◌>>◌
abbrev pub ◌>>=◌ {ℓ κ} : {A : Type ℓ} {B : Type κ} → Result A → (A → Result B) → Result B
err refusal >>= next = err refusal
ok value >>= next = next value

abbrev pub ◌>>◌ {ℓ} : {B : Type ℓ} → Result (Unit {0}) → Result B → Result B
check >> next = check >>= λ done. next

-- `if b { return Err(e); }`
abbrev pub refuse_if : Bool → Error → Result (Unit {0})
refuse_if true e = err e
refuse_if false e = ok tt

-- `Option::ok_or_else`
abbrev pub ok_or {ℓ} : {A : Type ℓ} → Option A → Error → Result A
ok_or none e = err e
ok_or (some a) e = ok a

abbrev pub is_ok {ℓ} : {A : Type ℓ} → Result A → Bool
is_ok (ok a) = true
is_ok (err e) = false

-- A chain that succeeds has a first step that succeeds.
pub >>=-eq-ok {ℓ κ} :
    {A : Type ℓ} {B : Type κ} (check : Result A) (next : A → Result B) {last : B}
    → (check >>= next) ≡ ok last
    → (value : A) × (check ≡ ok value) × (next value ≡ ok last)
>>=-eq-ok (err refusal) next h = cc
>>=-eq-ok (ok value) next h = (value, refl, h)

pub Result-cases {ℓ} :
    {A : Type ℓ} (answer : Result A)
    → ((e : Error) × (answer ≡ err e)) ⊎ ((a : A) × (answer ≡ ok a))
Result-cases (err e) = inl (e, refl)
Result-cases (ok a) = inr (a, refl)

-- `Error::FAILED` and the other public names.
abbrev pub unknown_method_name : Str
unknown_method_name = txt "ai.tinyhumans.tinybus.Error.UnknownMethod"

abbrev pub failed_name : Str
failed_name = txt "ai.tinyhumans.tinybus.Error.Failed"

abbrev pub not_attested_name : Str
not_attested_name = txt "ai.tinyhumans.tinybus.Error.NotAttested"

abbrev pub confidentiality_required_name : Str
confidentiality_required_name = txt "ai.tinyhumans.tinybus.Error.ConfidentialityRequired"

abbrev pub module_unavailable_name : Str
module_unavailable_name = txt "ai.tinyhumans.tinybus.Error.ModuleUnavailable"

-- `Error::failed`
abbrev pub failed : Str → Error
failed message = Error.method_failed failed_name message
