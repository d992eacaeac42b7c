-- ===== src/Broker/Bus.antt =====
-- The bus's own service in crates/tinybus/src/broker.rs: `handle_bus_call`, `bus_method`, and the
-- admission of `module_method`. What `serde_json` reads and writes is a parameter, and so is the
-- host of the modules, whose answer stands for that of the whole control call, with the table that
-- the broker finds when it comes back. A call of any other member is one step, with its reply.
pub mod Told
pub mod Cases
pub mod Tests
pub mod Answers
pub mod Denied
use mathlib.Core.Option
use tinybus.Prelude.{
  ℕ, zero, suc, Bool, true, false, not, ◌&&◌, ◌||◌, ◌⊎◌, inl, inr, Option, none, some, List, [],
  ◌∷◌, ◌++◌, map, Map, filter, ltb, nat_eq, list_eq, option_eq, ◌==◌, ◌!=◌, if◌then◌else◌,
  is_some_and, and_then,
}
use tinybus.Text.{Str, txt, as_bytes}
use tinybus.Name.Types.{BusName, ObjectPath, InterfaceName, MemberName, bus_name_eq}
use tinybus.Name.BusName.{is_unique}
use tinybus.Error.{Error, Result, ok, err, ◌>>=◌, ◌>>◌, ok_or, failed}
use tinybus.Error.Redact.{bad_arguments}
use tinybus.Version.{PeerManifest}
use tinybus.Message.Types.{MessageKind, Header, Message, JsonText}
use tinybus.Message.Build.{plain, method_return}
use tinybus.Message.Reply.{error_reply}
use tinybus.Router.{
  Router, Peer, Attestation, NameChange, bus_name, ensure_peer_attached, owner_of, request_name,
  release_name, set_manifest, manifest_of, attestation_of, add_match, remove_match,
}
use tinybus.Router.Rule.{MatchRule}
use tinybus.Router.Rule.Parse.{parse}
use tinybus.Router.Callbacks.{Heap}
use tinybus.Router.Resolve.{resolve, broadcast_targets}

-- The order of `str`, by its bytes.
unfoldable pub bytes_before : List ℕ → List ℕ → Bool
bytes_before [] ys = true
bytes_before (x ∷ xs) [] = false
bytes_before (x ∷ xs) (y ∷ ys) = ltb x y || (x == y && bytes_before xs ys)

abbrev pub before : BusName → BusName → Bool
before a b = bytes_before (as_bytes a.text) (as_bytes b.text)

unfoldable pub place : {A : Type 0} → (A → A → Bool) → A → List A → List A
place le x [] = x ∷ []
place le x (y ∷ ys) = let rest = place le x ys in if le x y then x ∷ y ∷ ys else y ∷ rest

unfoldable pub sort_with : {A : Type 0} → (A → A → Bool) → List A → List A
unfolding place
sort_with le [] = []
sort_with le (x ∷ xs) = place le x (sort_with le xs)

pub record PeerRecord : Type 0 where
  pub peer : BusName
  pub names : List BusName
  pub manifest : PeerManifest

-- The order in which the two maps are listed does not matter to either.
unfoldable pub list_names : {Sender : Type 0} → Router Sender → List BusName
unfolding sort_with
list_names r = sort_with before (map (λ (name, id). name) r.names)

abbrev pub names_of : {Sender : Type 0} → Router Sender → ℕ → List BusName
names_of r id = sort_with before (
    map (λ (name, owner). name)
      (filter (λ (name, owner). owner == id && not (is_unique name)) r.names))

unfoldable pub records_of :
    {Sender : Type 0} → Router Sender → Map ℕ (Peer Sender) → List PeerRecord
unfolding sort_with
records_of r [] = []
records_of r ((id, peer) ∷ peers) = elim (peer.manifest) [
  | none ↦ records_of r peers
  | some manifest ↦
      record { peer = peer.unique; names = names_of r id; manifest = manifest } ∷ records_of r peers
]

unfoldable pub peer_records : {Sender : Type 0} → Router Sender → List PeerRecord
unfolding records_of
peer_records r = sort_with (λ a b. before a.peer b.peer) (records_of r r.peers)

-- What the bus reads from the bodies of its calls and writes to those of its answers.
pub record BusJson (Value : Type 0) : Type 0 where
  pub text : JsonText Value
  pub name_arg : Value → Str ⊎ BusName
  pub manifest_arg : Value → Str ⊎ PeerManifest
  pub rule_arg : Value → Str ⊎ Str
  pub bool : Bool → Value
  pub from_name : BusName → Result Value
  pub from_names : List BusName → Result Value
  pub from_owner : Option BusName → Result Value
  pub from_manifest : Option PeerManifest → Result Value
  pub from_records : List PeerRecord → Result Value
  pub from_attestation : Option Attestation → Result Value
  pub change : NameChange → Value

abbrev pub parse_args {ℓ} : {A : Type ℓ} → MemberName → Str ⊎ A → Result A
parse_args member (inl e) = err (bad_arguments member e)
parse_args member (inr a) = ok a

abbrev pub bus_interface : InterfaceName
bus_interface = record { text = txt "ai.tinyhumans.tinybus.Bus" }

abbrev pub bus_path : ObjectPath
bus_path = record { text = txt "/ai/tinyhumans/tinybus/Bus" }

pub data ModuleMember : Type 0 where
  list get get_manifest load load_github reinitialize stop enable rescan : ModuleMember

unfoldable pub module_member : Str → Option ModuleMember
module_member member =
    if member == txt "ListModules"
    then some ModuleMember.list
    else if member == txt "GetModule"
    then some ModuleMember.get
    else if member == txt "GetModuleManifest"
    then some ModuleMember.get_manifest
    else if member == txt "LoadModule"
    then some ModuleMember.load
    else if member == txt "LoadGithubModule"
    then some ModuleMember.load_github
    else if member == txt "ReinitializeModule"
    then some ModuleMember.reinitialize
    else if member == txt "StopModule"
    then some ModuleMember.stop
    else if member == txt "EnableModule"
    then some ModuleMember.enable
    else if member == txt "RescanModules"
    then some ModuleMember.rescan
    else none

abbrev pub only_reads : ModuleMember → Bool
only_reads ModuleMember.list = true
only_reads ModuleMember.get = true
only_reads ModuleMember.get_manifest = true
only_reads _ = false

pub data ModuleControllerBinding : Type 0 where
  unselected : ModuleControllerBinding
  attaching : ModuleControllerBinding
  selected : BusName → ModuleControllerBinding

abbrev pub is_selected : ModuleControllerBinding → BusName → Bool
is_selected (ModuleControllerBinding.selected controller) name = controller == name
is_selected _ name = false

abbrev pub module_control_denied : Error
module_control_denied =
    Error.method_failed (txt "ai.tinyhumans.tinybus.Error.ModuleControlDenied")
      (txt "module control requires the host-selected controller connection")

-- How a control call of the modules comes back: the table that it finds then, its answer, and the
-- states to announce.
pub record ControlAnswer (Sender Value : Type 0) : Type 0 where
  pub router : Router Sender
  pub result : Result Value
  pub states : List Value

-- The host of the modules. The broker waits for a control call without the lock of the table: other
-- connections go on, the call itself revokes callbacks and adds or ends peers, and `none` stands for
-- one that never comes back. `unavailable_for` is what the host says of a name that it does not serve.
pub record ModuleControl (Sender Value : Type 0) : Type 0 where
  pub run : ModuleMember → MemberName → Value → Router Sender → Option (ControlAnswer Sender Value)
  pub unavailable_for : BusName → Option Error

-- What a call of the bus comes to: its answer, the table it leaves, and what is announced.
pub record BusAnswer (Sender Value : Type 0) : Type 0 where
  pub router : Router Sender
  pub result : Result Value
  pub changes : List NameChange
  pub module_states : List Value

-- The member is not one of the modules'; or the answer is there at once; or it is the host's.
pub data Controlled (Sender Value : Type 0) : Type 0 where
  not_control : Controlled Sender Value
  refused : Error → Controlled Sender Value
  runs : Option (ControlAnswer Sender Value) → Controlled Sender Value

module _ {Sender Value : Type 0} where
  -- A broker that is not restricted has no binding.
  unfoldable pub module_method :
      Option ModuleControllerBinding
      → Option (ModuleControl Sender Value)
      → Router Sender
      → BusName
      → MemberName
      → Value
      → Controlled Sender Value
  unfolding module_member
  module_method binding modules r from_name member body = elim (module_member member.text) [
    | none ↦ Controlled.not_control
    | some operation ↦
        if not (only_reads operation) && is_some_and binding (λ b. not (is_selected b from_name))
        then Controlled.refused module_control_denied
        else elim modules [
          | none ↦ Controlled.refused (failed (txt "module host is not installed"))
          | some control ↦ Controlled.runs (control.run operation member body r)
        ]
  ]

unfoldable pub bus_signal : {Value : Type 0} → Str → Value → Message Value
bus_signal member body = record {
  header = record (plain MessageKind.signal) {
    sender = some bus_name;
    path = some bus_path;
    interface = some bus_interface;
    member = some (record { text = member });
  };
  body = body;
}

unfoldable pub reply_to :
    {Value : Type 0} → BusJson Value → (Str → Str) → Header → Result Value → Message Value
unfolding error_reply method_return
reply_to json debug call (ok value) = method_return call value
reply_to json debug call (err e) = error_reply json.text debug call e

-- What the call sends: the reply, to the queue of the caller, and then the announcements, each with
-- the queues that it is tried on.
pub record Sent (Sender Value : Type 0) : Type 0 where
  pub outbox : Sender
  pub reply : Message Value
  pub announced : List (List Sender × Message Value)

module _ {Sender Value : Type 0} (json : BusJson Value) (broker_id : Str)
    (binding : Option ModuleControllerBinding) (modules : Option (ModuleControl Sender Value)) where
  abbrev pub same : Router Sender → Result Value → BusAnswer Sender Value
  same r result = record { router = r; result = result; changes = []; module_states = [] }

  abbrev pub from_control : ControlAnswer Sender Value → BusAnswer Sender Value
  from_control a = record {
    router = a.router;
    result = a.result;
    changes = [];
    module_states = a.states;
  }

  -- `changes.push(…?)`
  abbrev pub changed : Router Sender × Result NameChange → BusAnswer Sender Value
  changed (after, err e) = record {
    router = after;
    result = err e;
    changes = [];
    module_states = [];
  }
  changed (after, ok change) = record {
    router = after;
    result = ok (json.bool true);
    changes = change ∷ [];
    module_states = [];
  }

  -- A call whose argument is read first.
  abbrev pub with_arg :
      {A : Type 0}
      → Router Sender
      → Result A
      → (A → BusAnswer Sender Value)
      → BusAnswer Sender Value
  with_arg r (err e) answer = same r (err e)
  with_arg r (ok a) answer = answer a

  unfoldable pub resolve_call_target :
      Router Sender → ℕ → BusName → MemberName → Value → Result Value
  resolve_call_target r from from_name member body = do
    name ← parse_args member (json.name_arg body)
    ensure_peer_attached r from from_name
    elim (owner_of r name) [
      | some owner ↦ json.from_name owner
      | none ↦ elim (and_then modules (λ control. control.unavailable_for name)) [
        | some error ↦ err error
        | none ↦ err (Error.name_has_no_owner name)
      ]
    ]

  -- The `match` on the member.
  unfoldable pub own_method :
      Router Sender → ℕ → BusName → MemberName → Value → BusAnswer Sender Value
  unfolding request_name release_name set_manifest add_match remove_match
  own_method r from from_name member body =
      let name = parse_args member (json.name_arg body) in
      let rule = parse_args member (json.rule_arg body) >>= parse in
      let m = member.text in
      if m == txt "Hello"
      then same r (json.from_name from_name)
      else if m == txt "GetId"
      then same r (ok (json.text.string broker_id))
      else if m == txt "Ping"
      then same r (ok json.text.null)
      else if m == txt "RequestName"
      then with_arg r name (λ n. changed (request_name r from n))
      else if m == txt "ReleaseName"
      then with_arg r name (λ n. changed (release_name r from n))
      else if m == txt "ListNames"
      then same r (json.from_names (list_names r))
      else if m == txt "Announce"
      then with_arg r (parse_args member (json.manifest_arg body))
          (λ manifest. same (set_manifest r from manifest) (ok (json.bool true)))
      else if m == txt "GetManifest"
      then same r (name >>= λ n. json.from_manifest (manifest_of r n))
      else if m == txt "ListPeers"
      then same r (json.from_records (peer_records r))
      else if m == txt "GetAttestation"
      then same r (name >>= λ n. json.from_attestation (attestation_of r n))
      else if m == txt "GetNameOwner"
      then same r (name >>= λ n. json.from_owner (owner_of r n))
      else if m == txt "AddMatch"
      then with_arg r rule (λ parsed. same (add_match r from parsed) (ok json.text.null))
      else if m == txt "RemoveMatch"
      then with_arg r rule (λ parsed. same (remove_match r from parsed) (ok json.text.null))
      else same r (err (Error.unknown_method bus_interface member))

  unfoldable pub bus_method :
      Router Sender → ℕ → BusName → MemberName → Value → Option (BusAnswer Sender Value)
  unfolding module_method resolve_call_target own_method
  bus_method r from from_name member body = elim (ensure_peer_attached r from from_name) [
    | err e ↦ some (same r (err e))
    | ok attached ↦ elim (module_method binding modules r from_name member body) [
      | Controlled.refused e ↦ some (same r (err e))
      | Controlled.runs back ↦ Option.map from_control back
      | Controlled.not_control ↦ some (
          if member.text == txt "ResolveCallTarget"
          then same r (resolve_call_target r from from_name member body)
          else own_method r from from_name member body)
    ]
  ]

  -- Only a change of owner is told, and before any state of a module.
  unfoldable pub announcements : BusAnswer Sender Value → List (List Sender × Message Value)
  unfolding bus_signal
  announcements answer =
      map (λ message. (broadcast_targets answer.router message, message))
        (map (λ c. bus_signal (txt "NameOwnerChanged") (json.change c))
            (filter (λ c. c.old_owner != c.new_owner) answer.changes)
          ++ map (bus_signal (txt "ModuleStateChanged")) answer.module_states)

  unfoldable pub handle_bus_call :
      (Str → Str)
      → Router Sender
      → ℕ
      → BusName
      → Message Value
      → Option (Router Sender × Result (Sent Sender Value))
  unfolding bus_method reply_to announcements
  handle_bus_call debug r from from_name message = elim message.header.member [
    | none ↦ some (r, err (Error.protocol (txt "bus call has no member")))
    | some member ↦
        Option.map
          (λ answer. (
            answer.router,
            (resolve answer.router from_name >>= λ outbox. ok (record {
              outbox = outbox;
              reply = reply_to json debug message.header answer.result;
              announced = announcements answer;
            })),
          ))
          (bus_method r from from_name member message.body)
  ]
