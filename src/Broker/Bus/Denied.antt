-- ===== src/Broker/Bus/Denied.antt =====
-- Who may change the modules of a restricted broker in crates/tinybus/src/broker.rs.
use tinybus.Prelude.{
  ℕ, ◌≡◌, ◌≢◌, ◌↔◌, ◌⊎◌, refl, sym, ap, inl, inr, Bool, true, false, Option, none, some, List, [],
  ◌∷◌, arith, In, nat_eq, list_eq, list_beq, ◌==◌, eq_iff,
}
use tinybus.Text.{Str, txt}
use tinybus.Name.Types.{BusName, MemberName, bus_name_eq}
use tinybus.Error.{Error, ok, failed}
use tinybus.Router.{Router, ensure_peer_attached}
use tinybus.Broker.Bus.{
  BusJson, BusAnswer, ModuleControl, ModuleControllerBinding, ModuleMember, Controlled,
  module_member, only_reads, is_selected, module_control_denied, module_method, bus_method,
}
use tinybus.Error.{err}

-- The members that change what is loaded, and those that only tell of it.
abbrev pub changing_members : List Str
changing_members =
    txt "LoadModule"
    ∷ txt "LoadGithubModule"
    ∷ txt "ReinitializeModule"
    ∷ txt "StopModule"
    ∷ txt "EnableModule"
    ∷ txt "RescanModules"
    ∷ []

abbrev pub telling_members : List Str
telling_members = txt "ListModules" ∷ txt "GetModule" ∷ txt "GetModuleManifest" ∷ []

-- The denial: an error, the table as it was, and nothing to announce.
abbrev pub denied : {Sender Value : Type 0} → Router Sender → BusAnswer Sender Value
denied r = record {
  router = r;
  result = err module_control_denied;
  changes = [];
  module_states = [];
}

IsOperation : Bool → Str → Type 0
IsOperation reads t =
    (operation : ModuleMember) × (module_member t ≡ some operation) × (only_reads operation ≡ reads)

changing-IsOperation : (t : Str) → In t changing_members → IsOperation false t
unfolding IsOperation module_member txt list_beq
changing-IsOperation t (inl e) = rw (sym e) (ModuleMember.load, refl, refl)
changing-IsOperation t (inr (inl e)) = rw (sym e) (ModuleMember.load_github, refl, refl)
changing-IsOperation t (inr (inr (inl e))) = rw (sym e) (ModuleMember.reinitialize, refl, refl)
changing-IsOperation t (inr (inr (inr (inl e)))) = rw (sym e) (ModuleMember.stop, refl, refl)
changing-IsOperation t (inr (inr (inr (inr (inl e))))) =
    rw (sym e) (ModuleMember.enable, refl, refl)
changing-IsOperation t (inr (inr (inr (inr (inr (inl e)))))) =
    rw (sym e) (ModuleMember.rescan, refl, refl)
changing-IsOperation t (inr (inr (inr (inr (inr (inr h)))))) = absurd h

telling-IsOperation : (t : Str) → In t telling_members → IsOperation true t
unfolding IsOperation module_member txt list_beq
telling-IsOperation t (inl e) = rw (sym e) (ModuleMember.list, refl, refl)
telling-IsOperation t (inr (inl e)) = rw (sym e) (ModuleMember.get, refl, refl)
telling-IsOperation t (inr (inr (inl e))) = rw (sym e) (ModuleMember.get_manifest, refl, refl)
telling-IsOperation t (inr (inr (inr h))) = absurd h

is_selected_iff :
    (b : ModuleControllerBinding) (name : BusName)
    → (is_selected b name ≡ true) ↔ (b ≡ ModuleControllerBinding.selected name)
is_selected_iff ModuleControllerBinding.unselected name = ground arith
is_selected_iff ModuleControllerBinding.attaching name = ground arith
is_selected_iff (ModuleControllerBinding.selected c) name = ground (arith, eq_iff c name)

abbrev name_of : Error → Str
name_of (Error.method_failed name message) = name
name_of _ = []

names_differ : (name_of (failed []) == name_of module_control_denied) ≡ false
unfolding txt list_beq
names_differ = refl

-- The two refusals are told apart by their names.
failed-ne-denied : (text : Str) → failed text ≢ module_control_denied
failed-ne-denied text e =
    let same : (name_of (failed text) == name_of module_control_denied) ≡ true =
      (eq_iff (name_of (failed text)) (name_of module_control_denied)).1 (ap name_of e) in
    absurd (ground (arith, same, names_differ))

module _ {Sender Value : Type 0} (json : BusJson Value) (broker_id : Str) (r : Router Sender)
    (from : ℕ) (from_name : BusName) where
  abbrev calls :
      ModuleControllerBinding
      → Option (ModuleControl Sender Value)
      → MemberName
      → Value
      → Option (BusAnswer Sender Value)
  calls b modules member body =
      bus_method json broker_id (some b) modules r from from_name member body

  changing-denied :
      (b : ModuleControllerBinding) (modules : Option (ModuleControl Sender Value))
      (member : MemberName) (body : Value)
      → ensure_peer_attached r from from_name ≡ ok tt
      → In member.text changing_members
      → b ≢ ModuleControllerBinding.selected from_name
      → calls b modules member body ≡ some (denied r)
  unfolding bus_method module_method IsOperation
  changing-denied b modules member body attached changing other =
      let (operation, named, changes) = changing-IsOperation member.text changing in
      let refused : module_method (some b) modules r from_name member body
          ≡ Controlled.refused module_control_denied =
        ground (arith, named, changes, is_selected_iff b from_name, other) in
      rw (attached, refused, bus_method) refl

  -- Without a host, what is not denied fails with another error.
  allowed-ne-denied :
      (b : ModuleControllerBinding) (member : MemberName) (body : Value) (operation : ModuleMember)
      → ensure_peer_attached r from from_name ≡ ok tt
      → module_member member.text ≡ some operation
      → (only_reads operation ≡ true) ⊎ (b ≡ ModuleControllerBinding.selected from_name)
      → calls b none member body ≢ some (denied r)
  unfolding bus_method module_method
  allowed-ne-denied b member body operation attached named allowed e =
      let missing : module_method {Sender = Sender} {Value = Value} (some b) none r from_name member
            body
          ≡ Controlled.refused (failed (txt "module host is not installed")) =
        ground (arith, named, allowed, is_selected_iff b from_name) in
      let answered : calls b none member body
          ≡ some (record {
            router = r;
            result = err (failed (txt "module host is not installed"));
            changes = [];
            module_states = [];
          }) =
        rw (attached, missing, bus_method) refl in
      absurd (failed-ne-denied (txt "module host is not installed") (ground (arith, e, answered)))

  -- On a broker that restricts the control of modules, a control call of an attached connection is
  -- denied whatever the module host is, with the denial as its answer, the table as it was and
  -- nothing announced, exactly if it is one of LoadModule, LoadGithubModule, ReinitializeModule,
  -- StopModule, EnableModule and RescanModules and the connection is not the selected controller;
  -- the other control calls are ListModules, GetModule and GetModuleManifest.
  pub bus_method-denied :
      (b : ModuleControllerBinding) (member : MemberName) (body : Value)
      → ensure_peer_attached r from from_name ≡ ok tt
      → In member.text changing_members ⊎ In member.text telling_members
      → ((modules : Option (ModuleControl Sender Value))
          → calls b modules member body ≡ some (denied r))
        ↔ (In member.text changing_members × (b ≢ ModuleControllerBinding.selected from_name))
  unfolding IsOperation
  bus_method-denied b member body attached (inl changing) =
      let (operation, named, changes) = changing-IsOperation member.text changing in
      (
        λ h. (
          changing,
          λ same. allowed-ne-denied b member body operation attached named (inr same) (h none),
        ),
        λ (_, other) modules. changing-denied b modules member body attached changing other,
      )
  bus_method-denied b member body attached (inr telling) =
      let (operation, named, reads) = telling-IsOperation member.text telling in
      (
        λ h. absurd (allowed-ne-denied b member body operation attached named (inl reads) (h none)),
        λ (changing, other) modules. changing-denied b modules member body attached changing other,
      )
