-- ===== src/Broker/Bus/Cases.antt =====
-- The ways in which a call of the bus in crates/tinybus/src/broker.rs touches the routing table.
use mathlib.Core.Option
use tinybus.Prelude.{
  ℕ, ◌≡◌, ◌⊎◌, refl, inl, inr, Bool, true, false, Option, some, update, nat_eq, list_eq, option_eq,
  ◌==◌, Bool-cases, if◌then◌else◌,
}
use tinybus.Text.{Str, txt}
use tinybus.Name.Types.{BusName, MemberName, bus_name_eq}
use tinybus.Error.{Error, Result, Result-cases, ok, err, ◌>>=◌}
use tinybus.Router.{
  Router, Peer, NameChange, request_name, release_name, set_manifest, add_match, remove_match,
  ensure_peer_attached,
}
use tinybus.Router.Rule.Parse.{parse}
use tinybus.Broker.Bus
use tinybus.Broker.Bus.{
  BusJson, BusAnswer, ModuleControl, ModuleControllerBinding, ControlAnswer, Controlled, Sent,
  own_method, bus_method, module_method, handle_bus_call,
}

if-elim : {A : Type 0} (P : A → Type 0) {x y : A} (b : Bool) → P x → P y → P (if b then x else y)
if-elim P true p q = p
if-elim P false p q = q

module _ {Sender Value : Type 0} (json : BusJson Value) (broker_id : Str)
    (binding : Option ModuleControllerBinding) (modules : Option (ModuleControl Sender Value))
    (r : Router Sender) (from : ℕ) (P : BusAnswer Sender Value → Type 0) where
  abbrev plain_answer : Router Sender → Result Value → BusAnswer Sender Value
  plain_answer after result = Bus.same json broker_id binding modules after result

  abbrev name_answer : Router Sender × Result NameChange → BusAnswer Sender Value
  name_answer made = Bus.changed json broker_id binding modules made

  with_arg-elim :
      {A : Type 0} (arg : Result A) (answer : A → BusAnswer Sender Value)
      → ((result : Result Value) → P (plain_answer r result))
      → ((a : A) → P (answer a))
      → P (Bus.with_arg json broker_id binding modules r arg answer)
  with_arg-elim (err e) answer refuse go = refuse (err e)
  with_arg-elim (ok a) answer refuse go = go a

  -- The ways in which a member touches the table.
  own_method-elim :
      (from_name : BusName) (member : MemberName) (body : Value)
      → ((result : Result Value) → P (plain_answer r result))
      → ((name : BusName) → P (name_answer (request_name r from name)))
      → ((name : BusName) → P (name_answer (release_name r from name)))
      → ((f : Peer Sender → Peer Sender) (result : Result Value)
          → ((p : Peer Sender) → ((f p).unique ≡ p.unique) × ((f p).outbox ≡ p.outbox))
          → P (plain_answer (record r { peers = update r.peers from f }) result))
      → P (own_method json broker_id binding modules r from from_name member body)
  unfolding own_method set_manifest add_match remove_match
  own_method-elim from_name member body keep request release touch =
      if-elim P (member.text == txt "Hello") (keep _) (
        if-elim P (member.text == txt "GetId") (keep _) (
          if-elim P (member.text == txt "Ping") (keep _) (
            if-elim P (member.text == txt "RequestName")
              (with_arg-elim (Bus.parse_args member (json.name_arg body)) _ keep request)
              (if-elim P (member.text == txt "ReleaseName")
                (with_arg-elim (Bus.parse_args member (json.name_arg body)) _ keep release)
                (if-elim P (member.text == txt "ListNames") (keep _) (
                  if-elim P (member.text == txt "Announce")
                    (with_arg-elim (Bus.parse_args member (json.manifest_arg body)) _ keep
                      (λ m. touch _ _ (λ p. (refl, refl))))
                    (if-elim P (member.text == txt "GetManifest") (keep _) (
                      if-elim P (member.text == txt "ListPeers") (keep _) (
                        if-elim P (member.text == txt "GetAttestation") (keep _) (
                          if-elim P (member.text == txt "GetNameOwner") (keep _) (
                            if-elim P (member.text == txt "AddMatch")
                              (with_arg-elim (Bus.parse_args member (json.rule_arg body) >>= parse)
                                _ keep (λ m. touch _ _ (λ p. (refl, refl))))
                              (if-elim P (member.text == txt "RemoveMatch")
                                (with_arg-elim
                                  (Bus.parse_args member (json.rule_arg body) >>= parse) _ keep
                                  (λ m. touch _ _ (λ p. (refl, refl))))
                                (keep _)))))))))))))

Controlled-cases :
    {Sender Value : Type 0} (c : Controlled Sender Value)
    → (c ≡ Controlled.not_control)
      ⊎ (((e : Error) × (c ≡ Controlled.refused e))
          ⊎ ((back : Option (ControlAnswer Sender Value)) × (c ≡ Controlled.runs back)))
Controlled-cases Controlled.not_control = inl refl
Controlled-cases (Controlled.refused e) = inr (inl (e, refl))
Controlled-cases (Controlled.runs back) = inr (inr (back, refl))

module _ {Sender Value : Type 0} (json : BusJson Value) (broker_id : Str)
    (binding : Option ModuleControllerBinding) (modules : Option (ModuleControl Sender Value))
    (r : Router Sender) (from : ℕ) (Q : Option (BusAnswer Sender Value) → Type 0) where
  -- A caller that is attached, and a caller that is not; a control call that the host runs may come
  -- back or not.
  pub bus_method-elim :
      (from_name : BusName) (member : MemberName) (body : Value)
      → ((result : Result Value) → Q (some (Bus.same json broker_id binding modules r result)))
      → ((back : Option (ControlAnswer Sender Value))
          → module_method binding modules r from_name member body ≡ Controlled.runs back
          → Q (Option.map (Bus.from_control json broker_id binding modules) back))
      → ((name : BusName)
          → ensure_peer_attached r from from_name ≡ ok tt
          → Q (some (Bus.changed json broker_id binding modules (request_name r from name))))
      → ((name : BusName)
          → Q (some (Bus.changed json broker_id binding modules (release_name r from name))))
      → ((f : Peer Sender → Peer Sender) (result : Result Value)
          → ((p : Peer Sender) → ((f p).unique ≡ p.unique) × ((f p).outbox ≡ p.outbox))
          → Q (
              some (
                Bus.same json broker_id binding modules
                  (record r { peers = update r.peers from f })
                  result)))
      → Q (bus_method json broker_id binding modules r from from_name member body)
  unfolding bus_method
  bus_method-elim from_name member body keep run request release touch =
      elim (Result-cases (ensure_peer_attached r from from_name)) [
        | inl (e, he) ↦ rw (he, bus_method) (keep (err e))
        | inr (done, hd) ↦
            elim (Controlled-cases (module_method binding modules r from_name member body)) [
              | inr (inl (e, hm)) ↦ rw (hd, hm, bus_method) (keep (err e))
              | inr (inr (back, hm)) ↦ rw (hd, hm, bus_method) (run back hm)
              | inl hm ↦ elim (Bool-cases (member.text == txt "ResolveCallTarget")) [
                | inl y ↦ rw (hd, hm, y, bus_method) (keep _)
                | inr n ↦
                    rw (hd, hm, n, bus_method)
                      (own_method-elim json broker_id binding modules r from (λ a. Q (some a))
                        from_name member body keep (λ name. request name hd) release touch)
              ]
            ]
      ]
