-- ===== src/Broker/Bus/Answers.antt =====
-- What a call of the bus in crates/tinybus/src/broker.rs leaves and answers, whatever its member.
use tinybus.Prelude.{
  none, update, sym, ap, ℕ, ◌≡◌, refl, ◌∙◌, true, Option, some, arith, get, get-update, nat_eq,
  list_eq, option_eq, eq_refl, Option-cases, is_some, All,
}
use tinybus.Text.{Str}
use tinybus.Name.Types.{BusName, MemberName, bus_name_eq}
use tinybus.Error.{Result, ok, err}
use tinybus.Message.Types.{Header, Message}
use tinybus.Message.Build.{method_return}
use tinybus.Message.Reply.{error_reply}
use tinybus.Router.{Router, Peer, NameChange, request_name, release_name, ensure_peer_attached}
use tinybus.Router.Laws.{request_name-leaves, release_name-leaves}
use tinybus.Router.Coherent.{
  IsCoherent, request_name-IsCoherent, release_name-IsCoherent, update-IsCoherent,
}
use tinybus.Router.Resolve.{resolve}
use mathlib.Core.Option
use tinybus.Broker.Bus
use tinybus.Broker.Bus.{
  BusJson, BusAnswer, ModuleControl, ModuleControllerBinding, Sent, own_method, bus_method,
  ControlAnswer, Controlled, module_method, handle_bus_call,
}
use tinybus.Broker.Bus.Told.{IsTrue, request_name-told, release_name-told}
use tinybus.Broker.Bus.Cases.{bus_method-elim}

-- What holds of the answer of a call that comes back.
abbrev pub OnAnswer :
    {Sender Value : Type 0}
    → (BusAnswer Sender Value → Type 0)
    → Option (BusAnswer Sender Value)
    → Type 0
OnAnswer P none = Unit
OnAnswer P (some a) = P a

module _ {Sender Value : Type 0} (json : BusJson Value) (broker_id : Str)
    (binding : Option ModuleControllerBinding) (modules : Option (ModuleControl Sender Value))
    (r : Router Sender) (from : ℕ) (from_name : BusName) where
  changed-router :
      (made : Router Sender × Result NameChange)
      → (Bus.changed json broker_id binding modules made).router ≡ made.0
  changed-router (after, err e) = refl
  changed-router (after, ok c) = refl

  attached-here : ensure_peer_attached r from from_name ≡ ok tt → is_some (get r.peers from) ≡ true
  unfolding ensure_peer_attached
  attached-here h = ground (arith, h, Option-cases (get r.peers from))

  changed-told :
      (made : Router Sender × Result NameChange)
      → ((c : NameChange) → made ≡ (made.0, ok c) → IsTrue r made.0 c)
      → let answer = Bus.changed json broker_id binding modules made in
        All (IsTrue r answer.router) answer.changes
  changed-told (after, err e) told = tt
  changed-told (after, ok c) told = (told c refl, tt)

  -- What a call of the bus that comes back announces of a name is true: the old owner of each
  -- change is who owned the name before the call, and the new owner is who owns it after.
  pub bus_method-told :
      (member : MemberName) (body : Value)
      → OnAnswer
          (λ a. All (IsTrue r a.router) a.changes)
          (bus_method json broker_id binding modules r from from_name member body)
  bus_method-told member body =
      bus_method-elim json broker_id binding modules r from
        (OnAnswer (λ a. All (IsTrue r a.router) a.changes)) from_name member body (λ result. tt)
        (λ back run. nothing_told back)
        (λ name here.
          changed-told (request_name r from name) (λ c e. request_name-told r _ from name c e))
        (λ name.
          changed-told (release_name r from name) (λ c e. release_name-told r _ from name c e))
        (λ f result keeps. tt)
    where
      nothing_told :
          (back : Option (ControlAnswer Sender Value))
          → OnAnswer
              (λ a. All (IsTrue r a.router) a.changes)
              (Option.map (Bus.from_control json broker_id binding modules) back)
      nothing_told none = tt
      nothing_told (some a) = tt

  request_name-peers : (name : BusName) → (request_name r from name).0.peers ≡ r.peers
  request_name-peers name = ground (arith, request_name-leaves r from name)

  release_name-peers : (name : BusName) → (release_name r from name).0.peers ≡ r.peers
  release_name-peers name = ground (arith, release_name-leaves r from name)

  -- The table is coherent, and the caller's entry stays, with its unique name and its queue.
  pub record IsStill (p : Peer Sender) (after : Router Sender) : Type 0 where
    pub coherent : IsCoherent after
    pub entry : Peer Sender
    pub listed : get after.peers from ≡ some entry
    pub same_name : entry.unique ≡ p.unique
    pub same_queue : entry.outbox ≡ p.outbox

  -- The call comes back, and the caller can be told.
  IsBack : Peer Sender → Option (BusAnswer Sender Value) → Type 0
  IsBack p o = (a : BusAnswer Sender Value) × (o ≡ some a) × IsStill p a.router

  bus_method-IsBack :
      (member : MemberName) (body : Value) (p : Peer Sender)
      → IsCoherent r
      → get r.peers from ≡ some p
      → ((back : Option (ControlAnswer Sender Value))
          → module_method binding modules r from_name member body ≡ Controlled.runs back
          → (a : ControlAnswer Sender Value) × (back ≡ some a) × IsStill p a.router)
      → IsBack p (bus_method json broker_id binding modules r from from_name member body)
  unfolding IsBack
  bus_method-IsBack member body p c h comes_back =
      bus_method-elim json broker_id binding modules r from (IsBack p) from_name member body
        (λ result. (
          Bus.same json broker_id binding modules r result,
          refl,
          record { coherent = c; entry = p; listed = h; same_name = refl; same_queue = refl },
        ))
        (λ back run.
          let (a, e, still) = comes_back back run in
          (
            Bus.from_control json broker_id binding modules a,
            ap (Option.map (Bus.from_control json broker_id binding modules)) e,
            still,
          ))
        (λ name here. (
          Bus.changed json broker_id binding modules (request_name r from name),
          refl,
          record {
            coherent =
                rw (changed-router (request_name r from name))
                  (request_name-IsCoherent r from name c (attached-here here));
            entry = p;
            listed = rw (changed-router (request_name r from name), request_name-peers name) h;
            same_name = refl;
            same_queue = refl;
          },
        ))
        (λ name. (
          Bus.changed json broker_id binding modules (release_name r from name),
          refl,
          record {
            coherent =
                rw (changed-router (release_name r from name))
                  (release_name-IsCoherent r from name c);
            entry = p;
            listed = rw (changed-router (release_name r from name), release_name-peers name) h;
            same_name = refl;
            same_queue = refl;
          },
        ))
        (λ f result keeps. (
          Bus.same json broker_id binding modules (record r { peers = update r.peers from f })
              result,
          refl,
          record {
            coherent = update-IsCoherent r from f (λ q. (keeps q).0) c;
            entry = f p;
            listed = ground (arith, h, get-update r.peers from from f, eq_refl from);
            same_name = (keeps p).0;
            same_queue = (keeps p).1;
          },
        ))

  resolve-unique :
      (after : Router Sender) (q : Peer Sender)
      → IsCoherent after
      → get after.peers from ≡ some q
      → resolve after q.unique ≡ ok q.outbox
  unfolding resolve
  resolve-unique after q c h =
      let mine = c.own from (ground (arith, h)) in
      let named = c.identities from q h in rw (named, mine, resolve) (rw h refl)

  reply_to-header :
      (debug : Str → Str) (call : Header) (result : Result Value)
      → let reply = Bus.reply_to json debug call result in
        (reply.header.reply_serial ≡ some call.serial) × (reply.header.destination ≡ call.sender)
  unfolding Bus.reply_to error_reply method_return
  reply_to-header debug call (ok value) = (refl, refl)
  reply_to-header debug call (err e) = (refl, refl)

  -- Every call of the bus that names a member, from a connection that a coherent table lists under
  -- its own name, is answered, whatever its arguments: one reply goes to the queue of the caller,
  -- bears the serial of the call, and is addressed to its sender; nothing else happens to the table
  -- between the method and the reply, and if the call is one that the module host runs, this is
  -- under the condition that it comes back and that the table then is coherent and still lists the
  -- caller with its name and its queue.
  pub handle_bus_call-reply :
      (debug : Str → Str) (p : Peer Sender) (message : Message Value) (member : MemberName)
      → IsCoherent r
      → get r.peers from ≡ some p
      → p.unique ≡ from_name
      → message.header.member ≡ some member
      → ((back : Option (ControlAnswer Sender Value))
          → module_method binding modules r from_name member message.body ≡ Controlled.runs back
          → (a : ControlAnswer Sender Value) × (back ≡ some a) × IsStill p a.router)
      → (after : Router Sender) × (sent : Sent Sender Value) × (handle_bus_call json broker_id
            binding modules debug r from from_name message
          ≡ some (after, ok sent))
        × (sent.outbox ≡ p.outbox)
        × (sent.reply.header.reply_serial ≡ some message.header.serial)
        × (sent.reply.header.destination ≡ message.header.sender)
  unfolding handle_bus_call IsBack
  handle_bus_call-reply debug p message member c h e hm comes_back =
      let (answer, back, still) = bus_method-IsBack member message.body p c h comes_back in
      let found : resolve answer.router from_name ≡ ok still.entry.outbox =
        ap (resolve answer.router) (sym (still.same_name ∙ e))
        ∙ resolve-unique answer.router still.entry still.coherent still.listed in
      let sent : Sent Sender Value = record {
        outbox = still.entry.outbox;
        reply = Bus.reply_to json debug message.header answer.result;
        announced = Bus.announcements json broker_id binding modules answer;
      } in
      let answers = reply_to-header debug message.header answer.result in
      (
        answer.router,
        sent,
        rw (hm, back, found, handle_bus_call) refl,
        still.same_queue,
        answers.0,
        answers.1,
      )
