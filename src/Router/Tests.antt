-- ===== src/Router/Tests.antt =====
-- Examples of the theorems about crates/tinybus/src/router.rs: a bus with two connections, of which
-- the first owns the mail service and is attested for it. An outbox is a number here.
use tinybus.Prelude.{
  ℕ, ◌≡◌, ◌≢◌, refl, ◌↔◌, ◌⊎◌, true, false, none, some, [], ◌∷◌, arith, get, insert, remove,
  list_beq, nat_eq, option_eq, ◌==◌, if◌then◌else◌, is_some, In,
}
use tinybus.Text.{Str, txt, starts_with}
use tinybus.Text.Decimal.{decimal}
use tinybus.Name.Types.{BusName, bus_name_eq}
use tinybus.Name.BusName.{unique, is_unique}
use tinybus.Error.{ok}
use tinybus.Message.Types.{Message}
use tinybus.Message.Build.{signal, confidential_call}
use tinybus.Router.{
  Peer, Router, bus_name, new_peer, attach, detach, owned_by, release_all, revoke_including,
  request_name, owner_of, attestation_of, set_attestation_for_unique, add_match,
}
use tinybus.Router.Rule.{new, signals, matches}
use tinybus.Router.Rule.Matches.{IsWanted, matches_iff}
use tinybus.Router.Callbacks.{Heap}
use tinybus.Router.Resolve.{resolve, resolve_call, subscribers}
use tinybus.Router.Coherent.{IsCoherent, empty-IsCoherent}
use tinybus.Router.Reach.{Step, Steps, Steps-IsCoherent}
use tinybus.Router.Reuse.{IsGone, gone-names}
use tinybus.Router.Secrets.{IsExpected, IsScoped, resolve_call-confidential_iff}
use tinybus.Router.Signals.{Hears, In-subscribers}
use tinybus.Router.Detach.{detach-owner_of}

abbrev pub mail : BusName
mail = record { text = txt "ai.tinyhumans.Mail" }

abbrev pub heap : Heap
heap address = record {
  destination = unique 2;
  endpoints = [];
  signals = [];
  module_live = true;
  active = true;
  revoked = false;
  module_peer = some (unique 1);
}

abbrev empty : Router ℕ
empty = record { peers = []; names = []; next_id = 0; host_callbacks = [] }

abbrev one : Router ℕ
one = (attach empty 10).0

abbrev two : Router ℕ
two = (attach one 20).0

abbrev serving : Router ℕ
serving = (request_name two 1 mail).0

abbrev pub attested : Router ℕ
attested =
    set_attestation_for_unique serving (unique 1)
      (record { name = mail; sha256 = txt "ab"; library_sha256 = none })

abbrev listening : Router ℕ
listening = add_match attested 2 (signals new)

to_serving : Steps heap empty heap serving
unfolding attach get unique insert remove
to_serving =
    Steps.then heap empty heap two heap serving
      (Steps.then heap empty heap one heap two
        (Steps.then heap empty heap empty heap one (Steps.done heap empty)
          (Step.attach heap empty 10 (omega arith)))
        (Step.attach heap one 20 (omega arith)))
      (Step.request_name heap two 1 mail refl)

Steps-IsCoherent_example : IsCoherent serving
Steps-IsCoherent_example = Steps-IsCoherent to_serving empty-IsCoherent

abbrev peer_a : Peer ℕ
peer_a = new_peer 1 10

peer_one : get serving.peers 1 ≡ some peer_a
unfolding attach request_name get is_unique starts_with unique insert remove txt bus_name_eq
    list_beq decimal
peer_one = refl

serving-IsCoherent : IsCoherent serving
serving-IsCoherent = Steps-IsCoherent to_serving empty-IsCoherent

abbrev gone : Router ℕ
gone = (detach heap serving 1).1.0

to_gone : Steps heap serving (detach heap serving 1).0 gone
to_gone =
    Steps.then heap serving heap serving (detach heap serving 1).0 gone (Steps.done heap serving)
      (Step.detach heap serving 1)

gone-IsCoherent : IsCoherent gone
gone-IsCoherent = Steps-IsCoherent to_gone serving-IsCoherent

gone-IsGone : IsGone 1 gone
unfolding detach attach request_name owned_by release_all revoke_including get is_unique starts_with
    unique insert remove txt bus_name_eq list_beq decimal
gone-IsGone = (refl, omega arith)

to_later :
    Steps (detach heap serving 1).0 gone (detach heap serving 1).0 (request_name gone 2 mail).0
unfolding detach attach request_name owned_by release_all revoke_including get is_unique starts_with
    unique insert remove txt bus_name_eq list_beq decimal
to_later =
    Steps.then (detach heap serving 1).0 gone (detach heap serving 1).0 gone
      (detach heap serving 1).0 (request_name gone 2 mail).0
      (Steps.done (detach heap serving 1).0 gone)
      (Step.request_name (detach heap serving 1).0 gone 2 mail refl)

-- The second connection takes the name over; the first id and its unique name stay unused.
gone-names_example :
    (get (request_name gone 2 mail).0.peers 1 ≡ none)
    × (get (request_name gone 2 mail).0.names (unique 1) ≡ none)
gone-names_example = gone-names 1 gone-IsCoherent gone-IsGone to_later

detach-owner_of_example :
    owner_of gone mail ≡ (if get serving.names mail == some 1 then none else owner_of serving mail)
detach-owner_of_example = detach-owner_of heap serving 1 peer_a mail serving-IsCoherent peer_one

abbrev scoped : Router ℕ
scoped = record serving { host_callbacks = 5 ∷ [] }

abbrev pub secret : Message Str
secret =
    confidential_call mail (record { text = txt "/ai/mail" })
      (record { text = txt "ai.tinyhumans.Mail" }) (record { text = txt "Unlock" }) (txt "key")

resolve_call-confidential_iff_example :
    (resolve_call heap attested mail none true secret.header ≡ ok 10) ↔ (
      IsExpected attested mail none
      × (resolve attested mail ≡ ok 10)
      × ((is_some (attestation_of attested mail) ≡ true)
          ⊎ ((is_unique mail ≡ true) × IsScoped heap attested secret.header)))
resolve_call-confidential_iff_example =
    resolve_call-confidential_iff heap attested mail none secret.header 10

mail-free : get two.names mail ≡ none
unfolding attach get unique insert remove txt bus_name_eq list_beq decimal
mail-free = refl

mail-plain : is_unique mail ≡ false
unfolding is_unique starts_with txt
mail-plain = refl

mail-ne-bus : mail ≢ bus_name
unfolding txt
mail-ne-bus e = absurd (ground (arith, e))

abbrev received : Message Str
received =
    signal (record { text = txt "/ai/mail" }) (record { text = txt "ai.tinyhumans.Mail" })
      (record { text = txt "Received" }) (txt "one")

matches_iff_example :
    (matches (signals new) received ≡ true) ↔ IsWanted (signals new) received.header
matches_iff_example = matches_iff (signals new) received

In-subscribers_example : In 20 (subscribers listening received 1) ↔ (
    (id : ℕ) × (peer : Peer ℕ) × In (id, peer) listening.peers
    × (peer.outbox ≡ 20)
    × Hears received 1 id peer)
In-subscribers_example = In-subscribers listening received 1 20
