-- ===== src/Tests/ClientTests.antt =====
-- src/client.cpp on stanzas of a small account.
use jreen.Base.{
  ℕ, ◌++◌, true, false, some, List, [], ◌∷◌, ◌≡◌, refl, Text, text, text_discrete, inr, get, ◌≢◌,
}
use mathlib.Core.List.{Perm}
use jreen.Jid.{JidData, empty_jid, is_domain}
use jreen.Roster.{RosterQuery, handle_push, remove_item}
use jreen.Stanza.{
  Iq, iq, get_iq, result_iq, Payload, error_iq, error_payload, ping, roster_query, make_iq,
  subscription_required, roster_payload,
}
use jreen.Client.{Client, callback, sent, answered, Application, send, handle_stanza, fill_from}
use jreen.Client.Replies.{answer_once, identified}
use jreen.Client.Requests.{IsStranger, strangers_refused, pushes_of_contacts}
use jreen.Tests.RosterTests.{known, item}

abbrev pub jid : Text → Text → Text → Text → JidData
jid node domain bare full = record {
  domain = domain;
  node = node;
  resource = text "r";
  bare = bare;
  full = full;
  valid = true;
}

abbrev pub me : JidData
me = jid (text "me") (text "x") (text "me@x") (text "me@x/r")

abbrev pub ann : JidData
ann = jid (text "a") (text "x") (text "a@x") (text "a@x/r")

abbrev bob : JidData
bob = jid (text "b") (text "x") (text "b@x") (text "b@x/r")

abbrev account : Client
account = record {
  jid = me;
  conn_open = true;
  is_connected = true;
  authorized = true;
  current_id = 7;
  iq_tracks = [];
  rooms = [];
  roster = some known;
}

abbrev silent : Application
silent i c = (false, c, [])

abbrev kind_of : Payload → ℕ
kind_of (error_payload c) = 1
kind_of ping = 2
kind_of _ = 3

abbrev prefix : Text
prefix = text "Jreen:"

abbrev number : ℕ → Text
number n = n ∷ []

abbrev request : JidData → List Payload → Iq
request j payloads = record {
  kind = get_iq;
  from = j;
  to = me;
  id = text "q1";
  payloads = payloads;
  connection = false;
}

-- A request without an id of its own, and the answer to the id that it gets.
abbrev nameless : Iq
nameless = record (request empty_jid []) { id = [] }

abbrev answer : Iq
answer = make_iq result_iq empty_jid (prefix ++ 7 ∷ [])

answer_once_example :
    let (waiting, written) = send kind_of prefix number [] (callback 1 2) nameless account in
    let (done, told) = handle_stanza kind_of prefix number [] silent (iq answer) waiting in
    (written
      ≡ sent (fill_from account (identified kind_of prefix number [] silent account nameless)) ∷ [])
    × (told ≡ answered (callback 1 2) answer ∷ [])
    × (handle_stanza kind_of prefix number [] silent (iq answer) done ≡ (done, []))
    × ((j : Text) → j ≢ prefix ++ 7 ∷ [] → get j done.iq_tracks ≡ get j account.iq_tracks)
answer_once_example =
    answer_once kind_of prefix number [] silent account (callback 1 2) nameless answer answer refl
      refl refl refl refl refl refl

bob-IsStranger : IsStranger account bob
unfolding get text_discrete is_domain
bob-IsStranger = record {
  valid = refl;
  not_domain = refl;
  no_room = refl;
  not_self = λ e. cc;
  roster = known;
  has_roster = refl;
  unknown = inr (_, refl, inr refl);
}

strangers_refused_example :
    (refused : Iq) × (handle_stanza kind_of prefix number [] silent
        (iq (request bob (ping ∷ [])))
        account
      ≡ (account, sent refused ∷ []))
    × (refused.kind ≡ error_iq)
    × (refused.id ≡ text "q1")
    × (refused.to ≡ bob)
    × (refused.from ≡ me)
    × Perm refused.payloads (error_payload subscription_required ∷ ping ∷ [])
strangers_refused_example =
    strangers_refused kind_of prefix number [] silent account (request bob (ping ∷ [])) refl
      bob-IsStranger

abbrev wipe : RosterQuery
wipe = record { ver = []; items = item (text "b@x") [] remove_item ∷ [] }

pushes_of_contacts_example :
    (handle_stanza kind_of prefix number [] silent
      (iq (request ann (ping ∷ roster_query wipe ∷ [])))
      account).0.roster
    ≡ some (handle_push wipe known).0
unfolding roster_payload get text_discrete
pushes_of_contacts_example =
    pushes_of_contacts kind_of prefix number [] silent account
      (request ann (ping ∷ roster_query wipe ∷ [])) wipe known _ (λ j d. refl) refl refl refl
      (λ e. cc) (λ e. cc) refl
