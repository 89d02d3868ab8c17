-- ===== src/Tests/DiscoTests.antt =====
-- Runs of service discovery.
use jreen.Base.{true, false, [], ◌∷◌, ◌≡◌, refl, none, some, Text, text, text_discrete}
use jreen.Jid.{JidData}
use jreen.Stanza.{result_iq}
use jreen.Form.{result}
use jreen.Form.Fields.{holds, hidden_field}
use jreen.Form.Payload.{nowhere, new_factory}
use jreen.Disco.{
  Identity, Info, Item, Items, DiscoIq, Reply, new_item, actions, computed_actions, reply_received,
}
use jreen.Disco.Factories.{new_info_factory, feed_info, create_info, serialize_info}
use jreen.Disco.RoundTrip.{info_after, create_info-serialize_info}
use jreen.Disco.Memory.{
  features_set, node_set, actions_asked, changes, actions-changes, actions-reply_received,
}

abbrev muc : Text
muc = text "http://jabber.org/protocol/muc"

abbrev conference : Identity
conference = record { category = text "conference"; type_name = text "text"; name = []; lang = [] }

abbrev found_info : Info
found_info = record {
  node = text "n";
  identities = conference ∷ record conference { lang = text "en" } ∷ [];
  features = muc ∷ text "vcard-temp" ∷ [];
  form = some (record {
    kind = result;
    title = [];
    instructions = [];
    fields = hidden_field (text "FORM_TYPE") (text "t") ∷ [];
  });
}

create_info-serialize_info_example :
    (create_info
      (feed_info (serialize_info found_info) (new_info_factory (new_factory nowhere false)))).0
    ≡ info_after found_info
unfolding holds text_discrete
create_info-serialize_info_example =
    create_info-serialize_info nowhere found_info refl (refl, (refl, tt))

abbrev service : JidData
service = record {
  domain = text "c.org";
  node = [];
  resource = [];
  bare = text "c.org";
  full = text "c.org";
  valid = true;
}

abbrev room_jid : JidData
room_jid = record service { node = text "r"; bare = text "r@c.org"; full = text "r@c.org" }

abbrev room_item : Item
room_item = record (new_item service [] (text "Room")) { features = muc ∷ [] }

abbrev rooms : Items
rooms = record { node = []; items = room_item ∷ [] }

actions-changes_example :
    let cs = actions_asked ∷ node_set (text "n") ∷ features_set [] ∷ actions_asked ∷ [] in
    (actions (changes cs room_item)).0 ≡ computed_actions (changes cs room_item)
actions-changes_example =
    actions-changes (actions_asked ∷ node_set (text "n") ∷ features_set [] ∷ actions_asked ∷ [])
      room_item refl

abbrev answer : DiscoIq
answer = record {
  kind = result_iq;
  from = room_jid;
  id = text "1";
  info_query = some found_info;
  items_query = none;
  version_query = false;
  error = none;
}

abbrev asked : Reply
asked = record { item = room_item; subitems = []; error = none }

actions-reply_received_example :
    (actions (reply_received room_jid answer asked).0.item).0
    ≡ computed_actions (record {
      jid = room_jid;
      node = found_info.node;
      name = text "Room";
      features = found_info.features;
      identities = found_info.identities;
      form = found_info.form;
      actions = none;
    })
actions-reply_received_example = actions-reply_received room_jid answer found_info asked refl refl
