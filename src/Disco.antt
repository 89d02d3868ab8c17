-- ===== src/Disco.antt =====
-- src/disco.cpp and src/disco.h: service discovery. Here are the items with the actions that they
-- remember, the answers to queries and the replies to requests. An item is shared copy on write, so
-- an operation that changes it is a function to the item after it.
pub mod Factories
pub mod Memory
pub mod RoundTrip
pub mod ItemsRoundTrip
use jreen.Base.{
  ℕ, Bool, true, false, not, ◌&&◌, ◌||◌, Option, none, some, List, [], ◌∷◌, ◌++◌, if◌then◌else◌,
  Text, text, text_eq, is_empty, map,
}
use jreen.Jid.{JidData}
use jreen.Stanza.{IqType, get_iq}
use jreen.Form.{Field, DataForm, hidden, no_type, result}
use jreen.Form.Fields.{new_field, hidden_field, append_field, holds}

pub record Identity : Type 0 where
  pub category : Text
  pub type_name : Text
  pub name : Text
  pub lang : Text

pub record Info : Type 0 where
  pub node : Text
  pub identities : List Identity
  pub features : List Text
  pub form : Option DataForm

-- `Item::Actions`, a flag each
pub record Actions : Type 0 where
  pub execute : Bool
  pub register : Bool
  pub join : Bool
  pub search : Bool
  pub add : Bool
  pub vcard : Bool
  pub proxy : Bool
  pub expand : Bool

-- `ItemData`; no actions are `ActionsNotInitialized`.
pub record Item : Type 0 where
  pub jid : JidData
  pub node : Text
  pub name : Text
  pub features : List Text
  pub identities : List Identity
  pub form : Option DataForm
  pub actions : Option Actions

pub record Items : Type 0 where
  pub node : Text
  pub items : List Item

-- `Item(jid, node, name)`
abbrev pub new_item : JidData → Text → Text → Item
new_item jid node name = record {
  jid = jid;
  node = node;
  name = name;
  features = [];
  identities = [];
  form = none;
  actions = none;
}

unfoldable pub set_jid : JidData → Item → Item
set_jid j i = record i { jid = j }

unfoldable pub set_node : Text → Item → Item
set_node s i = record i { node = s }

unfoldable pub set_name : Text → Item → Item
set_name s i = record i { name = s }

unfoldable pub add_identity : Identity → Item → Item
add_identity d i = record i { identities = i.identities ++ d ∷ []; actions = none }

unfoldable pub set_identities : List Identity → Item → Item
set_identities ds i = record i { identities = ds; actions = none }

unfoldable pub set_features : List Text → Item → Item
set_features fs i = record i { features = fs; actions = none }

unfoldable pub set_form : Option DataForm → Item → Item
set_form f i = record i { form = f }

-- `hasIdentity`; an empty category or type matches any.
abbrev pub any_identity : Text → Text → List Identity → Bool
any_identity category t [] = false
any_identity category t (d ∷ ds) =
    (is_empty category || text_eq d.category category) && (is_empty t || text_eq d.type_name t)
    || any_identity category t ds

unfoldable pub has_identity : Text → Text → Item → Bool
has_identity category t i = any_identity category t i.identities

-- The actions that `Item::actions` computes when none are remembered.
unfoldable pub computed_actions : Item → Actions
unfolding has_identity holds
computed_actions i =
    let irc = has_identity (text "conference") (text "irc") i in
    let muc = holds (text "http://jabber.org/protocol/muc") i.features in
    let automation = has_identity (text "automation") [] i in
    let commands = holds (text "http://jabber.org/protocol/commands") i.features in
    let expandable =
      holds (text "http://jabber.org/protocol/disco#items") i.features
      || muc && not irc
      || is_empty i.features && is_empty i.identities in
    record {
      execute = automation || commands;
      register =
          holds (text "http://jabber.org/protocol/muc#register") i.features
          || holds (text "jabber:iq:register") i.features;
      join = muc && (not (is_empty i.jid.node) || irc);
      search = holds (text "jabber:iq:search") i.features;
      add = true;
      vcard = holds (text "vcard-temp") i.features;
      proxy = holds (text "http://jabber.org/protocol/bytestreams") i.features;
      expand =
          expandable || (if automation then has_identity [] (text "command-list") i else commands);
    }

-- `Item::actions`, with the item after it
abbrev pub remembered : Option Actions → Actions → Actions
remembered none a = a
remembered (some b) a = b

unfoldable pub actions : Item → Actions × Item
unfolding computed_actions
actions i = let a = remembered i.actions (computed_actions i) in (a, record i { actions = some a })

-- `DiscoPrivate`
pub record Disco : Type 0 where
  pub identities : List Identity
  pub features : List Text
  pub form : Option DataForm
  pub os : Text
  pub software_name : Text
  pub software_version : Text

-- What the queries of an IQ are, as far as discovery looks at them, and what it sends.
pub data Payload : Type 0 where
  info : Info → Payload
  items : Items → Payload
  version : Text → Text → Text → Payload

pub record DiscoIq : Type 0 where
  pub kind : IqType
  pub from : JidData
  pub id : Text
  pub info_query : Option Info
  pub items_query : Option Items
  pub version_query : Bool
  pub error : Option Text

pub data Action : Type 0 where
  requested : JidData → Payload → Action
  answered : JidData → Text → List Payload → Action
  error_received : Text → Action
  info_received : Item → Action
  items_received : List Item → Action
  finished : Action

abbrev pub no_info : Text → Info
no_info node = record { node = node; identities = []; features = []; form = none }

unfoldable pub request_info : Item → List Action
request_info i = requested i.jid (info (no_info i.node)) ∷ []

unfoldable pub request_items : Item → List Action
request_items i = requested i.jid (items (record { node = i.node; items = [] })) ∷ []

unfoldable pub add_own_identity : Identity → Disco → Disco
add_own_identity d s = record s { identities = s.identities ++ d ∷ [] }

-- `QSet::insert`, as `QHash` without an order of its own
abbrev pub add_text : Text → List Text → List Text
add_text s ts = if holds s ts then ts else ts ++ s ∷ []

unfoldable pub add_feature : Text → Disco → Disco
add_feature s d = record d { features = add_text s d.features }

abbrev pub is_get : IqType → Bool
is_get get_iq = true
is_get _ = false

abbrev pub answer_info : Disco → Option Info → List Payload
answer_info d none = []
answer_info d (some q) =
    info (record { node = q.node; identities = d.identities; features = d.features; form = d.form })
    ∷ []

abbrev pub answer_items : Option Items → List Payload
answer_items none = []
answer_items (some q) = items (record { node = q.node; items = [] }) ∷ []

abbrev pub answer_version : Disco → Bool → List Payload
answer_version d true = version d.software_name d.software_version d.os ∷ []
answer_version d false = []

-- `DiscoPrivate::_q_received`: whether it accepts the IQ, and what it sends.
unfoldable pub received : Disco → DiscoIq → Bool × List Action
received d i =
    let payloads =
      answer_info d i.info_query
      ++ answer_items i.items_query
      ++ answer_version d i.version_query in
    if not (is_get i.kind) || is_empty payloads
    then (false, [])
    else (true, answered i.from i.id payloads ∷ [])

-- `DataFormFieldNone(var, values)`
abbrev pub plain_field : Text → List Text → Field
plain_field var values = record (new_field no_type var []) { values = values }

abbrev pub os_version_field : Text → List Field
os_version_field [] = []
os_version_field (c ∷ s) = plain_field (text "os_version") ((c ∷ s) ∷ []) ∷ []

unfoldable pub set_software_version : Text → Text → Text → Text → Disco → Disco
set_software_version name number os os_version d = record d {
  software_name = name;
  software_version = number;
  os = os;
  form = some (record {
    kind = result;
    title = [];
    instructions = [];
    fields =
        hidden_field (text "FORM_TYPE") (text "urn:xmpp:dataforms:softwareinfo")
          ∷ plain_field (text "ip_version") (text "ipv4" ∷ text "ipv6" ∷ [])
          ∷ plain_field (text "os") (os ∷ [])
          ∷ os_version_field os_version
        ++ plain_field (text "software") (name ∷ [])
          ∷ plain_field (text "software_version") (number ∷ [])
          ∷ [];
  });
}

-- `DiscoReplyPrivate`
pub record Reply : Type 0 where
  pub item : Item
  pub subitems : List Item
  pub error : Option Text

-- `full_jid` is the JID that `from().full()` reads as.
unfoldable pub found : Info → JidData → Item → Item
unfolding set_jid set_node set_features set_identities set_form
found q full_jid i =
    set_form q.form
      (set_identities q.identities (set_features q.features (set_node q.node (set_jid full_jid i))))

abbrev pub reply_items : Option Items → Reply → Reply × List Action
reply_items none r = (r, [])
reply_items (some q) r = (record r { subitems = q.items }, items_received q.items ∷ [])

abbrev pub reply_payload : JidData → Option Info → Option Items → Reply → Reply × List Action
unfolding found
reply_payload full_jid none q r = reply_items q r
reply_payload full_jid (some i) q r =
    (record r { item = found i full_jid r.item }, info_received (found i full_jid r.item) ∷ [])

abbrev pub reply_error :
    Option Text → JidData → Option Info → Option Items → Reply → Reply × List Action
reply_error (some e) full_jid i q r = (record r { error = some e }, error_received e ∷ [])
reply_error none full_jid i q r = reply_payload full_jid i q r

unfoldable pub reply_received : JidData → DiscoIq → Reply → Reply × List Action
reply_received full_jid i r =
    let (s, told) = reply_error i.error full_jid i.info_query i.items_query r in
    (s, told ++ finished ∷ [])
