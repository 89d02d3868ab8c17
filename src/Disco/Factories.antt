-- ===== src/Disco/Factories.antt =====
-- src/disco.cpp: discovery as XML. The form of an info is read and written by a data form factory.
-- The constructor of the items factory does not set its depth.
use jreen.Base.{
  ℕ, ◌+◌, ◌-◌, Bool, true, false, ◌&&◌, Option, none, some, List, [], ◌∷◌, ◌++◌, if◌then◌else◌,
  ◌==◌, Text, text, text_eq, Hash,
}
use jreen.Prep.{Preps}
use jreen.Jid
use jreen.Jid.{empty_jid}
use jreen.Xml.{NsEvent, opened, text_read, closed, value, given}
use jreen.Form.{DataForm, ns_dataform}
use jreen.Form.Payload.{create_payload}
use jreen.Form.Payload
use jreen.Form.Writing
use jreen.Disco.{Identity, Info, Item, Items, new_item, add_text}

abbrev pub ns_info : Text
ns_info = text "http://jabber.org/protocol/disco#info"

abbrev pub ns_items : Text
ns_items = text "http://jabber.org/protocol/disco#items"

pub data State : Type 0 where
  at_start at_info at_data_form : State

pub record InfoFactory : Type 0 where
  pub depth : ℕ
  pub state : State
  pub node : Text
  pub identities : List Identity
  pub features : List Text
  pub factory : Payload.Factory
  pub has_form : Bool

abbrev pub new_info_factory : Payload.Factory → InfoFactory
new_info_factory f = record {
  depth = 0;
  state = at_start;
  node = [];
  identities = [];
  features = [];
  factory = f;
  has_form = false;
}

abbrev pub read_identity : Hash Text → Identity
read_identity attributes = record {
  category = value (text "category") attributes;
  type_name = value (text "type") attributes;
  name = value (text "name") attributes;
  lang = value (text "xml:lang") attributes;
}

abbrev pub in_form : State → Bool
in_form at_data_form = true
in_form _ = false

-- The child of depth 2.
abbrev pub info_child : Text → Text → Hash Text → InfoFactory → InfoFactory
info_child name uri attributes f =
    if text_eq name (text "identity")
    then record f { identities = f.identities ++ read_identity attributes ∷ [] }
    else if text_eq name (text "feature")
    then record f { features = add_text (value (text "var") attributes) f.features }
    else if text_eq name (text "x") && text_eq uri ns_dataform
    then record f { has_form = true; state = at_data_form }
    else f

abbrev pub pass_form : NsEvent → InfoFactory → InfoFactory
pass_form e f =
    if in_form f.state then record f { factory = Payload.handle_event e f.factory } else f

-- `DiscoInfoFactory::handleStartElement`
unfoldable pub info_start : Text → Text → Hash Text → InfoFactory → InfoFactory
info_start name uri attributes f =
    let depth = f.depth + 1 in
    let g =
      if depth == 1
      then record {
        depth = depth;
        state = at_info;
        node = value (text "node") attributes;
        identities = [];
        features = [];
        factory = f.factory;
        has_form = false;
      }
      else if depth == 2
      then info_child name uri attributes (record f { depth = depth })
      else record f { depth = depth } in
    pass_form (opened name uri attributes) g

-- `handleEndElement`
unfoldable pub info_end : InfoFactory → InfoFactory
info_end f =
    let g = pass_form closed f in
    if f.depth == 2 && in_form f.state
    then record g { depth = f.depth - 1; state = at_info }
    else if f.depth == 1
    then record g { depth = f.depth - 1; state = at_start }
    else record g { depth = f.depth - 1 }

unfoldable pub info_event : NsEvent → InfoFactory → InfoFactory
unfolding info_start info_end
info_event (opened name uri attributes) f = info_start name uri attributes f
info_event (text_read s) f = pass_form (text_read s) f
info_event closed f = info_end f

unfoldable pub feed_info : List NsEvent → InfoFactory → InfoFactory
unfolding info_event
feed_info [] f = f
feed_info (e ∷ es) f = feed_info es (info_event e f)

-- `createPayload`
unfoldable pub create_info : InfoFactory → Info × InfoFactory
unfolding create_payload
create_info f =
    let (form, factory) = create_payload f.factory in
    if f.has_form
    then (
      record { node = f.node; identities = f.identities; features = f.features; form = some form },
      record f { factory = factory },
    )
    else (
      record { node = f.node; identities = f.identities; features = f.features; form = none },
      f,
    )

abbrev pub identity_attributes : Identity → Hash Text
identity_attributes d =
    (text "category", d.category)
    ∷ (text "type", d.type_name)
    ∷ (text "name", d.name)
    ∷ given (text "xml:lang") d.lang []

unfoldable pub write_identities : List Identity → List NsEvent → List NsEvent
write_identities [] rest = rest
write_identities (d ∷ ds) rest =
    opened (text "identity") ns_info (identity_attributes d) ∷ closed ∷ write_identities ds rest

unfoldable pub write_features : List Text → List NsEvent → List NsEvent
write_features [] rest = rest
write_features (s ∷ ss) rest =
    opened (text "feature") ns_info ((text "var", s) ∷ []) ∷ closed ∷ write_features ss rest

unfoldable pub write_form : Option DataForm → List NsEvent
unfolding Writing.serialize
write_form none = []
write_form (some d) = Writing.serialize d

-- `DiscoInfoFactory::serialize`
unfoldable pub serialize_info : Info → List NsEvent
unfolding write_identities write_features write_form
serialize_info i =
    opened (text "query") ns_info (given (text "node") i.node [])
    ∷ write_identities i.identities (write_features i.features (write_form i.form ++ closed ∷ []))

pub record ItemsFactory : Type 0 where
  pub depth : ℕ
  pub node : Text
  pub items : List Item

abbrev pub new_items_factory : ℕ → ItemsFactory
new_items_factory stray_depth = record { depth = stray_depth; node = []; items = [] }

module _ (p : Preps) where
  abbrev pub read_item : Hash Text → Item
  read_item attributes =
      new_item (Jid.set_jid p empty_jid (value (text "jid") attributes)).1
        (value (text "node") attributes) (value (text "name") attributes)

  -- `DiscoItemsFactory::handleStartElement`
  unfoldable pub items_start : Hash Text → ItemsFactory → ItemsFactory
  items_start attributes f =
      let depth = f.depth + 1 in
      if depth == 1
      then record { depth = depth; node = value (text "node") attributes; items = [] }
      else if depth == 2
      then record f { depth = depth; items = f.items ++ read_item attributes ∷ [] }
      else record f { depth = depth }

  unfoldable pub items_event : NsEvent → ItemsFactory → ItemsFactory
  unfolding items_start
  items_event (opened name uri attributes) f = items_start attributes f
  items_event (text_read s) f = f
  items_event closed f = record f { depth = f.depth - 1 }

  unfoldable pub feed_items : List NsEvent → ItemsFactory → ItemsFactory
  unfolding items_event
  feed_items [] f = f
  feed_items (e ∷ es) f = feed_items es (items_event e f)

unfoldable pub create_items : ItemsFactory → Items
create_items f = record { node = f.node; items = f.items }

abbrev pub item_attributes : Item → Hash Text
item_attributes i =
    (text "jid", i.jid.full) ∷ given (text "node") i.node ((text "name", i.name) ∷ [])

unfoldable pub write_items : List Item → List NsEvent → List NsEvent
write_items [] rest = rest
write_items (i ∷ is) rest =
    opened (text "item") ns_items (item_attributes i) ∷ closed ∷ write_items is rest

unfoldable pub serialize_items : Items → List NsEvent
unfolding write_items
serialize_items q =
    opened (text "query") ns_items (given (text "node") q.node [])
    ∷ write_items q.items (closed ∷ [])
