-- ===== src/Roster/Query.antt =====
-- `AbstractRosterQueryFactory` of src/abstractroster.cpp: the roster query as XML. The depth is
-- never negative, since each end element has its start element.
pub mod RoundTrip
use jreen.Base.{
  ℕ, zero, suc, ◌+◌, ◌-◌, Bool, true, false, ◌&&◌, List, [], ◌∷◌, ◌++◌, if◌then◌else◌, ◌==◌, Text,
  text, text_eq, is_empty, Hash,
}
use jreen.Xml.{Event, start_element, characters, end_element, value}
use jreen.Prep.{Preps}
use jreen.Jid.{set_jid, empty_jid}
use jreen.Roster.{
  Subscription, from, to, both, remove_item, none_given, invalid, RosterItem, RosterQuery,
}

-- `strToEnum` over `subscription_types`
unfoldable pub subscription_of : Text → Subscription
subscription_of s =
    if text_eq (text "from") s
    then from
    else if text_eq (text "to") s
    then to
    else if text_eq (text "both") s
    then both
    else if text_eq (text "remove") s
    then remove_item
    else if text_eq (text "none") s
    then none_given
    else invalid

-- `enumToStr`
unfoldable pub text_of : Subscription → Text
text_of from = text "from"
text_of to = text "to"
text_of both = text "both"
text_of remove_item = text "remove"
text_of none_given = text "none"
text_of invalid = []

pub data State : Type 0 where
  at_start at_query at_item at_group : State

pub record Factory : Type 0 where
  pub depth : ℕ
  pub state : State
  pub groups : List Text
  pub name : Text
  pub jid : Text
  pub ask : Text
  pub subscription : Subscription
  pub ver : Text
  pub items : List RosterItem

abbrev pub initial : Factory
initial = record {
  depth = 0;
  state = at_start;
  groups = [];
  name = [];
  jid = [];
  ask = [];
  subscription = invalid;
  ver = [];
  items = [];
}

abbrev is_item : State → Bool
is_item at_item = true
is_item _ = false

abbrev is_group : State → Bool
is_group at_group = true
is_group _ = false

module _ (p : Preps) where
  -- `JID(jid).bare()`
  unfoldable pub bare_text : Text → Text
  bare_text s = (set_jid p empty_jid s).1.bare

  unfoldable pub handle_start : Text → Hash Text → Factory → Factory
  handle_start name attributes f =
      let depth = f.depth + 1 in
      if depth == 1
      then record f {
        depth = depth;
        items = [];
        ver = value (text "ver") attributes;
        state = at_query;
      }
      else if depth == 2 && text_eq name (text "item")
      then record f {
        depth = depth;
        state = at_item;
        jid = bare_text (value (text "jid") attributes);
        name = value (text "name") attributes;
        ask = value (text "ask") attributes;
        subscription = subscription_of (value (text "subscription") attributes);
        groups = [];
      }
      else if depth == 3 && is_item f.state && text_eq name (text "group")
      then record f { depth = depth; state = at_group }
      else record f { depth = depth }

  abbrev pub item_of : Factory → RosterItem
  item_of f = record {
    jid = f.jid;
    name = f.name;
    groups = f.groups;
    subscription = f.subscription;
    ask = f.ask;
  }

  unfoldable pub handle_end : Factory → Factory
  handle_end f =
      let depth = f.depth - 1 in
      if f.depth == 1
      then record f { depth = depth; state = at_start }
      else if f.depth == 2
      then record f { depth = depth; state = at_query; items = f.items ++ item_of f ∷ [] }
      else if f.depth == 3 && is_group f.state
      then record f { depth = depth; state = at_item }
      else record f { depth = depth }

  unfoldable pub handle_characters : Text → Factory → Factory
  handle_characters s f =
      if f.depth == 3 && is_group f.state then record f { groups = f.groups ++ s ∷ [] } else f

  unfoldable pub handle_event : Event → Factory → Factory
  unfolding handle_start handle_end handle_characters
  handle_event (start_element name attributes) f = handle_start name attributes f
  handle_event (characters s) f = handle_characters s f
  handle_event end_element f = handle_end f

  unfoldable pub feed : List Event → Factory → Factory
  feed [] f = f
  feed (e ∷ es) f = feed es (handle_event e f)

-- `createPayload`
abbrev pub create_payload : Factory → RosterQuery
create_payload f = record { ver = f.ver; items = f.items }

-- `writeAttribute` of src/util.h leaves out what is empty; the writer's own does not.
abbrev write_attribute : Text → Text → Hash Text → Hash Text
write_attribute name v rest = if is_empty v then rest else (name, v) ∷ rest

-- `writeTextElement`; a reader reports no text for an empty one.
abbrev pub text_element : Text → Text → List Event → List Event
text_element name [] rest = start_element name [] ∷ end_element ∷ rest
text_element name (c ∷ s) rest = start_element name [] ∷ characters (c ∷ s) ∷ end_element ∷ rest

unfoldable pub write_groups : List Text → List Event → List Event
write_groups [] rest = rest
write_groups (g ∷ gs) rest = text_element (text "group") g (write_groups gs rest)

unfoldable pub item_attributes : RosterItem → Hash Text
unfolding text_of
item_attributes i = write_attribute (text "name") i.name (
    (text "jid", i.jid)
    ∷ (text "ask", i.ask)
    ∷ write_attribute (text "subscription") (text_of i.subscription) [])

unfoldable pub write_items : List RosterItem → List Event → List Event
write_items [] rest = rest
write_items (i ∷ is) rest =
    start_element (text "item") (item_attributes i)
    ∷ write_groups i.groups (end_element ∷ write_items is rest)

unfoldable pub serialize : RosterQuery → List Event
serialize q =
    start_element (text "query") (if is_empty q.items then (text "ver", q.ver) ∷ [] else [])
    ∷ write_items q.items (end_element ∷ [])
