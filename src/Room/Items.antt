-- ===== src/Room/Items.antt =====
-- src/mucroomfactory.cpp: the items of a room and the query of its administration as XML.
use jreen.Base.{
  ℕ, ◌+◌, ◌-◌, Bool, true, false, ◌&&◌, List, [], ◌∷◌, ◌++◌, if◌then◌else◌, ◌==◌, Text, text,
  text_eq, Hash,
}
use jreen.Prep.{Preps}
use jreen.Jid.{JidData}
use jreen.Jid.Attributes.{read_jid, valid_attribute}
use jreen.Xml.{NsEvent, opened, text_read, closed, value, given, given_element}
use jreen.Room.{
  Affiliation, affiliation_none, outcast, member, owner, admin, affiliation_invalid,
  affiliation_unknown, Role, role_none, visitor, participant, moderator, role_invalid, role_unknown,
  RoomItem, empty_item,
}

-- `enumToStr` and `strToEnum` with `mucroom_affiliations` and `mucroom_roles`
abbrev pub affiliation_text : Affiliation → Text
affiliation_text affiliation_none = text "none"
affiliation_text outcast = text "outcast"
affiliation_text member = text "member"
affiliation_text owner = text "owner"
affiliation_text admin = text "admin"
affiliation_text _ = []

abbrev pub affiliation_of : Text → Affiliation
affiliation_of s =
    if text_eq (text "none") s
    then affiliation_none
    else if text_eq (text "outcast") s
    then outcast
    else if text_eq (text "member") s
    then member
    else if text_eq (text "owner") s
    then owner
    else if text_eq (text "admin") s
    then admin
    else affiliation_unknown

abbrev pub role_text : Role → Text
role_text role_none = text "none"
role_text visitor = text "visitor"
role_text participant = text "participant"
role_text moderator = text "moderator"
role_text _ = []

abbrev pub role_of : Text → Role
role_of s =
    if text_eq (text "none") s
    then role_none
    else if text_eq (text "visitor") s
    then visitor
    else if text_eq (text "participant") s
    then participant
    else if text_eq (text "moderator") s
    then moderator
    else role_unknown

-- `MUCRoomItemFactory`
pub record ItemParser : Type 0 where
  pub depth : ℕ
  pub at_reason : Bool
  pub item : RoomItem

abbrev pub new_item_parser : ItemParser
new_item_parser = record { depth = 0; at_reason = false; item = empty_item }

module _ (p : Preps) where
  unfoldable pub item_start : Text → Hash Text → ItemParser → ItemParser
  item_start name attributes i =
      let depth = i.depth + 1 in
      if depth == 1
      then record i {
        depth = depth;
        item = record empty_item {
          jid = read_jid p (text "jid") attributes;
          nick = value (text "nick") attributes;
          affiliation = affiliation_of (value (text "affiliation") attributes);
          role = role_of (value (text "role") attributes);
        };
      }
      else if depth == 2 && text_eq name (text "actor")
      then record i {
        depth = depth;
        item = record i.item { actor = read_jid p (text "jid") attributes };
      }
      else if depth == 2 && text_eq name (text "reason")
      then record i { depth = depth; at_reason = true }
      else record i { depth = depth }

unfoldable pub item_end : ItemParser → ItemParser
item_end i =
    if i.depth == 2
    then record i { depth = i.depth - 1; at_reason = false }
    else record i { depth = i.depth - 1 }

unfoldable pub item_text : Text → ItemParser → ItemParser
item_text s i = if i.at_reason then record i { item = record i.item { reason = s } } else i

-- `MUCRoomAdminQueryFactory`; the query is its items.
pub record AdminFactory : Type 0 where
  pub depth : ℕ
  pub at_item : Bool
  pub parser : ItemParser
  pub items : List RoomItem

abbrev pub new_admin_factory : AdminFactory
new_admin_factory = record { depth = 0; at_item = false; parser = new_item_parser; items = [] }

module _ (p : Preps) where
  abbrev pub pass_item : Text → Hash Text → AdminFactory → AdminFactory
  pass_item name attributes f =
      if f.at_item then record f { parser = item_start p name attributes f.parser } else f

  unfoldable pub admin_start : Text → Hash Text → AdminFactory → AdminFactory
  unfolding item_start
  admin_start name attributes f =
      let depth = f.depth + 1 in
      if depth == 1
      then pass_item name attributes (record f { depth = depth; items = [] })
      else if depth == 2 && text_eq name (text "item")
      then pass_item name attributes (record f { depth = depth; at_item = true })
      else pass_item name attributes (record f { depth = depth })

  unfoldable pub admin_end : AdminFactory → AdminFactory
  unfolding item_end
  admin_end f =
      if f.at_item
      then (let i = item_end f.parser in
          if f.depth == 2
          then record {
            depth = f.depth - 1;
            at_item = false;
            parser = i;
            items = f.items ++ i.item ∷ [];
          }
          else record f { depth = f.depth - 1; parser = i })
      else record f { depth = f.depth - 1 }

  unfoldable pub admin_text : Text → AdminFactory → AdminFactory
  unfolding item_text
  admin_text s f = if f.at_item then record f { parser = item_text s f.parser } else f

  unfoldable pub admin_event : NsEvent → AdminFactory → AdminFactory
  unfolding admin_start admin_end admin_text
  admin_event (opened name uri attributes) f = admin_start name attributes f
  admin_event (text_read s) f = admin_text s f
  admin_event closed f = admin_end f

  unfoldable pub feed_admin : List NsEvent → AdminFactory → AdminFactory
  unfolding admin_event
  feed_admin [] f = f
  feed_admin (e ∷ es) f = feed_admin es (admin_event e f)

abbrev pub ns_admin : Text
ns_admin = text "http://jabber.org/protocol/muc#admin"

abbrev pub affiliation_attribute : Affiliation → Hash Text → Hash Text
affiliation_attribute affiliation_invalid rest = rest
affiliation_attribute a rest = (text "affiliation", affiliation_text a) ∷ rest

abbrev pub role_attribute : Role → Hash Text → Hash Text
role_attribute role_invalid rest = rest
role_attribute r rest = (text "role", role_text r) ∷ rest

unfoldable pub room_item_attributes : RoomItem → Hash Text
room_item_attributes i =
    valid_attribute (text "jid") i.jid
      (given (text "nick") i.nick (affiliation_attribute i.affiliation (role_attribute i.role [])))

abbrev pub write_actor : JidData → List NsEvent → List NsEvent
write_actor j rest =
    if j.valid
    then opened (text "actor") ns_admin ((text "jid", j.full) ∷ []) ∷ closed ∷ rest
    else rest

-- `MUCRoomItemFactory::serialize`, for each item
unfoldable pub write_room_items : List RoomItem → List NsEvent → List NsEvent
unfolding room_item_attributes
write_room_items [] rest = rest
write_room_items (i ∷ is) rest =
    opened (text "item") ns_admin (room_item_attributes i)
    ∷ write_actor i.actor
        (given_element (text "reason") ns_admin i.reason (closed ∷ write_room_items is rest))

-- `MUCRoomAdminQueryFactory::serialize`
unfoldable pub serialize_admin : List RoomItem → List NsEvent
unfolding write_room_items
serialize_admin is = opened (text "query") ns_admin [] ∷ write_room_items is (closed ∷ [])
