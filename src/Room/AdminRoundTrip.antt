-- ===== src/Room/AdminRoundTrip.antt =====
-- What the factory of the administration queries of a room writes it reads back.
use jreen.Base.{
  Bool, true, false, none, List, [], ◌∷◌, ◌++◌, Text, text, text_eq, text_discrete, Hash, get,
  append_assoc, append-nil, ◌≡◌, refl, ap, ◌∙◌, sym, arith,
}
use jreen.Prep.{Preps}
use jreen.Jid.{JidData, empty_jid}
use jreen.Jid.Attributes.{
  read_jid, jid_after, IsRead, get-valid_attribute_other, valid_attribute-read,
}
use jreen.Xml.{
  NsEvent, opened, closed, value, given, given_element, or_empty, get-given_other, value-given_self,
}
use jreen.Room.{
  Affiliation, affiliation_invalid, affiliation_unknown, Role, role_invalid, role_unknown, RoomItem,
  empty_item,
}
use jreen.Room.Items.{
  affiliation_of, role_of, AdminFactory, new_admin_factory, admin_event, feed_admin,
  affiliation_attribute, role_attribute, room_item_attributes, write_actor, write_room_items,
  serialize_admin, ns_admin,
}

abbrev pub affiliation_after : Affiliation → Affiliation
affiliation_after affiliation_invalid = affiliation_unknown
affiliation_after a = a

abbrev pub role_after : Role → Role
role_after role_invalid = role_unknown
role_after r = r

abbrev pub item_after : RoomItem → RoomItem
item_after i = record {
  affiliation = affiliation_after i.affiliation;
  role = role_after i.role;
  jid = jid_after i.jid;
  reason = i.reason;
  actor = jid_after i.actor;
  nick = i.nick;
}

abbrev pub items_after : List RoomItem → List RoomItem
items_after [] = []
items_after (i ∷ is) = item_after i ∷ items_after is

role_read : (r : Role) → role_of (value (text "role") (role_attribute r [])) ≡ role_after r
unfolding text_discrete get
role_read role_invalid = refl
role_read _ = refl

affiliation_read :
    (a : Affiliation) (r : Role)
    → affiliation_of (value (text "affiliation") (affiliation_attribute a (role_attribute r [])))
      ≡ affiliation_after a
unfolding text_discrete get
affiliation_read affiliation_invalid role_invalid = refl
affiliation_read affiliation_invalid _ = refl
affiliation_read _ r = refl

-- The attributes of an item hold nothing under another name.
get-affiliation_attribute_other :
    (k : Text) (a : Affiliation) (rest : Hash Text)
    → text_eq (text "affiliation") k ≡ false
    → get k (affiliation_attribute a rest) ≡ get k rest
unfolding get
get-affiliation_attribute_other k affiliation_invalid rest h = refl
get-affiliation_attribute_other k _ rest h = ground (arith, h)

get-role_attribute_other :
    (k : Text) (r : Role) → text_eq (text "role") k ≡ false → get k (role_attribute r []) ≡ none
unfolding get
get-role_attribute_other k role_invalid h = refl
get-role_attribute_other k _ h = ground (arith, h)

record Reads (p : Preps) (i : RoomItem) (attributes : Hash Text) : Type 0 where
  jid_right : read_jid p (text "jid") attributes ≡ jid_after i.jid
  nick_right : value (text "nick") attributes ≡ i.nick
  affiliation_right :
      affiliation_of (value (text "affiliation") attributes) ≡ affiliation_after i.affiliation
  role_right : role_of (value (text "role") attributes) ≡ role_after i.role

room_item_attributes-Reads :
    (p : Preps) (i : RoomItem) → IsRead p i.jid → Reads p i (room_item_attributes i)
unfolding room_item_attributes text_discrete
room_item_attributes-Reads p i h =
    let role = role_attribute i.role [] in
    let affiliation = affiliation_attribute i.affiliation role in
    let nick = given (text "nick") i.nick affiliation in
    let no_nick : get (text "nick") affiliation ≡ none =
      get-affiliation_attribute_other (text "nick") i.affiliation role refl
      ∙ get-role_attribute_other (text "nick") i.role refl in
    let no_jid : get (text "jid") nick ≡ none =
      get-given_other (text "jid") (text "nick") i.nick affiliation refl
      ∙ get-affiliation_attribute_other (text "jid") i.affiliation role refl
      ∙ get-role_attribute_other (text "jid") i.role refl in
    record {
      jid_right = valid_attribute-read p (text "jid") i.jid nick h no_jid;
      nick_right =
          ap or_empty (get-valid_attribute_other (text "nick") (text "jid") i.jid nick refl)
          ∙ value-given_self (text "nick") i.nick affiliation no_nick;
      affiliation_right =
          ap (λ z. affiliation_of (or_empty z))
            (get-valid_attribute_other (text "affiliation") (text "jid") i.jid nick refl
              ∙ get-given_other (text "affiliation") (text "nick") i.nick affiliation refl)
          ∙ affiliation_read i.affiliation i.role;
      role_right =
          ap (λ z. role_of (or_empty z))
            (get-valid_attribute_other (text "role") (text "jid") i.jid nick refl
              ∙ get-given_other (text "role") (text "nick") i.nick affiliation refl
              ∙ get-affiliation_attribute_other (text "role") i.affiliation role refl)
          ∙ role_read i.role;
    }

module _ (p : Preps) where
  -- The factory in a query between two items, after an item.
  abbrev between : RoomItem → List RoomItem → AdminFactory
  between last items = record {
    depth = 1;
    at_item = false;
    parser = record { depth = 0; at_reason = false; item = last };
    items = items;
  }

  abbrev in_item : RoomItem → List RoomItem → AdminFactory
  in_item i items = record {
    depth = 2;
    at_item = true;
    parser = record { depth = 1; at_reason = false; item = i };
    items = items;
  }

  start_item :
      (i last : RoomItem) (items : List RoomItem)
      → IsRead p i.jid
      → admin_event p (opened (text "item") ns_admin (room_item_attributes i)) (between last items)
        ≡ in_item (record (item_after i) { actor = empty_jid; reason = [] }) items
  unfolding admin_event text_discrete
  start_item i last items h =
      let r = room_item_attributes-Reads p i h in
      rw (r.jid_right, r.nick_right, r.affiliation_right, r.role_right) refl

  read_actor :
      (domain node resource bare full : Text) (valid : Bool) (i : RoomItem) (items : List RoomItem)
      (rest : List NsEvent)
      → let j : JidData = record {
        domain = domain;
        node = node;
        resource = resource;
        bare = bare;
        full = full;
        valid = valid;
      } in
        IsRead p j
        → feed_admin p (write_actor j rest) (in_item (record i { actor = empty_jid }) items)
          ≡ feed_admin p rest (in_item (record i { actor = jid_after j }) items)
  unfolding feed_admin admin_event text_discrete get
  read_actor domain node resource bare full true i items rest h =
      ap (λ (z : JidData). feed_admin p rest (in_item (record i { actor = z }) items)) (h refl)
  read_actor domain node resource bare full false i items rest h = refl

  read_reason :
      (s : Text) (i : RoomItem) (items : List RoomItem) (rest : List NsEvent)
      → feed_admin p
          (given_element (text "reason") ns_admin s (closed ∷ rest))
          (in_item (record i { reason = [] }) items)
        ≡ feed_admin p rest
            (between (record i { reason = s }) (items ++ record i { reason = s } ∷ []))
  unfolding feed_admin admin_event text_discrete
  read_reason [] i items rest = refl
  read_reason (c ∷ s) i items rest = refl

  abbrev pub AllRead : List RoomItem → Type 0
  AllRead [] = Unit {0}
  AllRead (i ∷ is) = IsRead p i.jid × IsRead p i.actor × AllRead is

  feed_admin-write_room_items :
      (is items : List RoomItem) (last : RoomItem)
      → AllRead is
      → (feed_admin p (write_room_items is (closed ∷ [])) (between last items)).items
        ≡ items ++ items_after is
  unfolding feed_admin admin_event write_room_items
  feed_admin-write_room_items [] items last h = sym (append-nil items)
  feed_admin-write_room_items (i ∷ is) items last h =
      let others = write_room_items is (closed ∷ []) in
      let reason = given_element (text "reason") ns_admin i.reason (closed ∷ others) in
      let read = item_after i in
      ap (λ z. (feed_admin p (write_actor i.actor reason) z).items) (start_item i last items h.0)
      ∙ ap (λ z. z.items)
          (read_actor i.actor.domain i.actor.node i.actor.resource i.actor.bare i.actor.full
              i.actor.valid (record read { reason = [] }) items reason h.1
            ∙ read_reason i.reason read items others)
      ∙ feed_admin-write_room_items is (items ++ read ∷ []) read h.2
      ∙ append_assoc items (read ∷ []) (items_after is)

  -- The items of an administration query that is written and read are the same, but that a JID that
  -- is not valid is read as the empty one and an invalid affiliation or role as an unknown one,
  -- where the JIDs that are valid read as themselves.
  pub items-serialize_admin :
      (is : List RoomItem)
      → AllRead is
      → (feed_admin p (serialize_admin is) new_admin_factory).items ≡ items_after is
  unfolding feed_admin admin_event serialize_admin
  items-serialize_admin is h = feed_admin-write_room_items is [] empty_item h
