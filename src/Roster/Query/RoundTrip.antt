-- ===== src/Roster/Query/RoundTrip.antt =====
-- What the roster query factory writes it reads back.
use jreen.Base.{
  List, [], ◌∷◌, ◌++◌, if◌then◌else◌, Text, text, text_discrete, is_empty, Hash, get, append_assoc,
  append-nil, ◌≡◌, ◌≢◌, refl, ap, ◌∙◌, sym,
}
use jreen.Xml.{Event, start_element, end_element, value}
use jreen.Prep.{Preps}
use jreen.Roster.{Subscription, from, invalid, RosterItem, RosterQuery}
use jreen.Roster.Query.{
  Factory, State, at_query, at_item, initial, bare_text, handle_event, feed, create_payload,
  serialize, write_items, write_groups, item_attributes, subscription_of,
}

-- An item that the factory could have read: its JID is a bare one, and no group has no name.
abbrev pub Named : List Text → Type 0
Named [] = Unit {0}
Named (g ∷ gs) = (g ≢ []) × Named gs

-- What the written attributes of an item read as.
record Reads (i : RosterItem) (attributes : Hash Text) : Type 0 where
  jid_right : value (text "jid") attributes ≡ i.jid
  name_right : value (text "name") attributes ≡ i.name
  ask_right : value (text "ask") attributes ≡ i.ask
  subscription_right : subscription_of (value (text "subscription") attributes) ≡ i.subscription

all_read :
    {i : RosterItem} {attributes : Hash Text}
    → value (text "jid") attributes ≡ i.jid
    → value (text "name") attributes ≡ i.name
    → value (text "ask") attributes ≡ i.ask
    → subscription_of (value (text "subscription") attributes) ≡ i.subscription
    → Reads i attributes
all_read a b c d = record { jid_right = a; name_right = b; ask_right = c; subscription_right = d }

item_attributes-Reads :
    (name jid ask : Text) (groups : List Text) (s : Subscription)
    → let i : RosterItem = record {
      jid = jid;
      name = name;
      groups = groups;
      subscription = s;
      ask = ask;
    } in
      Reads i (item_attributes i)
unfolding subscription_of item_attributes text_discrete get
item_attributes-Reads [] jid ask groups from = all_read refl refl refl refl
item_attributes-Reads [] jid ask groups _ = all_read refl refl refl refl
item_attributes-Reads (c ∷ name) jid ask groups from = all_read refl refl refl refl
item_attributes-Reads (c ∷ name) jid ask groups _ = all_read refl refl refl refl

abbrev with_items : Text → List RosterItem → RosterQuery
with_items ver items = record { ver = ver; items = items }

module _ (p : Preps) where
  abbrev pub Readable : List RosterItem → Type 0
  Readable [] = Unit {0}
  Readable (i ∷ is) = (bare_text p i.jid ≡ i.jid) × Named i.groups × Readable is

  abbrev in_item : List Text → RosterItem → Text → List RosterItem → Factory
  in_item groups i ver items = record {
    depth = 2;
    state = at_item;
    groups = groups;
    name = i.name;
    jid = i.jid;
    ask = i.ask;
    subscription = i.subscription;
    ver = ver;
    items = items;
  }

  feed-write_groups :
      (gs read : List Text) (i : RosterItem) (ver : Text) (items : List RosterItem)
      (rest : List Event)
      → Named gs
      → feed p (write_groups gs rest) (in_item read i ver items)
        ≡ feed p rest (in_item (read ++ gs) i ver items)
  unfolding feed write_groups handle_event text_discrete
  feed-write_groups [] read i ver items rest h =
      ap (λ (g : List Text). feed p rest (in_item g i ver items)) (sym (append-nil read))
  feed-write_groups ([] ∷ gs) read i ver items rest h = absurd (h.0 refl)
  feed-write_groups ((c ∷ g) ∷ gs) read i ver items rest h =
      feed-write_groups gs (read ++ (c ∷ g) ∷ []) i ver items rest h.1
      ∙ ap (λ (z : List Text). feed p rest (in_item z i ver items))
          (append_assoc read ((c ∷ g) ∷ []) gs)

  start_item :
      (i : RosterItem) (state : State) (groups : List Text) (name jid ask : Text) (s : Subscription)
      (ver : Text) (items : List RosterItem)
      → bare_text p i.jid ≡ i.jid
      → handle_event p (start_element (text "item") (item_attributes i)) (record {
        depth = 1;
        state = state;
        groups = groups;
        name = name;
        jid = jid;
        ask = ask;
        subscription = s;
        ver = ver;
        items = items;
      })
        ≡ in_item [] i ver items
  unfolding handle_event text_discrete
  start_item i state groups name jid ask s ver items h =
      let r = item_attributes-Reads i.name i.jid i.ask i.groups i.subscription in
      rw (r.jid_right, r.name_right, r.ask_right, r.subscription_right)
        (ap (λ (j : Text). in_item [] (record i { jid = j }) ver items) h)

  feed-write_items :
      (is : List RosterItem) (groups : List Text) (name jid ask : Text) (s : Subscription)
      (ver : Text) (items : List RosterItem)
      → Readable is
      → create_payload (
          feed p (write_items is (end_element ∷ [])) (record {
            depth = 1;
            state = at_query;
            groups = groups;
            name = name;
            jid = jid;
            ask = ask;
            subscription = s;
            ver = ver;
            items = items;
          }))
        ≡ with_items ver (items ++ is)
  unfolding feed write_items handle_event
  feed-write_items [] groups name jid ask s ver items h =
      ap (with_items ver) (sym (append-nil items))
  feed-write_items (i ∷ is) groups name jid ask s ver items h =
      let rest = end_element ∷ write_items is (end_element ∷ []) in
      ap (λ f. create_payload (feed p (write_groups i.groups rest) f))
        (start_item i at_query groups name jid ask s ver items h.0)
      ∙ ap create_payload (feed-write_groups i.groups [] i ver items rest h.1)
      ∙ feed-write_items is i.groups i.name i.jid i.ask i.subscription ver (items ++ i ∷ []) h.2
      ∙ ap (with_items ver) (append_assoc items (i ∷ []) is)

  query_with :
      (is : List RosterItem) (ver : Text)
      → Readable is
      → create_payload (feed p (serialize (with_items ver is)) initial)
        ≡ record { ver = if is_empty is then ver else []; items = is }
  unfolding feed serialize handle_event text_discrete get
  query_with [] ver h = feed-write_items [] [] [] [] [] invalid ver [] h
  query_with (i ∷ is) ver h = feed-write_items (i ∷ is) [] [] [] [] invalid [] [] h

  -- A query that is written and read back is the same query, but that the version of one with
  -- items is not written; its items have bare JIDs and no group without a name.
  pub feed-serialize :
      (q : RosterQuery)
      → Readable q.items
      → create_payload (feed p (serialize q) initial)
        ≡ record { ver = if is_empty q.items then q.ver else []; items = q.items }
  feed-serialize q h = query_with q.items q.ver h
