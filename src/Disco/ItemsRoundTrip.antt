-- ===== src/Disco/ItemsRoundTrip.antt =====
-- What the items factory of service discovery writes it reads back.
use jreen.Base.{
  List, [], ◌∷◌, ◌++◌, Text, text, text_discrete, get, append_assoc, append-nil, ◌≡◌, refl, ap, ◌∙◌,
  sym,
}
use jreen.Prep.{Preps}
use jreen.Jid
use jreen.Jid.{JidData, empty_jid}
use jreen.Xml.{closed, value-given_self, get-given_other}
use jreen.Disco.{Item, Items, new_item}
use jreen.Disco.Factories.{
  read_item, item_attributes, new_items_factory, items_event, feed_items, create_items, write_items,
  serialize_items,
}

module _ (p : Preps) where
  -- What an item reads as: the features, the identities, the form and the actions are not written.
  abbrev pub items_after : List Item → List Item
  items_after [] = []
  items_after (i ∷ is) = new_item i.jid i.node i.name ∷ items_after is

  abbrev pub Parses : List Item → Type 0
  Parses [] = Unit {0}
  Parses (i ∷ is) = ((Jid.set_jid p empty_jid i.jid.full).1 ≡ i.jid) × Parses is

  read_item-item_attributes :
      (i : Item)
      → (Jid.set_jid p empty_jid i.jid.full).1 ≡ i.jid
      → read_item p (item_attributes i) ≡ new_item i.jid i.node i.name
  unfolding get text_discrete
  read_item-item_attributes i h =
      let named = (text "name", i.name) ∷ [] in
      let node = value-given_self (text "node") i.node named refl in
      let name = get-given_other (text "name") (text "node") i.node named refl in
      rw (h, node, name) refl

  feed_items-write_items :
      (node : Text) (is read : List Item)
      → Parses is
      → create_items (
          feed_items p
            (write_items is (closed ∷ []))
            (record { depth = 1; node = node; items = read }))
        ≡ record { node = node; items = read ++ items_after is }
  unfolding feed_items items_event write_items create_items get text_discrete
  feed_items-write_items node [] read h =
      ap (λ (z : List Item). record { node = node; items = z }) (sym (append-nil read))
  feed_items-write_items node (i ∷ is) read h =
      ap
        (λ z. create_items (
          feed_items p (write_items is (closed ∷ []))
            (record { depth = 1; node = node; items = read ++ z ∷ [] })))
        (read_item-item_attributes i h.0)
      ∙ feed_items-write_items node is (read ++ new_item i.jid i.node i.name ∷ []) h.1
      ∙ ap (λ (z : List Item). record { node = node; items = z })
          (append_assoc read (new_item i.jid i.node i.name ∷ []) (items_after is))

  -- Items that are written and read by a factory that is in no element are the same items, but only
  -- their JIDs, nodes and names, where each JID reads as itself.
  pub create_items-serialize_items :
      (q : Items)
      → Parses q.items
      → create_items (feed_items p (serialize_items q) (new_items_factory 0))
        ≡ record { node = q.node; items = items_after q.items }
  unfolding feed_items items_event serialize_items create_items get text_discrete
  create_items-serialize_items q h =
      ap
        (λ (z : Text). create_items (
          feed_items p (write_items q.items (closed ∷ []))
            (record { depth = 1; node = z; items = [] })))
        (value-given_self (text "node") q.node [] refl)
      ∙ feed_items-write_items q.node q.items [] h
