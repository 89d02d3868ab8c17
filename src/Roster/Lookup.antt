-- ===== src/Roster/Lookup.antt =====
-- What a roster push and a whole roster leave under each JID, against the last item that the
-- server sent for it.
use jreen.Base.{
  Option, none, some, List, [], ◌∷◌, if◌then◌else◌, Text, text_eq, Hash, get, get-put, get-remove,
  Option-cases, inl, inr, ◌≡◌, refl, arith,
}
use jreen.Roster.{
  Roster, RosterItem, RosterQuery, Subscription, set_data, upsert, is_remove, push_item, each,
  handle_push,
}

-- What the server decides about a contact: all of an item but its JID.
pub record Shown : Type 0 where
  pub name : Text
  pub groups : List Text
  pub subscription : Subscription
  pub ask : Text

abbrev pub show_item : RosterItem → Shown
show_item i = record {
  name = i.name;
  groups = i.groups;
  subscription = i.subscription;
  ask = i.ask;
}

abbrev pub show : Option RosterItem → Option Shown
show none = none
show (some i) = some (show_item i)

-- The last item of a query for a JID.
unfoldable pub last_for : Text → List RosterItem → Option RosterItem
last_for j [] = none
last_for j (item ∷ items) = elim (last_for j items) [
  | none ↦ if text_eq item.jid j then some item else none
  | some later ↦ some later
]

-- What stands under a JID behind its last pushed item.
abbrev pub decided : Option RosterItem → Option Shown → Option Shown
decided none before = before
decided (some item) before = if is_remove item.subscription then none else some (show_item item)

pub show-upsert :
    (j : Text) (item : RosterItem) (m : Hash RosterItem)
    → show (get j (upsert item m).0)
      ≡ (if text_eq item.jid j then some (show_item item) else show (get j m))
unfolding upsert
show-upsert j item m = elim (Option-cases (get item.jid m)) [
  | inl e ↦ ground (arith, get-put item.jid j item m)
  | inr (old, e) ↦ ground (arith, get-put item.jid j (set_data old item) m)
]

show-push_item :
    (j : Text) (item : RosterItem) (m : Hash RosterItem)
    → show (get j (push_item item m).0)
      ≡ (if text_eq item.jid j then decided (some item) (show (get j m)) else show (get j m))
unfolding push_item
show-push_item j item m = ground (arith, show-upsert j item m, get-remove item.jid j m)

show-each :
    (j : Text) (items : List RosterItem) (m : Hash RosterItem)
    → show (get j (each push_item items m).0) ≡ decided (last_for j items) (show (get j m))
unfolding each last_for
show-each j [] m = refl
show-each j (item ∷ items) m =
    ground (arith, show-each j items (push_item item m).0, show-push_item j item m)

-- After a push every contact shows what its last pushed item says, and is gone where that item
-- says so; a contact that is not in the push is as it was. The version is the pushed one.
pub handle_push-show :
    (query : RosterQuery) (r : Roster)
    → ((handle_push query r).0.version ≡ query.ver)
      × ((j : Text)
          → show (get j (handle_push query r).0.items)
            ≡ decided (last_for j query.items) (show (get j r.items)))
unfolding handle_push
handle_push-show query r = (refl, λ j. show-each j query.items r.items)
