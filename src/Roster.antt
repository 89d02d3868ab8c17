-- ===== src/Roster.antt =====
-- src/abstractroster.cpp: the contact list and the two ways in which the server changes it, a
-- roster push and the answer to a request for the whole roster. Items are values here; the
-- notifications are those of `SimpleRoster`, in the order in which they are emitted.
pub mod Lookup
pub mod Load
pub mod Observer
pub mod Query
use jreen.Base.{
  Bool, true, false, not, Option, none, some, List, [], ◌∷◌, ◌++◌, if◌then◌else◌, Text, text_eq,
  Hash, get, put, remove, is_empty,
}

-- `RosterItem::SubscriptionType`
pub data Subscription : Type 0 where
  from to both remove_item none_given invalid : Subscription

pub record RosterItem : Type 0 where
  pub jid : Text
  pub name : Text
  pub groups : List Text
  pub subscription : Subscription
  pub ask : Text

pub record Roster : Type 0 where
  pub version : Text
  pub items : Hash RosterItem

pub data Signal : Type 0 where
  item_added item_updated : RosterItem → Signal
  item_removed : Text → Signal
  loaded : Signal

-- `AbstractRosterQuery`
pub record RosterQuery : Type 0 where
  pub ver : Text
  pub items : List RosterItem

-- `RosterItem::setData`: the JID stays.
unfoldable pub set_data : RosterItem → RosterItem → RosterItem
set_data old item = record old {
  ask = item.ask;
  groups = item.groups;
  subscription = item.subscription;
  name = item.name;
}

-- The branch that adds an item or updates the one that is there.
unfoldable pub upsert : RosterItem → Hash RosterItem → Hash RosterItem × List Signal
unfolding set_data
upsert item items = elim (get item.jid items) [
  | none ↦ (put item.jid item items, item_added item ∷ [])
  | some old ↦ (put item.jid (set_data old item) items, item_updated (set_data old item) ∷ [])
]

abbrev pub is_remove : Subscription → Bool
is_remove remove_item = true
is_remove _ = false

-- One round of `handleIQ(iq)`.
unfoldable pub push_item : RosterItem → Hash RosterItem → Hash RosterItem × List Signal
push_item item items =
    if is_remove item.subscription
    then (remove item.jid items, item_removed item.jid ∷ [])
    else upsert item items

-- A loop that changes the items and emits signals, one round for each entry.
unfoldable pub each {ℓ} :
    {A : Type ℓ}
    → (A → Hash RosterItem → Hash RosterItem × List Signal)
    → List A
    → Hash RosterItem
    → Hash RosterItem × List Signal
each body [] items = (items, [])
each body (a ∷ as') items =
    let (items', first) = body a items in
    let (items'', rest) = each body as' items' in (items'', first ++ rest)

-- `handleIQ(iq)` on a stanza that carries a roster query; the caller accepts the stanza.
unfoldable pub handle_push : RosterQuery → Roster → Roster × List Signal
handle_push query r =
    let (items, signals) = each push_item query.items r.items in
    (record { version = query.ver; items = items }, signals)

abbrev pub keys : Hash RosterItem → List Text
keys [] = []
keys ((k, v) ∷ m) = k ∷ keys m

-- `QSet<QString>` as a list without order; `remove` of a text.
unfoldable pub discard : Text → List Text → List Text
discard j [] = []
discard j (k ∷ ks) = let rest = discard j ks in if text_eq k j then rest else k ∷ rest

-- The loop that finds out which contacts are gone; it stops when none is left.
unfoldable pub jids_for_remove : List RosterItem → List Text → List Text
jids_for_remove [] jids = jids
jids_for_remove (item ∷ items) jids =
    let rest = jids_for_remove items (discard item.jid jids) in if is_empty jids then jids else rest

unfoldable pub drop_item : Text → Hash RosterItem → Hash RosterItem × List Signal
drop_item jid items = (remove jid items, item_removed jid ∷ [])

unfoldable pub on_loaded : List RosterItem → Roster → Roster × List Signal
on_loaded items r =
    let gone = jids_for_remove items (keys r.items) in
    let (kept, changes) = each upsert items r.items in
    let (left, removals) = each drop_item gone kept in
    (record r { items = left }, changes ++ (removals ++ loaded ∷ []))

-- `handleIQ(iq, LoadRoster)`: no query in the answer means that the version is still current.
unfoldable pub handle_loaded : Option RosterQuery → Roster → Roster × List Signal
handle_loaded none r = (r, loaded ∷ [])
handle_loaded (some query) r = on_loaded query.items (record r { version = query.ver })
