-- ===== src/Disco/Memory.antt =====
-- The actions that an item of service discovery remembers.
use jreen.Base.{
  arith, text, is_empty, false, true, Option, none, some, List, [], ◌∷◌, Text, ◌≡◌, refl,
}
use jreen.Jid.{JidData}
use jreen.Form.Fields.{holds}
use jreen.Form.{DataForm}
use jreen.Disco.{
  Identity, Info, Item, DiscoIq, Reply, set_jid, set_node, set_name, add_identity, set_identities,
  set_features, set_form, computed_actions, actions, has_identity, found, remembered,
  reply_received,
}

-- The operations of an item but `setJid`.
pub data Change : Type 0 where
  node_set name_set : Text → Change
  identity_added : Identity → Change
  identities_set : List Identity → Change
  features_set : List Text → Change
  form_set : Option DataForm → Change
  actions_asked : Change

unfoldable pub change : Change → Item → Item
unfolding set_node set_name add_identity set_identities set_features set_form actions
change (node_set s) i = set_node s i
change (name_set s) i = set_name s i
change (identity_added d) i = add_identity d i
change (identities_set ds) i = set_identities ds i
change (features_set fs) i = set_features fs i
change (form_set f) i = set_form f i
change actions_asked i = (actions i).1

unfoldable pub changes : List Change → Item → Item
unfolding change
changes [] i = i
changes (c ∷ cs) i = changes cs (change c i)

-- An item remembers what it would compute, if anything.
abbrev pub Fresh : Item → Type 0
Fresh i = remembered i.actions (computed_actions i) ≡ computed_actions i

change-Fresh : (c : Change) (i : Item) → Fresh i → Fresh (change c i)
unfolding change computed_actions
change-Fresh (node_set s) i h = h
change-Fresh (name_set s) i h = h
change-Fresh (identity_added d) i h = refl
change-Fresh (identities_set ds) i h = refl
change-Fresh (features_set fs) i h = refl
change-Fresh (form_set f) i h = h
change-Fresh actions_asked i h = h

changes-Fresh : (cs : List Change) (i : Item) → Fresh i → Fresh (changes cs i)
unfolding changes
changes-Fresh [] i h = h
changes-Fresh (c ∷ cs) i h = changes-Fresh cs (change c i) (change-Fresh c i h)

-- Whatever is done with an item but to set its JID, what it tells of its actions is what its JID,
-- its identities and its features then give, if what it remembers at first is.
pub actions-changes :
    (cs : List Change) (i : Item)
    → Fresh i
    → (actions (changes cs i)).0 ≡ computed_actions (changes cs i)
unfolding actions
actions-changes cs i h = changes-Fresh cs i h

-- `setJid` keeps the actions that an item remembers: a room whose JID had no node when its actions
-- were asked for tells that it cannot be joined after it has got a JID with a node, although it is
-- then computed that it can, where it is not of an IRC conference.
pub stale_actions :
    (j : JidData) (i : Item)
    → i.actions ≡ none
    → is_empty i.jid.node ≡ true
    → is_empty j.node ≡ false
    → holds (text "http://jabber.org/protocol/muc") i.features ≡ true
    → has_identity (text "conference") (text "irc") i ≡ false
    → ((actions (set_jid j (actions i).1)).0.join ≡ false)
      × ((computed_actions (set_jid j i)).join ≡ true)
unfolding actions set_jid computed_actions
stale_actions j i forgotten no_node node muc no_irc =
    ground (arith, forgotten, no_node, node, muc, no_irc)

-- After the answer to a query for information the item of the reply tells the actions of what the
-- answer says, whatever it remembered before.
pub actions-reply_received :
    (full_jid : JidData) (i : DiscoIq) (q : Info) (r : Reply)
    → i.error ≡ none
    → i.info_query ≡ some q
    → (actions (reply_received full_jid i r).0.item).0
      ≡ computed_actions (record {
        jid = full_jid;
        node = q.node;
        name = r.item.name;
        features = q.features;
        identities = q.identities;
        form = q.form;
        actions = none;
      })
unfolding actions reply_received computed_actions found
actions-reply_received full_jid i q r e f = rw (e, f) refl
