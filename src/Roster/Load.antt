-- ===== src/Roster/Load.antt =====
-- What loading the whole roster leaves.
use jreen.Base.{
  Bool, true, false, not, ◌&&◌, none, some, List, [], ◌∷◌, if◌then◌else◌, Text, text_eq, Hash, get,
  remove, get-remove, ◌≡◌, refl, arith,
}
use jreen.Roster.{
  Roster, RosterItem, RosterQuery, upsert, each, keys, discard, jids_for_remove, drop_item,
  on_loaded, handle_loaded,
}
use jreen.Roster.Lookup.{show, last_for, show-upsert}

abbrev has : Text → List Text → Bool
has j [] = false
has j (k ∷ ks) = if text_eq k j then true else has j ks

-- An item of the query is about the JID.
abbrev mentions : Text → List RosterItem → Bool
mentions j items = elim (last_for j items) [ none ↦ false | some item ↦ true ]

has-discard : (j k : Text) (ks : List Text) → has j (discard k ks) ≡ (has j ks && not (text_eq k j))
unfolding discard
has-discard j k [] = refl
has-discard j k (i ∷ ks) = ground (arith, has-discard j k ks)

has-jids_for_remove :
    (j : Text) (items : List RosterItem) (ks : List Text)
    → has j (jids_for_remove items ks) ≡ (has j ks && not (mentions j items))
unfolding jids_for_remove last_for
has-jids_for_remove j [] ks = ground arith
has-jids_for_remove j (item ∷ items) [] = refl
has-jids_for_remove j (item ∷ items) (k ∷ ks) = ground (
  arith,
  has-jids_for_remove j items (discard item.jid (k ∷ ks)),
  has-discard j item.jid (k ∷ ks),
)

get-each-drop_item :
    (j : Text) (gone : List Text) (m : Hash RosterItem)
    → get j (each drop_item gone m).0 ≡ (if has j gone then none else get j m)
unfolding each drop_item
get-each-drop_item j [] m = refl
get-each-drop_item j (k ∷ gone) m =
    ground (arith, get-each-drop_item j gone (remove k m), get-remove k j m)

has-keys : (j : Text) (m : Hash RosterItem) → has j (keys m) ≡ false → get j m ≡ none
unfolding get
has-keys j [] h = refl
has-keys j ((k, v) ∷ m) h = ground (arith, has-keys j m)

show-each-upsert :
    (j : Text) (items : List RosterItem) (m : Hash RosterItem)
    → show (get j (each upsert items m).0)
      ≡ (if mentions j items then show (last_for j items) else show (get j m))
unfolding each last_for
show-each-upsert j [] m = refl
show-each-upsert j (item ∷ items) m =
    ground (arith, show-each-upsert j items (upsert item m).0, show-upsert j item m)

-- After the whole roster has come, every contact shows what the last item for it says, and a
-- contact that the roster does not mention is gone, whatever was known before.
pub handle_loaded-show :
    (query : RosterQuery) (r : Roster) (j : Text)
    → show (get j (handle_loaded (some query) r).0.items) ≡ show (last_for j query.items)
unfolding handle_loaded on_loaded
handle_loaded-show query r j =
    let gone = jids_for_remove query.items (keys r.items) in
    ground (
      arith,
      get-each-drop_item j gone (each upsert query.items r.items).0,
      has-jids_for_remove j query.items (keys r.items),
      show-each-upsert j query.items r.items,
      has-keys j r.items,
    )
