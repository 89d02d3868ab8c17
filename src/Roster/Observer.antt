-- ===== src/Roster/Observer.antt =====
-- An application that follows the signals of the roster keeps an exact copy of it.
use jreen.Base.{
  Option, none, some, List, [], ◌∷◌, ◌++◌, Text, Hash, inl, inr, Option-cases, get, put, remove,
  get-put, get-remove, ◌≡◌, refl, arith, ◌∙◌, ap, subst, Bool-cases,
}
use jreen.Roster.{
  Roster, RosterItem, RosterQuery, Signal, item_added, item_updated, item_removed, loaded, upsert,
  push_item, drop_item, each, handle_push, handle_loaded, on_loaded, set_data, jids_for_remove,
  keys, is_remove,
}

-- What the observer does on a signal.
unfoldable pub observe : Signal → Hash RosterItem → Hash RosterItem
observe (item_added item) m = put item.jid item m
observe (item_updated item) m = put item.jid item m
observe (item_removed jid) m = remove jid m
observe loaded m = m

unfoldable pub replay : List Signal → Hash RosterItem → Hash RosterItem
replay [] m = m
replay (s ∷ ss) m = replay ss (observe s m)

-- Every item stands under its own JID.
pub record IsKeyed (m : Hash RosterItem) : Type 0 where
  pub keyed : (k : Text) (item : RosterItem) → get k m ≡ some item → item.jid ≡ k

replay-append :
    (xs ys : List Signal) (m : Hash RosterItem) → replay (xs ++ ys) m ≡ replay ys (replay xs m)
unfolding replay
replay-append [] ys m = refl
replay-append (x ∷ xs) ys m = replay-append xs ys (observe x m)

put-IsKeyed : (item : RosterItem) (m : Hash RosterItem) → IsKeyed m → IsKeyed (put item.jid item m)
put-IsKeyed item m h = record {
  keyed = λ k i e. ground (arith, get-put item.jid k item m, h.keyed k i);
}

remove-IsKeyed : (j : Text) (m : Hash RosterItem) → IsKeyed m → IsKeyed (remove j m)
remove-IsKeyed j m h = record { keyed = λ k i e. ground (arith, get-remove j k m, h.keyed k i) }

-- A loop body that tells the truth about what it does.
abbrev Honest : {A : Type 0} → (A → Hash RosterItem → Hash RosterItem × List Signal) → Type 0
Honest {A} body =
    (a : A) (m : Hash RosterItem)
    → IsKeyed m
    → (replay (body a m).1 m ≡ (body a m).0) × IsKeyed (body a m).0

each-Honest :
    {A : Type 0} (body : A → Hash RosterItem → Hash RosterItem × List Signal)
    → Honest body
    → Honest (each body)
unfolding each replay
each-Honest body h [] m v = (refl, v)
each-Honest body h (a ∷ as') m v =
    let (e, w) = h a m v in
    let (e', w') = each-Honest body h as' (body a m).0 w in
    (
      replay-append (body a m).1 (each body as' (body a m).0).1 m
          ∙ ap (replay (each body as' (body a m).0).1) e
          ∙ e',
      w',
    )

upsert-added :
    (item : RosterItem) (m : Hash RosterItem)
    → get item.jid m ≡ none
    → upsert item m ≡ (put item.jid item m, item_added item ∷ [])
unfolding upsert
upsert-added item m e = ground arith

upsert-updated :
    (item old : RosterItem) (m : Hash RosterItem)
    → get item.jid m ≡ some old
    → upsert item m ≡ (put item.jid (set_data old item) m, item_updated (set_data old item) ∷ [])
unfolding upsert
upsert-updated item old m e = ground arith

upsert-Honest : Honest upsert
unfolding replay observe set_data
upsert-Honest item m v = elim (Option-cases (get item.jid m)) [
  | inl e ↦ rw (upsert-added item m e) (refl, put-IsKeyed item m v)
  | inr (old, e) ↦
      let k : old.jid ≡ item.jid = v.keyed item.jid old e in
      let new : RosterItem = set_data old item in
      rw (upsert-updated item old m e)
        (ap (λ j. put j new m) k, subst (λ j. IsKeyed (put j new m)) k (put-IsKeyed new m v))
]

push_item-Honest : Honest push_item
unfolding push_item replay observe
push_item-Honest item m v = elim (Bool-cases (is_remove item.subscription)) [
  | inl e ↦ rw e (refl, remove-IsKeyed item.jid m v)
  | inr e ↦ rw e (upsert-Honest item m v)
]

drop_item-Honest : Honest drop_item
unfolding drop_item replay observe
drop_item-Honest j m v = (refl, remove-IsKeyed j m v)

on_loaded-Honest :
    (items : List RosterItem) (r : Roster)
    → IsKeyed r.items
    → (replay (on_loaded items r).1 r.items ≡ (on_loaded items r).0.items)
      × IsKeyed (on_loaded items r).0.items
unfolding on_loaded replay observe
on_loaded-Honest items r v =
    let gone = jids_for_remove items (keys r.items) in
    let (kept, changes) = each upsert items r.items in
    let (left, removals) = each drop_item gone kept in
    let (e, w) = each-Honest upsert upsert-Honest items r.items v in
    let (e', w') = each-Honest drop_item drop_item-Honest gone kept w in
    (
      replay-append changes (removals ++ loaded ∷ []) r.items
          ∙ ap (replay (removals ++ loaded ∷ [])) e
          ∙ replay-append removals (loaded ∷ []) kept
          ∙ e',
      w',
    )

-- An observer whose copy is the roster, and who follows the signals of a push or of a load, has
-- the roster again afterwards; and every item still stands under its own JID.
pub observer_keeps_up :
    (r : Roster) (push : RosterQuery) (load : Option RosterQuery)
    → IsKeyed r.items
    → (replay (handle_push push r).1 r.items ≡ (handle_push push r).0.items)
      × IsKeyed (handle_push push r).0.items
      × (replay (handle_loaded load r).1 r.items ≡ (handle_loaded load r).0.items)
      × IsKeyed (handle_loaded load r).0.items
unfolding handle_push handle_loaded replay observe
observer_keeps_up r push none v =
    let (e, w) = each-Honest push_item push_item-Honest push.items r.items v in (e, w, refl, v)
observer_keeps_up r push (some query) v =
    let (e, w) = each-Honest push_item push_item-Honest push.items r.items v in
    let (e', w') = on_loaded-Honest query.items (record r { version = query.ver }) v in
    (e, w, e', w')
