-- ===== src/Privacy/Rules.antt =====
-- `PrivacyItem` of src/privacymanager.cpp: what a rule applies to.
use jreen.Base.{
  Bool, true, false, not, ◌&&◌, if◌then◌else◌, Text, text_eq, is_empty, ◌≡◌, refl, arith,
}
use jreen.Prep.{Preps}
use jreen.Jid.{JidData, empty_jid, set_jid, jid_eq, is_full, is_domain, is_bare}
use jreen.Roster.{RosterItem, Subscription, both, none_given, invalid, from, to, remove_item}
use jreen.Privacy.{member}

-- The type of a rule with its data.
pub data Rule : Type 0 where
  all : Rule
  by_jid : JidData → Rule
  by_group : Text → Rule
  by_subscription : Subscription → Rule

-- The roster and the privacy lists number the subscriptions alike.
abbrev pub same_subscription : Subscription → Subscription → Bool
same_subscription from from = true
same_subscription to to = true
same_subscription both both = true
same_subscription remove_item remove_item = true
same_subscription none_given none_given = true
same_subscription invalid invalid = true
same_subscription _ _ = false

abbrev pub known : Subscription → Subscription
known invalid = none_given
known s = s

unfoldable pub check_subscription : Subscription → Subscription → Bool
check_subscription item rule =
    if same_subscription (known item) both && not (same_subscription (known rule) none_given)
    then true
    else same_subscription (known item) (known rule)

-- `check(const JID &)`
unfoldable pub check_jid : Rule → JidData → Bool
check_jid all i = true
check_jid (by_jid j) i =
    if is_full j
    then jid_eq j i
    else if is_domain j
    then text_eq i.domain j.domain
    else if is_bare j
    then text_eq i.bare j.bare
    else if is_empty j.node
    then text_eq i.domain j.domain && text_eq i.resource j.resource
    else false
check_jid _ i = false

-- `check(const RosterItem *)`; the JID of the item is read from its text.
unfoldable pub check_item : Preps → Rule → RosterItem → Bool
unfolding check_jid check_subscription
check_item p all item = true
check_item p (by_jid j) item = check_jid (by_jid j) (set_jid p empty_jid item.jid).1
check_item p (by_group g) item = member g item.groups
check_item p (by_subscription s) item = check_subscription item.subscription s

-- A contact with a subscription both ways falls under every rule by subscription that a contact
-- with a subscription one way falls under, and under none that demands no subscription.
pub both_covers :
    (p : Preps) (item : RosterItem) (rule : Subscription)
    → (check_item p (by_subscription rule) (record item { subscription = from }) ≡ true
        → check_item p (by_subscription rule) (record item { subscription = both }) ≡ true)
      × (check_item p (by_subscription rule) (record item { subscription = to }) ≡ true
          → check_item p (by_subscription rule) (record item { subscription = both }) ≡ true)
      × (check_item p (by_subscription none_given) (record item { subscription = both }) ≡ false)
unfolding check_item check_subscription
both_covers p item rule = ((λ e. ground arith), (λ e. ground arith), refl)
